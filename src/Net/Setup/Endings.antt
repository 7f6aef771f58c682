-- ===== src/Net/Setup/Endings.antt =====
-- net/client.cpp: how connecting to a host ends.
use o2chat.Prelude.{
  true, false, List, [], ◌∷◌, Option, none, some, ◌≡◌, refl, sym, ◌∙◌, arith, Bool-cases, inl, inr,
  ◌⊎◌, ◌≢◌,
}
use o2chat.Net.Connect.{ErrorCode, is_error}
use o2chat.Net.First.{Ends, async_connect_lem}
use o2chat.Net.Setup.{
  System, TcpClient, resolve, resolve_found, make_connected, handle_handshake, handle_connect,
  range_ended, connect_hosts, async_connect_client, is_open,
}

module _ {ℓ} {A : Type ℓ} (sys : System A) where
  make_connected_mark : (c : TcpClient) → (make_connected sys c).0.is_open_mark ≡ true
  unfolding make_connected
  make_connected_mark c = elim (Bool-cases (is_error sys.remote)) [
    | inl e ↦ rw (e, make_connected) refl
    | inr e ↦ elim (Bool-cases (is_error sys.remote_text.1)) [
      | inl f ↦ rw (e, make_connected) (rw f refl)
      | inr f ↦ elim (Bool-cases (is_error sys.local)) [
        | inl g ↦ rw (e, make_connected) (rw f (rw g refl))
        | inr g ↦ rw (e, make_connected) (rw f (rw g refl))
      ]
    ]
  ]

  -- What `makeConnected` leaves without an error: both addresses were read.
  abbrev pub Named : TcpClient → TcpClient → Type 0
  Named c c' =
      (is_error sys.remote ≡ false)
      × (is_error sys.remote_text.1 ≡ false)
      × (is_error sys.local ≡ false)
      × (is_error sys.local_text.1 ≡ false)
      × (c' ≡ record c {
        is_open_mark = true;
        remote_addr = sys.remote_text.0;
        local_addr = sys.local_text.0;
      })

  -- What the handler of `asyncConnect` is given by a client whose connect to the addresses ended with `ec`: an
  -- error of the connect, with the client as it was; or the client counts as open, and if there is no error it
  -- has both addresses, and the handshake, if there is one, was made.
  abbrev pub Connected : TcpClient → ErrorCode → TcpClient → ErrorCode → Type 0
  Connected c ec c' code =
      ((is_error ec ≡ true) × (c' ≡ c) × (code ≡ ec))
      ⊎ ((is_error ec ≡ false)
          × (is_open sys c' ≡ sys.socket_open)
          × (is_error code ≡ false → Named c c' × (c.ssl ≡ true → is_error sys.handshake ≡ false)))

  -- The same, from the addresses on: `none` for an exception of the resolver.
  abbrev pub Ending : TcpClient → Option (List A) → TcpClient → ErrorCode → Type ℓ
  Ending c found c' code =
      ((found ≡ none) × (c' ≡ c) × (code ≡ ErrorCode.no_recovery))
      ⊎ ((hosts : List A) × (ec : ErrorCode) × (o : Option A) × (found ≡ some hosts)
          × Ends sys.open_socket sys.result 0 hosts ec o
          × Connected c ec c' code)

  -- A success of `makeConnected` and of the handshake.
  made_lem :
      (c : TcpClient) → is_error (make_connected sys c).1 ≡ false → Named c (make_connected sys c).0
  unfolding make_connected
  made_lem c h = elim (Bool-cases (is_error sys.remote)) [
    | inl e ↦ absurd (cc (e, sym (rw (e, make_connected) at h)))
    | inr e ↦ elim (Bool-cases (is_error sys.remote_text.1)) [
      | inl f ↦ absurd (cc (f, sym (rw (e, f, make_connected) at h)))
      | inr f ↦ elim (Bool-cases (is_error sys.local)) [
        | inl g ↦ absurd (cc (g, sym (rw (e, f, g, make_connected) at h)))
        | inr g ↦
            (e, f, g, rw (e, f, g, make_connected) at h, rw (e, make_connected) (rw f (rw g refl)))
      ]
    ]
  ]

  shaken_lem :
      (c : TcpClient) (ec : ErrorCode)
      → is_error ec ≡ false
      → is_error (handle_connect sys c ec) ≡ false
      → c.ssl ≡ true
      → is_error sys.handshake ≡ false
  unfolding handle_connect handle_handshake
  shaken_lem c ec e h on = elim (Bool-cases (is_error sys.handshake)) [
    | inl f ↦ absurd (cc (f, rw (e, on, f, handle_connect, handle_handshake) at h))
    | inr f ↦ f
  ]

  passed_lem :
      (c : TcpClient) (ec : ErrorCode)
      → is_error (handle_connect sys c ec) ≡ false
      → is_error ec ≡ false
  unfolding handle_connect
  passed_lem c ec h = elim (Bool-cases (is_error ec)) [
    | inl e ↦ absurd (cc (e, rw (e, handle_connect) at h))
    | inr e ↦ e
  ]

  -- There is an endpoint in what `resolve` gives.
  resolve_filled :
      (found : Option (List A))
      → ((e : A) (endpoints : List A)
          → (e' : A) × (rest : List A) × (sys.shuffle (e ∷ endpoints) ≡ e' ∷ rest))
      → resolve_found sys found ≢ some []
  unfolding resolve_found
  resolve_filled none shuffled h = cc h
  resolve_filled (some []) shuffled h = cc h
  resolve_filled (some (e ∷ endpoints)) shuffled h =
      let (e', rest, order) = shuffled e endpoints in cc (h, order)

  pub make_connected-ssl : (c : TcpClient) → (make_connected sys c).0.ssl ≡ c.ssl
  unfolding make_connected
  make_connected-ssl c = ground arith

  range_ended-Connected :
      (c : TcpClient) (ec : ErrorCode)
      → Connected c ec (range_ended sys c ec).0 (range_ended sys c ec).1
  unfolding range_ended handle_connect handle_handshake is_open
  range_ended-Connected c ec = elim (Bool-cases (is_error ec)) [
    | inl e ↦ rw (e, range_ended, handle_connect) (inl (refl, refl, refl))
    | inr e ↦
        rw (e, range_ended)
          (inr (
            refl,
            rw (make_connected_mark c) refl,
            λ ok.
                let made = make_connected sys c in
                let passed = passed_lem made.0 made.1 ok in
                (
                  made_lem c passed,
                  λ on. shaken_lem made.0 made.1 passed ok (make_connected-ssl c ∙ on),
                ),
          ))
  ]

hosts_Ending {ℓ} :
    {A : Type ℓ} (sys : System A) (c : TcpClient) (hosts : Option (List A))
    → hosts ≢ some []
    → (c' : TcpClient) × (code : ErrorCode) × (connect_hosts sys c hosts ≡ some (c', code))
      × Ending sys c hosts c' code
unfolding connect_hosts
hosts_Ending sys c none h = (c, ErrorCode.no_recovery, refl, inl (refl, refl, refl))
hosts_Ending sys c (some []) h = absurd (h refl)
hosts_Ending sys c (some (e ∷ rest)) h =
    let (ec, o, run, ends) = async_connect_lem sys.open_socket sys.result e rest in
    let made = range_ended sys c ec in
    (
      made.0,
      made.1,
      rw (run, connect_hosts) refl,
      inr (e ∷ rest, ec, o, refl, ends, range_ended-Connected sys c ec),
    )

-- Connecting to a host calls its handler, whatever the system does, if the random order of addresses, one
-- at least, has one at least: the assertion on an empty range cannot fail. If the resolver throws or finds
-- nothing, the client is as before and the handler gets `no_recovery`. If not, the addresses are tried in the
-- order of `resolve`, until one accepts, or a connect is cancelled, or a socket cannot be opened, or all are
-- tried in vain. If none accepted, the client is as before and the handler gets that error. If one did, the
-- client counts as open as long as the system has its socket open, even if the handler gets an error of the
-- addresses or of the handshake; and if it gets none, the client has the addresses of both ends, and the
-- handshake, with TLS, was made.
pub async_connect_client_lem {ℓ} :
    {A : Type ℓ} (sys : System A) (c : TcpClient)
    → ((e : A) (endpoints : List A)
        → (e' : A) × (rest : List A) × (sys.shuffle (e ∷ endpoints) ≡ e' ∷ rest))
    → (c' : TcpClient) × (code : ErrorCode) × (async_connect_client sys c ≡ some (c', code))
      × Ending sys c (resolve sys) c' code
unfolding async_connect_client
async_connect_client_lem sys c shuffled =
    hosts_Ending sys c (resolve sys) (unfold resolve in resolve_filled sys sys.addresses shuffled)

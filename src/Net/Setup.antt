-- ===== src/Net/Setup.antt =====
-- net/client.cpp: from a host to a connection. What the system gives is a parameter: the addresses of the
-- resolver (`none` for an exception) and their random order, the codes of the sockets and of the
-- connects, the addresses of the two ends as texts, each with the codes of the two calls that give it, and
-- the code of the TLS handshake.
pub mod Endings
pub mod Tcp
use o2chat.Prelude.{
  ℕ, Bool, true, false, not, List, [], ◌∷◌, Bytes, if◌then◌else◌, Option, none, some, ◌≡◌, refl,
  sym, ◌∙◌, arith, Bool-cases, inl, inr, ◌⊎◌, ◌≢◌,
}
use o2chat.Net.Connect.{ErrorCode, is_error, async_connect}

pub record System {ℓ} (A : Type ℓ) : Type ℓ where
  pub addresses : Option (List A)
  pub shuffle : List A → List A
  pub open_socket : A → ErrorCode
  pub result : ℕ → ErrorCode
  pub remote : ErrorCode
  pub remote_text : Bytes × ErrorCode
  pub local : ErrorCode
  pub local_text : Bytes × ErrorCode
  pub handshake : ErrorCode
  pub socket_open : Bool

-- The fields of `BasicTcpClient` for this.
pub record TcpClient : Type 0 where
  pub is_open_mark : Bool
  pub ssl : Bool
  pub remote_addr : Bytes
  pub local_addr : Bytes

module _ {ℓ} {A : Type ℓ} (sys : System A) where
  -- `resolve` on what was found; `none` is an exception. The first of its two is never thrown.
  unfoldable pub resolve_found : Option (List A) → Option (List A)
  resolve_found none = none
  resolve_found (some []) = none
  resolve_found (some (e ∷ endpoints)) = some (sys.shuffle (e ∷ endpoints))

  unfoldable pub resolve : Option (List A)
  unfolding resolve_found
  resolve = resolve_found sys.addresses

  -- `makeConnected`, with the code that it leaves.
  unfoldable pub make_connected : TcpClient → TcpClient × ErrorCode
  make_connected c =
      let opened = record c { is_open_mark = true } in
      let named = record opened { remote_addr = sys.remote_text.0 } in
      if is_error sys.remote
      then (opened, sys.remote)
      else if is_error sys.remote_text.1
      then (named, sys.remote_text.1)
      else if is_error sys.local
      then (named, sys.local)
      else (record named { local_addr = sys.local_text.0 }, sys.local_text.1)

  -- `handleHandshake`
  unfoldable pub handle_handshake : ErrorCode → ErrorCode
  handle_handshake error = if is_error error then error else ErrorCode.success

  -- `handleConnect`
  unfoldable pub handle_connect : TcpClient → ErrorCode → ErrorCode
  unfolding handle_handshake
  handle_connect c error =
      if is_error error
      then error
      else if not c.ssl
      then ErrorCode.success
      else handle_handshake sys.handshake

  -- What the handler of the range makes of its result.
  unfoldable pub range_ended : TcpClient → ErrorCode → TcpClient × ErrorCode
  unfolding make_connected handle_connect
  range_ended c ec =
      let made = make_connected c in
      if is_error ec then (c, handle_connect c ec) else (made.0, handle_connect made.0 made.1)

  unfoldable pub connect_hosts : TcpClient → Option (List A) → Option (TcpClient × ErrorCode)
  unfolding range_ended
  connect_hosts c none = some (c, ErrorCode.no_recovery)
  connect_hosts c (some hosts) = elim (async_connect sys.open_socket sys.result hosts) [
    | none ↦ none
    | some ended ↦ some (range_ended c ended.0)
  ]

  -- `AsyncHttpClient::asyncConnect`: the client and the code that its handler gets. `none` is a failed
  -- assertion.
  unfoldable pub async_connect_client : TcpClient → Option (TcpClient × ErrorCode)
  unfolding resolve connect_hosts
  async_connect_client c = connect_hosts c resolve

  -- `asyncHandshakeAsServer`: the code that its handler gets.
  unfoldable pub async_handshake_as_server : TcpClient → ErrorCode
  async_handshake_as_server c = if not c.ssl then ErrorCode.success else sys.handshake

  -- `isOpen`
  unfoldable pub is_open : TcpClient → Bool
  is_open c = if not c.is_open_mark then false else sys.socket_open

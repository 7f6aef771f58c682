-- ===== src/Net/Setup/Tcp.antt =====
-- net/client.hpp: the connect of `TcpClient`, which is that of `AsyncHttpClient` but for the handshake.
use o2chat.Prelude.{
  false, not, List, if◌then◌else◌, Option, none, some, ◌≡◌, refl, sym, ap, ◌∙◌, Bool-cases, inl,
  inr, Option-cases,
}
use o2chat.Net.Connect.{ErrorCode, is_error, async_connect}
use o2chat.Net.Setup.{
  System, TcpClient, resolve, make_connected, handle_connect, range_ended, connect_hosts,
  async_connect_client,
}
use o2chat.Net.Setup.Endings.{make_connected-ssl}

module _ {ℓ} {A : Type ℓ} (sys : System A) where
  -- What the handler of the range makes of its result: `makeConnected` writes into the code.
  unfoldable pub tcp_ended : TcpClient → ErrorCode → TcpClient × ErrorCode
  tcp_ended c ec = if not (is_error ec) then make_connected sys c else (c, ec)

  unfoldable pub tcp_hosts : TcpClient → Option (List A) → Option (TcpClient × ErrorCode)
  unfolding tcp_ended
  tcp_hosts c none = some (c, ErrorCode.no_recovery)
  tcp_hosts c (some hosts) = elim (async_connect sys.open_socket sys.result hosts) [
    | none ↦ none
    | some ended ↦ some (tcp_ended c ended.0)
  ]

  -- `TcpClient::asyncConnect`: the client and the code that its handler gets. `none` is a failed assertion.
  unfoldable pub tcp_async_connect : TcpClient → Option (TcpClient × ErrorCode)
  unfolding tcp_hosts
  tcp_async_connect c = tcp_hosts c (resolve sys)

  plain_lem : (c : TcpClient) (ec : ErrorCode) → c.ssl ≡ false → handle_connect sys c ec ≡ ec
  unfolding handle_connect
  plain_lem c ErrorCode.success plain = rw plain refl
  plain_lem c ErrorCode.operation_aborted plain = refl
  plain_lem c ErrorCode.no_recovery plain = refl
  plain_lem c ErrorCode.not_found plain = refl
  plain_lem c ErrorCode.timed_out plain = refl
  plain_lem c (ErrorCode.failed n) plain = refl

  ended_lem :
      (c : TcpClient) (ec : ErrorCode) → c.ssl ≡ false → tcp_ended c ec ≡ range_ended sys c ec
  unfolding tcp_ended range_ended
  ended_lem c ec plain =
      let made = make_connected sys c in
      elim (Bool-cases (is_error ec)) [
        | inl e ↦ rw (e, tcp_ended, range_ended) refl
        | inr e ↦
            rw (e, tcp_ended, range_ended)
              (ap (λ z. (made.0, z))
                (sym (plain_lem made.0 made.1 (make_connected-ssl sys c ∙ plain))))
      ]

  hosts_lem :
      (c : TcpClient) (hosts : Option (List A))
      → c.ssl ≡ false
      → tcp_hosts c hosts ≡ connect_hosts sys c hosts
  unfolding tcp_hosts connect_hosts
  hosts_lem c none plain = refl
  hosts_lem c (some hosts) plain =
      elim (Option-cases (async_connect sys.open_socket sys.result hosts)) [
        | inl e ↦ rw (e, tcp_hosts, connect_hosts) refl
        | inr (ended, e) ↦ rw (e, tcp_hosts, connect_hosts) (ap some (ended_lem c ended.0 plain))
      ]

  -- Without TLS, both connects end alike, whatever the system does.
  tcp_async_connect_lem :
      (c : TcpClient) → c.ssl ≡ false → tcp_async_connect c ≡ async_connect_client sys c
  unfolding tcp_async_connect async_connect_client
  tcp_async_connect_lem c plain = hosts_lem c (resolve sys) plain

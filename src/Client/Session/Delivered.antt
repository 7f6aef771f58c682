-- ===== src/Client/Session/Delivered.antt =====
-- client/src/client.cpp and server/src/apiclient.cpp: a message that the user types reaches the workers
-- of the server.
use o2chat.Prelude.{
  ℕ, ltb, ◌<◌, true, false, ◌||◌, [], ◌∷◌, ◌++◌, Bytes, codes, c_str, is_empty, any, ◌==◌, ◌=?◌,
  Option, some, length, u32_mod, u64_mod, ◌≡◌, refl, sym, ap, ◌∙◌, arith, append-nil,
}
use o2chat.Common.{Cmd}
use o2chat.Json.{uint, string, end, member, External, find_member}
use o2chat.Responses.{is_word}
use o2chat.Text.Strings.{ltrim}
use o2chat.Http.Reading.{Outcome, async_response}
use o2chat.Api.Connection.{ApiClient, request_from_client_read}
use o2chat.Client.Bodies.{build_user_send_msg_body, send_msg_json}
use o2chat.Client.Accepted.{send_filled}
use o2chat.Client.Input.{Command, parse}
use o2chat.Client.Input.Words.{is_name}
use o2chat.Client.Input.Direct.{parse_direct}
use o2chat.Client.Session.{
  Session, Channel, Action, json_request, on_user_input, on_command, send_request, is_chat_u,
}
use o2chat.Client.Session.Typed.{posted, posted_task, put_for}

-- What a message of the session `s` becomes at the server: one task that saves it. The request is read
-- whole from the bytes.
abbrev pub Reaches :
    External
    → (Bytes → Option Bytes)
    → ℕ
    → ℕ
    → ApiClient
    → Session
    → Bytes
    → Bytes
    → Bytes
    → Bytes
    → Type 0
Reaches lib inflate pass_len now c s to msg body rest =
    (async_response inflate (json_request Cmd.message_send body ++ rest)
      ≡ Outcome.received (posted Cmd.message_send body) rest)
    × ((c' : ApiClient) × (request_from_client_read lib pass_len now c false
            (posted Cmd.message_send body)
          ≡ some (
            c',
            put_for c Cmd.message_send (record c.request_details.params {
              uid = s.self_id;
              message = c_str msg;
              to_user = c_str to;
              password = c_str s.password;
            })
                ∷ [],
          )))

send_delivered :
    (lib : External) (inflate : Bytes → Option Bytes) (pass_len now : ℕ) (c : ApiClient)
    (s : Session) (to msg rest : Bytes)
    → lib.parse (c_str (build_user_send_msg_body lib s.self_id 0 to msg s.password))
      ≡ some (send_msg_json s.self_id 0 to msg s.password)
    → length (build_user_send_msg_body lib s.self_id 0 to msg s.password) < u64_mod
    → ltb s.self_id u32_mod ≡ true
    → is_empty (c_str to) ≡ false
    → is_empty (c_str msg) ≡ false
    → is_empty (c_str s.password) ≡ false
    → Reaches lib inflate pass_len now c s to msg
        (build_user_send_msg_body lib s.self_id 0 to msg s.password)
        rest
unfolding send_msg_json find_member ◌=?◌
send_delivered lib inflate pass_len now c s to msg rest parsed short small ht hm hp =
    let ms = member (codes "uid") (uint s.self_id) (
      member (codes "to") (string (c_str to)) (
        member (codes "message") (string (c_str msg))
          (member (codes "password") (string (c_str s.password)) end))) in
    let (ok, e) =
      send_filled pass_len c.request_details.params ms s.self_id to msg s.password refl refl refl
        refl small ht hm hp in
    let body = build_user_send_msg_body lib s.self_id 0 to msg s.password in
    let (read, (c', put)) =
      posted_task lib inflate pass_len now c Cmd.message_send ms body rest refl parsed short ok in
    (read, (c', put ∙ ap (λ p. some (c', put_for c Cmd.message_send p ∷ [])) e))

name_filled : (s : Bytes) → is_name s ≡ true → is_empty (c_str s) ≡ false
unfolding is_word
name_filled [] h = absurd (cc h)
name_filled (x ∷ s) h = let zero : (x == 0) ≡ false = ground (arith, h) in rw zero refl

-- A typed `direct_msg` with a name of word characters and a message of one line, outside a chat: one
-- request that the server reads whole, and that becomes one task, which saves the message, without
-- spaces in front, from the user to that name.
pub direct_delivered :
    (lib : External) (inflate : Bytes → Option Bytes) (pass_len now : ℕ) (c : ApiClient)
    (s : Session) (name text rest : Bytes)
    → is_chat_u s.mode ≡ false
    → is_name name ≡ true
    → any (λ x. x == 10 || x == 13) (ltrim (32 ∷ text)) ≡ false
    → lib.parse
        (c_str (build_user_send_msg_body lib s.self_id 0 name (ltrim (32 ∷ text)) s.password))
      ≡ some (send_msg_json s.self_id 0 name (ltrim (32 ∷ text)) s.password)
    → length (build_user_send_msg_body lib s.self_id 0 name (ltrim (32 ∷ text)) s.password)
      < u64_mod
    → ltb s.self_id u32_mod ≡ true
    → is_empty (c_str (ltrim (32 ∷ text))) ≡ false
    → is_empty (c_str s.password) ≡ false
    → (body : Bytes) × (on_user_input lib s (codes "direct_msg" ++ (32 ∷ (name ++ (32 ∷ text)))) ≡ (
      record s { last_cmd = Command.direct_msg_user },
      Action.request Channel.http (json_request Cmd.message_send body) ∷ [],
    ))
      × Reaches lib inflate pass_len now c s name (ltrim (32 ∷ text)) body rest
unfolding on_user_input on_command send_request is_word
direct_delivered lib inflate pass_len now c s name text rest usual hn line parsed short small hm
      hp =
    let whole : codes "direct_msg" ++ (32 ∷ ((name ++ []) ++ (32 ∷ text)))
        ≡ codes "direct_msg" ++ (32 ∷ (name ++ (32 ∷ text))) =
      ap (λ n. codes "direct_msg" ++ (32 ∷ (n ++ (32 ∷ text)))) (append-nil name) in
    let meant = ap parse (sym whole) ∙ parse_direct false name [] text hn refl refl line in
    let named : is_empty (c_str name) ≡ false = name_filled name hn in
    (
      build_user_send_msg_body lib s.self_id 0 name (ltrim (32 ∷ text)) s.password,
      rw (meant, on_user_input) (rw usual (rw (append-nil name) refl)),
      send_delivered lib inflate pass_len now c s name (ltrim (32 ∷ text)) rest parsed short small
          named hm hp,
    )

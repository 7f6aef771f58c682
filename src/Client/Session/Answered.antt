-- ===== src/Client/Session/Answered.antt =====
-- client/src/client.cpp: what the session makes of the answers of the server.
use o2chat.Prelude.{
  ℕ, ltb, Bool, true, false, List, [], ◌∷◌, map, codes, c_str, all, if◌then◌else◌, some, u64_mod,
  ◌≡◌, refl, ap,
}
use o2chat.Common.{Cmd}
use o2chat.Json.{External}
use o2chat.Db.{User}
use o2chat.Responses.{ApiMessage, ok_body_user, user_json, ok_body_messages, messages_json}
use o2chat.Http.Responses.{ok_reply}
use o2chat.Client.Bodies.{build_user_send_msg_body}
use o2chat.Client.Input.{Command}
use o2chat.Client.Answers.RoundTrip.{user_answered, messages_answered, shown}
use o2chat.Client.Session.{Session, Channel, Action, json_request}
use o2chat.Client.Session.Http.{
  on_http_read, on_http_idle_connect, on_answer, logged_in, show_messages, show_response,
}

-- What the console shows of messages of the server.
abbrev pub printed : List ApiMessage → List Action
printed msgs = map (λ m. show_response (shown m)) msgs

pub show_shown : (msgs : List ApiMessage) → map show_response (map shown msgs) ≡ printed msgs
show_shown [] = refl
show_shown (m ∷ msgs) = ap (λ l. show_response (shown m) ∷ l) (show_shown msgs)

-- The answer to a login: the session has the identifiers of the user, and the waiting connection, when
-- it is there, polls for that user from that user's last time on, with the password of the session.
pub login_answered :
    (lib : External) (now : ℕ) (user : User) (s : Session) (opened : Bool)
    → s.last_cmd ≡ Command.login
    → lib.parse (c_str (ok_body_user lib now user)) ≡ some (user_json now user)
    → ltb user.id u64_mod ≡ true
    → ltb user.self_chat_id u64_mod ≡ true
    → ltb user.heartbit u64_mod ≡ true
    → ltb now u64_mod ≡ true
    → let t = record s {
      self_id = user.id;
      self_chat_id = user.self_chat_id;
      heart_bit = user.heartbit;
    } in
      (on_http_read lib s opened false (ok_reply (ok_body_user lib now user))
        ≡ some (
          t,
          Action.show (codes "200 OK") ∷ (if opened then [] else Action.connect Channel.idle ∷ []),
        ))
      × (on_http_idle_connect lib t false ≡ (
        t,
        Action.request Channel.idle (
              json_request Cmd.idle
                (build_user_send_msg_body lib user.id user.heartbit [] [] s.password))
            ∷ [],
      ))
unfolding on_http_read on_answer logged_in on_http_idle_connect
login_answered lib now user s opened cmd parsed hi hc hb ht =
    (rw (cmd, on_http_read) (rw (user_answered lib now user parsed hi hc hb ht) refl), refl)

-- The answer to a history request: the messages of the answer are shown, all of them, in their order.
history_answered :
    (lib : External) (now : ℕ) (msgs : List ApiMessage) (s : Session) (opened : Bool)
    → s.last_cmd ≡ Command.history_user
    → lib.parse (c_str (ok_body_messages lib now msgs)) ≡ some (messages_json now msgs)
    → all (λ m. ltb m.ts u64_mod) msgs ≡ true
    → on_http_read lib s opened false (ok_reply (ok_body_messages lib now msgs))
      ≡ some (s, Action.show (codes "200 OK") ∷ printed msgs)
unfolding on_http_read on_answer show_messages
history_answered lib now msgs s opened cmd parsed small =
    rw (cmd, on_http_read)
      (rw (messages_answered lib now msgs parsed small) (rw (show_shown msgs) refl))

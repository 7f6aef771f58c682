-- ===== src/Tests/Clients.antt =====
-- client/src at small lines and answers.
use o2chat.Prelude.{Bool, true, false, List, [], ◌∷◌, ◌++◌, codes, some, ◌≡◌, refl, all}
use o2chat.Common.{Cmd}
use o2chat.Responses.{is_word, ok_body_user, user_json, ok_body_messages}
use o2chat.Text.Strings.{ltrim}
use o2chat.Http.Reply.{no_reply}
use o2chat.Http.Responses.{ok_reply}
use o2chat.Text.Decimal.{to_string}
use o2chat.Client.Bodies.{build_user_send_msg_body}
use o2chat.Client.Input.{Command, no_args, parse}
use o2chat.Client.Input.Lines.{Line, print, meaning, parse-print}
use o2chat.Client.Input.Direct.{parse_direct}
use o2chat.Client.Session.{Channel, Action, json_request}
use o2chat.Client.Session.Http.{Event, handle, handle_all, on_http_read, on_http_idle_connect}
use o2chat.Client.Session.Errors.{failure_keeps, is_quiet}
use o2chat.Client.Session.Answered.{login_answered}
use o2chat.Client.Session.Waiting.{idle_shows, arrived}
use o2chat.Tests.Parties.{knowing, session, alice, greeting, greetings}

parse-print_example :
    parse (print (Line.history_count (codes "bob") 5))
    ≡ meaning (Line.history_count (codes "bob") 5)
unfolding to_string
parse-print_example = parse-print (Line.history_count (codes "bob") 5) refl

parse_direct_example :
    parse (codes "direct_msg" ++ (32 ∷ ((codes "bob" ++ codes "-2") ++ (32 ∷ codes "hi"))))
    ≡ record no_args {
      cmd = Command.direct_msg_user;
      direct_name = codes "bob-2";
      direct_message = codes "-2 hi";
    }
unfolding ltrim is_word
parse_direct_example =
    parse_direct false (codes "bob") (codes "-2") (codes "hi") refl refl refl refl

failure_keeps_example :
    (idle_state : Bool) × (actions : List Action) × (handle
        (knowing (user_json 20 alice))
        session
        (Event.answered Channel.http false false no_reply)
      ≡ some (record session { idle_state = idle_state }, actions))
    × (all is_quiet actions ≡ true)
failure_keeps_example =
    failure_keeps (knowing (user_json 20 alice)) session
      (Event.answered Channel.http false false no_reply) refl

login_answered_example :
    let lib = knowing (user_json 20 alice) in
    let t = record session { last_cmd = Command.login; self_chat_id = 4; heart_bit = 17 } in
    (on_http_read lib
        (record session { last_cmd = Command.login })
        false
        false
        (ok_reply (ok_body_user lib 20 alice))
      ≡ some (t, Action.show (codes "200 OK") ∷ Action.connect Channel.idle ∷ []))
    × (on_http_idle_connect lib t false ≡ (
      t,
      Action.request Channel.idle
            (json_request Cmd.idle (build_user_send_msg_body lib 3 17 [] [] (codes "secret_1")))
          ∷ [],
    ))
unfolding ok_body_user
login_answered_example =
    login_answered (knowing (user_json 20 alice)) 20 alice
      (record session { last_cmd = Command.login }) false refl refl refl refl refl refl

idle_shows_example :
    handle_all greetings session (
      Event.answered Channel.idle true false (ok_reply (codes "{}"))
      ∷ arrived greetings true (20, greeting ∷ [])
      ∷ [])
    ≡ some (
      record session { idle_state = true },
      Action.read Channel.idle
          ∷ Action.show_message (codes "bob") (codes "alice") (codes "hi")
          ∷ Action.read Channel.idle
          ∷ [],
    )
unfolding ok_body_messages
idle_shows_example =
    idle_shows greetings session true (codes "{}") ((20, greeting ∷ []) ∷ []) refl
      ((refl, refl), tt)

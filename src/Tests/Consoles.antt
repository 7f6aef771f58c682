-- ===== src/Tests/Consoles.antt =====
-- client/src: a message from the console to the storage, and lines between answers.
use o2chat.Prelude.{
  true, false, List, [], ◌∷◌, ◌++◌, Bytes, codes, some, none, map, ◌≡◌, refl, arith, ◌=?◌,
}
use o2chat.Common.{Cmd}
use o2chat.Db.{User, Storage, empty_storage, Message, default_opt}
use o2chat.Db.Users.{lookup_user_by_id, lookup_user_by_name}
use o2chat.Db.Messages.{get_messages, save_message}
use o2chat.Worker.{process, new_message}
use o2chat.Worker.Tasks.{status_ok}
use o2chat.Http.Reading.{Outcome, async_response}
use o2chat.Text.Decimal.{encrypted_pass}
use o2chat.Client.Session.Typed.{posted, put_for, task_for}
use o2chat.Client.Session.Saved.{typed_saved}
use o2chat.Responses.{is_word, ok_body_messages}
use o2chat.Text.Number.{stoi}
use o2chat.Queue.{empty}
use o2chat.Client.Console.{UiEvent, server_option}
use o2chat.Client.Console.Order.{run_console, in_order, types, rounds, console_order}
use o2chat.Text.Strings.{trim, ltrim, split}
use o2chat.Http.Reply.{no_reply}
use o2chat.Http.Responses.{ok_reply}
use o2chat.Request.{no_params}
use o2chat.Client.Bodies.{build_user_send_msg_body, send_msg_json, build_user_history_msg_body}
use o2chat.Client.Input.{Command}
use o2chat.Client.Input.Lines.{Line, print}
use o2chat.Client.Session.{Channel, Action, json_request, on_user_input, is_chat_u}
use o2chat.Client.Session.Http.{Event, handle_all, show_status}
use o2chat.Client.Session.Overlap.{history_misread, refused_login}
use o2chat.Api.Connection.{ApiClient, request_from_client_read}
use o2chat.Tests.Parties.{knowing, session, server, alice, greeting, greetings}

history_misread_example :
    handle_all greetings session (
      Event.input (print (Line.history (codes "bob")))
      ∷ Event.input (print (Line.status (codes "eve")))
      ∷ Event.answered Channel.http true false
          (ok_reply (ok_body_messages greetings 20 (greeting ∷ [])))
      ∷ [])
    ≡ some (
      record session { last_cmd = Command.status_user },
      Action.request Channel.http (
            json_request Cmd.user_history
              (build_user_history_msg_body greetings 3 (codes "bob") 10 (codes "secret_1")))
          ∷ Action.request Channel.http (
              json_request Cmd.user_status
                (build_user_history_msg_body greetings 3 (codes "eve") 0 (codes "secret_1")))
          ∷ Action.show (codes "200 OK")
          ∷ show_status ([], record { uid = 0; chatid = 0; heartbit = 0; server_ts = 20 }),
    )
unfolding ok_body_messages is_chat_u
history_misread_example =
    history_misread greetings session true (codes "bob") (codes "eve") 20 (greeting ∷ []) refl refl
      refl refl refl

refused_login_example :
    (actions : List Action) × (handle_all greetings session (
        Event.input (print (Line.login (codes "eve") (codes "wrong_pw")))
        ∷ Event.answered Channel.http true false no_reply
        ∷ [])
      ≡ some (record session { last_cmd = Command.login; password = codes "wrong_pw" }, actions))
unfolding is_chat_u
refused_login_example =
    refused_login greetings session true (codes "eve") (codes "wrong_pw") no_reply refl refl refl

abbrev alice_row : User
alice_row = record alice { password = codes "8" }

abbrev bob_row : User
bob_row = record alice { id = 5; self_chat_id = 6; name = codes "bob" }

abbrev two_users : Storage
two_users = record empty_storage { users = alice_row ∷ bob_row ∷ [] }

typed_saved_example :
    let lib = knowing (send_msg_json 3 0 (codes "bob") (codes "hi") (codes "secret_1")) in
    let m = new_message 30 alice_row 6 (codes "hi") in
    let params = record no_params {
      uid = 3;
      message = codes "hi";
      to_user = codes "bob";
      password = codes "secret_1";
    } in
    (body : Bytes) × (c' : ApiClient) × (more : List Message) × (on_user_input lib session
        (codes "direct_msg bob hi")
      ≡ (
        record session { last_cmd = Command.direct_msg_user },
        Action.request Channel.http (json_request Cmd.message_send body) ∷ [],
      ))
    × (async_response some (json_request Cmd.message_send body ++ [])
        ≡ Outcome.received (posted Cmd.message_send body) [])
    × (request_from_client_read lib 8 20 server false (posted Cmd.message_send body)
        ≡ some (c', put_for server Cmd.message_send params ∷ []))
    × (process lib 30 (task_for server Cmd.message_send params) two_users
        ≡ (save_message two_users m, status_ok ∷ []))
    × ((get_messages (save_message two_users m) 6 default_opt).0 ≡ m ∷ more)
unfolding ltrim is_chat_u build_user_send_msg_body is_word lookup_user_by_id lookup_user_by_name
    encrypted_pass ◌=?◌
typed_saved_example =
    typed_saved (knowing (send_msg_json 3 0 (codes "bob") (codes "hi") (codes "secret_1"))) some 8
      20 30 server session (codes "bob") (codes "hi") [] two_users alice_row bob_row default_opt
      refl refl refl refl (omega arith) refl refl refl refl refl refl refl (omega arith)

console_order_example :
    let out =
      run_console greetings session empty
        (types (codes " STATUS bob") ∷ types (codes "  ") ∷ rounds ∷ []) in
    (left : List Bytes) × (map (λ (e : UiEvent). e.msg) out.2.items ≡ left)
    × (in_order greetings session (codes "STATUS bob" ∷ [])
        ≡ ((in_order greetings out.0 left).0, out.1 ++ (in_order greetings out.0 left).1))
unfolding trim
console_order_example =
    console_order greetings session (types (codes " STATUS bob") ∷ types (codes "  ") ∷ rounds ∷ [])

test_server_option : server_option (codes "localhost:7788") ≡ some (codes "localhost", 7788)
unfolding server_option split stoi ltrim
test_server_option = refl

test_server_option_parts : server_option (codes "a:b:1") ≡ none
unfolding server_option split stoi ltrim
test_server_option_parts = refl

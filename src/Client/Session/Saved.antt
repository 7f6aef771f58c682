-- ===== src/Client/Session/Saved.antt =====
-- client/src/client.cpp, server/src/apiclient.cpp and server/src/database_worker.cpp: from a line of the
-- user to the chat of the receiver.
use o2chat.Prelude.{
  ℕ, ltb, ◌<◌, true, false, List, [], ◌∷◌, ◌++◌, Bytes, codes, c_str, is_empty, any, ◌==◌, ◌||◌,
  ◌=?◌, Option, some, length, u32_mod, u64_mod, ◌≡◌, refl,
}
use o2chat.Common.{Cmd}
use o2chat.Json.{External}
use o2chat.Text.Strings.{ltrim}
use o2chat.Text.Decimal.{encrypted_pass}
use o2chat.Db.{User, Message, Storage, GetMsgOpt}
use o2chat.Db.Users.{lookup_user_by_name, lookup_user_by_id}
use o2chat.Db.Messages.{get_messages, save_message}
use o2chat.Worker.Tasks.{status_ok}
use o2chat.Worker.Sent.{sent_lem, saved_first}
use o2chat.Worker.{process, new_message}
use o2chat.Http.Reading.{Outcome, async_response}
use o2chat.Api.Connection.{ApiClient, request_from_client_read}
use o2chat.Client.Bodies.{build_user_send_msg_body, send_msg_json}
use o2chat.Client.Input.{Command}
use o2chat.Client.Input.Words.{is_name}
use o2chat.Client.Session.{Session, Channel, Action, json_request, on_user_input, is_chat_u}
use o2chat.Client.Session.Typed.{posted, put_for, task_for}
use o2chat.Client.Session.Delivered.{direct_delivered}

-- A typed `direct_msg` with a name of word characters and a message of one line, outside a chat, by a user
-- whose password has the digest that is stored, to a name that one user has: the request that the client
-- writes is read whole by the server and becomes one task; a worker that runs it saves the message and
-- answers with success; and the message is the first of the next answer to the receiver's chat, for every
-- reader that asks with an earlier time.
pub typed_saved :
    (lib : External) (inflate : Bytes → Option Bytes) (pass_len now later : ℕ) (c : ApiClient)
    (s : Session) (name text rest : Bytes) (st : Storage) (u to : User) (opt : GetMsgOpt)
    → is_chat_u s.mode ≡ false
    → is_name name ≡ true
    → any (λ x. x == 10 || x == 13) (ltrim (32 ∷ text)) ≡ false
    → lib.parse
        (c_str (build_user_send_msg_body lib s.self_id 0 name (ltrim (32 ∷ text)) s.password))
      ≡ some (send_msg_json s.self_id 0 name (ltrim (32 ∷ text)) s.password)
    → length (build_user_send_msg_body lib s.self_id 0 name (ltrim (32 ∷ text)) s.password)
      < u64_mod
    → ltb s.self_id u32_mod ≡ true
    → is_empty (c_str (ltrim (32 ∷ text))) ≡ false
    → is_empty (c_str s.password) ≡ false
    → lookup_user_by_id st s.self_id ≡ u
    → (u.id == 0) ≡ false
    → (encrypted_pass lib (c_str s.password) =? u.password) ≡ true
    → lookup_user_by_name st (c_str name) ≡ to ∷ []
    → opt.ts < later
    → let m = new_message later u to.self_chat_id (c_str (ltrim (32 ∷ text))) in
      let params = record c.request_details.params {
        uid = s.self_id;
        message = c_str (ltrim (32 ∷ text));
        to_user = c_str name;
        password = c_str s.password;
      } in
      (body : Bytes) × (c' : ApiClient) × (more : List Message) × (on_user_input lib s
          (codes "direct_msg" ++ (32 ∷ (name ++ (32 ∷ text))))
        ≡ (
          record s { last_cmd = Command.direct_msg_user },
          Action.request Channel.http (json_request Cmd.message_send body) ∷ [],
        ))
      × (async_response inflate (json_request Cmd.message_send body ++ rest)
          ≡ Outcome.received (posted Cmd.message_send body) rest)
      × (request_from_client_read lib pass_len now c false (posted Cmd.message_send body)
          ≡ some (c', put_for c Cmd.message_send params ∷ []))
      × (process lib later (task_for c Cmd.message_send params) st
          ≡ (save_message st m, status_ok ∷ []))
      × ((get_messages (save_message st m) to.self_chat_id opt).0 ≡ m ∷ more)
typed_saved lib inflate pass_len now later c s name text rest st u to opt usual hn line parsed short
      small hm hp row positive same receiver early =
    let (body, sends, (reads, (c', puts))) =
      direct_delivered lib inflate pass_len now c s name text rest usual hn line parsed short small
        hm hp in
    let m = new_message later u to.self_chat_id (c_str (ltrim (32 ∷ text))) in
    let params = record c.request_details.params {
      uid = s.self_id;
      message = c_str (ltrim (32 ∷ text));
      to_user = c_str name;
      password = c_str s.password;
    } in
    let (more, first) = saved_first st m opt early in
    (
      body,
      c',
      more,
      sends,
      reads,
      puts,
      sent_lem lib later (task_for c Cmd.message_send params) st u to refl row positive same
          receiver,
      first,
    )

-- ===== src/Worker/Program.antt =====
-- server/src/database_worker.cpp: a branch of `processQueue` as the calls that it makes on the storage, one
-- after the other. The workers share the storage, each call holds its mutex, and between two calls of one
-- worker the others may make theirs.
pub mod Alone
pub mod Safe
pub mod Acked
use o2chat.Prelude.{
  ℕ, Bool, true, false, List, [], ◌∷◌, ◌++◌, map, Bytes, codes, ◌==◌, if◌then◌else◌, select,
}
use o2chat.Common.{Cmd, ApiStatusCode}
use o2chat.Json.{External}
use o2chat.Responses.{ApiMessage, ok_body_user, ok_body_chat}
use o2chat.Text.Decimal.{encrypted_pass}
use o2chat.Db.{User, Chat, Message, Storage, default_opt}
use o2chat.Db.Users.{create_user, lookup_user_by_name, lookup_user_by_id}
use o2chat.Db.Chats.{create_chat, lookup_chat_by_name, lookup_chat_by_id}
use o2chat.Db.Messages.{get_messages, select_messages}
use o2chat.Db.Invariant.Preserved.{Op, apply}
use o2chat.Worker.Tasks.{
  Task, Reply, err_ambiguous, err_no_chat, status_ok, lookup_check_pass, lookup_check_pass_by_name,
}
use o2chat.Worker.Format.{mix_from_and_to_messages}
use o2chat.Worker.{add_batch, is_sent, history_opt, new_message}

-- What is left of a branch: its replies, or a call of the storage. What follows a call has what the call
-- gives, computed from the storage in front of it, and what `time(NULL)` gives behind it.
pub data Program : Type 0 where
  finished : List Reply → Program
  looks : (ℕ → Storage → Program) → Program
  changes : Op → (ℕ → Storage → Program) → Program

module _ (lib : External) (task : Task) where
  -- The guard of most branches.
  unfoldable pub check_pass : (ℕ → User → Program) → Program
  check_pass branch = Program.looks (λ now s.
      let checked = lookup_check_pass lib task s in
      if checked.0.id == 0 then Program.finished checked.1 else branch now checked.0)

  unfoldable pub check_name : Bytes → Bool → (ℕ → User → Program) → Program
  check_name name check branch = Program.looks (λ now s.
      let found = lookup_check_pass_by_name lib name task s check in
      if found.0.id == 0 then Program.finished found.1 else branch now found.0)

-- `lookupChatsForUserId`: the links under one lock, then a call for each row.
unfoldable pub chat_rows : List ℕ → (List Chat → Program) → Program
chat_rows [] next = next []
chat_rows (chatid ∷ chats) next =
    Program.looks (λ now s.
      let chat = lookup_chat_by_id s chatid in chat_rows chats (λ rest. next (chat ∷ rest)))

unfoldable pub chats_for_user : ℕ → (List Chat → Program) → Program
unfolding chat_rows
chats_for_user uid next =
    Program.looks
      (λ now s. chat_rows (map (λ l. l.chatid) (select (λ l. l.uid == uid) s.chatuser)) next)

-- `to_api_format`: two calls for each message.
unfoldable pub api_messages : List Message → (List ApiMessage → Program) → Program
api_messages [] next = next []
api_messages (msg ∷ msgs) next = Program.looks (λ now s. Program.looks (λ now' s'.
    let message : ApiMessage = record {
      ts = msg.ts;
      from = (lookup_user_by_id s' msg.user_from).name;
      to = (lookup_chat_by_id s msg.chat_to).name;
      msg = msg.message;
    } in
    api_messages msgs (λ rest. next (message ∷ rest))))

unfoldable pub api_batch : List (List Message) → (List ApiMessage → Program) → Program
unfolding api_messages
api_batch [] next = next []
api_batch (msgs ∷ batch) next =
    api_messages msgs (λ front. api_batch batch (λ rest. next (front ++ rest)))

-- The loop of the branch `IDLE`.
unfoldable pub fetch_chats : ℕ → List Chat → (List (List Message) → Program) → Program
unfolding add_batch
fetch_chats ts [] next = next []
fetch_chats ts (chat ∷ chats) next =
    Program.changes (Op.fetch chat.id (record default_opt { ts = ts })) (λ now s.
      let msgs = (get_messages s chat.id (record default_opt { ts = ts })).0 in
      fetch_chats ts chats (λ rest. next (add_batch msgs rest)))

unfoldable pub poll_end : Task → List (List Message) → Program
unfolding api_batch
poll_end task [] = Program.finished (if task.ping then Reply.idle_messages [] ∷ [] else [])
poll_end task (msgs ∷ batch) =
    api_batch (msgs ∷ batch) (λ all. Program.finished (Reply.idle_messages all ∷ []))

-- The branches behind their guards.
unfoldable pub poll_program : Task → ℕ → User → Program
unfolding chats_for_user fetch_chats poll_end
poll_program task now user =
    Program.changes (Op.heart_bit user now) (λ now' s.
      chats_for_user user.id (λ chats. fetch_chats task.request.ts chats (poll_end task)))

unfoldable pub status_program : External → ℕ → User → Program
status_program lib now user = Program.finished (Reply.ok (ok_body_user lib now user) ∷ [])

unfoldable pub history_program : Task → User → User → Program
unfolding api_messages
history_program task from to = Program.looks (λ now s.
    let msgs_to = select_messages s (is_sent from to) (history_opt task.request.count) in
    Program.looks (λ now' s'.
      let msgs_from = select_messages s' (is_sent to from) (history_opt task.request.count) in
      api_messages (mix_from_and_to_messages msgs_from msgs_to task.request.count)
        (λ all. Program.finished (Reply.messages all ∷ []))))

unfoldable pub save_program : Message → Program
save_program msg = Program.changes (Op.save msg) (λ now s. Program.finished (status_ok ∷ []))

send_to_program : Task → User → ℕ → List User → Program
unfolding save_program
send_to_program task user now [] =
    Program.finished
      (Reply.error 404 ApiStatusCode.err_not_found (codes "user to does not exist") ∷ [])
send_to_program task user now (to ∷ []) =
    save_program (new_message now user to.self_chat_id task.request.message)
send_to_program task user now (to ∷ other ∷ rest) = Program.finished (err_ambiguous ∷ [])

unfoldable pub send_program : Task → User → Program
unfolding send_to_program
send_program task user =
    Program.looks
      (λ now s. send_to_program task user now (lookup_user_by_name s task.request.to_user))

send_chat_to_program : Task → User → ℕ → List Chat → Program
unfolding save_program
send_chat_to_program task user now [] = Program.finished (err_no_chat ∷ [])
send_chat_to_program task user now (chat ∷ []) =
    save_program (new_message now user chat.id task.request.message)
send_chat_to_program task user now (chat ∷ other ∷ rest) = Program.finished (err_no_chat ∷ [])

unfoldable pub send_chat_program : Task → User → Program
unfolding send_chat_to_program
send_chat_program task user =
    Program.looks
      (λ now s. send_chat_to_program task user now (lookup_chat_by_name s task.request.chat_name))

add_to_program : User → List Chat → Program
add_to_program to_add [] = Program.finished (err_no_chat ∷ [])
add_to_program to_add (chat ∷ []) =
    Program.changes (Op.add_user chat to_add) (λ now s. Program.finished (status_ok ∷ []))
add_to_program to_add (chat ∷ other ∷ rest) = Program.finished (err_no_chat ∷ [])

unfoldable pub add_program : Task → User → Program
unfolding add_to_program
add_program task to_add =
    Program.looks (λ now s. add_to_program to_add (lookup_chat_by_name s task.request.chat_name))

module _ (lib : External) (task : Task) where
  unfoldable pub create_program : Program
  create_program =
      let digest = encrypted_pass lib task.request.password in
      Program.changes (Op.new_user task.request.user digest task.storage) (λ now s.
        let user = (create_user s task.request.user digest task.storage).0 in
        Program.finished (
          if user.id == 0
          then Reply.error 409 ApiStatusCode.err_constraint (codes "user already exists") ∷ []
          else Reply.ok (ok_body_user lib now user) ∷ []))

  unfoldable pub create_chat_program : Program
  create_chat_program =
      Program.changes (Op.new_chat task.request.chat_name task.request.uid) (λ now s.
        let chat = (create_chat s task.request.chat_name task.request.uid).0 in
        Program.finished (
          if chat.id == 0
          then Reply.error 409 ApiStatusCode.err_constraint (codes "chat already exists") ∷ []
          else Reply.ok (ok_body_chat lib now chat) ∷ []))

  -- The body of the loop of `processQueue` on one task.
  unfoldable pub cmd_program : Cmd → Program
  unfolding check_pass check_name poll_program status_program history_program send_program
      send_chat_program add_program create_program create_chat_program
  cmd_program Cmd.idle = check_pass lib task (λ now user. poll_program task now user)
  cmd_program Cmd.user_status =
      check_pass lib task (λ _ user.
        check_name lib task task.request.user false (λ now to. status_program lib now to))
  cmd_program Cmd.user_history = check_pass lib task (λ _ from.
      check_name lib task task.request.user false (λ now to. history_program task from to))
  cmd_program Cmd.message_send = check_pass lib task (λ now user. send_program task user)
  cmd_program Cmd.user_create = create_program
  cmd_program Cmd.user_login =
      check_name lib task task.request.user true (λ now user. status_program lib now user)
  cmd_program Cmd.chat_create = check_pass lib task (λ now user. create_chat_program)
  cmd_program Cmd.chat_adduser = check_pass lib task (λ _ user.
      check_name lib task task.request.chat_adduser false (λ now to. add_program task to))
  cmd_program Cmd.message_send_chat = check_pass lib task (λ now user. send_chat_program task user)
  cmd_program Cmd.chat_history = Program.finished []
  cmd_program Cmd.chat_status = Program.finished []
  cmd_program Cmd.message_recent = Program.finished []
  cmd_program Cmd.cmd_last = Program.finished []

-- One call, or nothing behind the last.
unfoldable pub advance : ℕ → Program → Storage → Program × Storage
unfolding apply
advance now (Program.finished replies) s = (Program.finished replies, s)
advance now (Program.looks next) s = (next now s, s)
advance now (Program.changes op next) s = (next now s, apply s op)

-- All calls of a branch, with no other worker between them and at one time.
unfoldable pub run_alone : ℕ → Program → Storage → Storage × List Reply
unfolding apply
run_alone now (Program.finished replies) s = (s, replies)
run_alone now (Program.looks next) s = run_alone now (next now s) s
run_alone now (Program.changes op next) s = run_alone now (next now s) (apply s op)

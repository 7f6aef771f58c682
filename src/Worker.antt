-- ===== src/Worker.antt =====
-- server/src/database_worker.cpp: what a worker thread does with one task. A worker takes a task
-- from the queue and runs one branch of `processQueue`; the calls that the branch makes on the
-- connection of the client are its replies. `now` is what `time(NULL)` gives in that branch.
pub mod Tasks
pub mod Program
pub mod Pool
pub mod Sent
pub mod Auth
pub mod Refusal
pub mod Replies
pub mod Codes
pub mod Keeps
pub mod Accounts
pub mod Shadow
pub mod Format
pub mod Polls
pub mod History
use o2chat.Prelude.{
  ℕ, ◌*◌, ◌%◌, ltb, leb, Bool, true, false, not, List, [], ◌∷◌, ◌++◌, map, Bytes, codes, ◌==◌, ◌=?◌,
  ◌&&◌, if◌then◌else◌, length, take, u32_mod, u64_mod,
}
use o2chat.Common.{Cmd, ApiStatusCode}
use o2chat.Json.{External}
use o2chat.Request.{Params}
use o2chat.Responses.{ApiMessage, ok_body_user, ok_body_chat}
use o2chat.Text.Decimal.{encrypted_pass}
use o2chat.Db.{User, no_user, Chat, Message, Flags, GetMsgOpt, default_opt, Storage}
use o2chat.Db.Users.{update_user_heart_bit, create_user, lookup_user_by_name, lookup_user_by_id}
use o2chat.Db.Chats.{
  create_chat, lookup_chats_for_user_id, lookup_chat_by_name, lookup_chat_by_id, add_user_to_chat,
}
use o2chat.Db.Messages.{save_message, get_messages, select_messages}
use Tasks.{
  Task, Reply, err_no_user, err_password, err_unknown_name, err_ambiguous, err_no_chat, status_ok,
  lookup_check_pass, lookup_check_pass_by_name,
}
use Format.{to_api_format, to_api_format_batch, mix_from_and_to_messages}

-- `if (!msgs.empty()) msgs_batch.emplace_back(msgs)`
add_batch : List Message → List (List Message) → List (List Message)
add_batch [] batch = batch
add_batch (m ∷ ms) batch = (m ∷ ms) ∷ batch

-- The loop of the branch `IDLE` over the chats of the user.
pub poll_chats : ℕ → List Chat → Storage → List (List Message) × Storage
unfolding add_batch
poll_chats ts [] s = ([], s)
poll_chats ts (chat ∷ chats) s =
    let fetched = get_messages s chat.id (record default_opt { ts = ts }) in
    let rest = poll_chats ts chats fetched.1 in (add_batch fetched.0 rest.0, rest.1)

idle_replies : Task → Storage → List (List Message) → List Reply
idle_replies task s [] = if task.ping then Reply.idle_messages [] ∷ [] else []
idle_replies task s (msgs ∷ batch) = Reply.idle_messages (to_api_format_batch s (msgs ∷ batch)) ∷ []

-- The branch `IDLE` behind the password.
pub poll : ℕ → Task → User → Storage → Storage × List Reply
unfolding poll_chats idle_replies
poll now task user s =
    let s' = update_user_heart_bit s user now in
    let polled = poll_chats task.request.ts (lookup_chats_for_user_id s' user.id) s' in
    (polled.1, idle_replies task polled.1 polled.0)

-- The branch `USER_STATUS` behind the password.
pub user_status : External → ℕ → Task → User → Storage → Storage × List Reply
user_status lib now task user s =
    let found = lookup_check_pass_by_name lib task.request.user task s false in
    if found.0.id == 0 then (s, found.1) else (s, Reply.ok (ok_body_user lib now found.0) ∷ [])

-- The two predicates of the branch `USER_HISTORY`.
abbrev pub is_sent : User → User → Message → Bool
is_sent from to msg = msg.user_from == from.id && msg.chat_to == to.self_chat_id

-- `opt.max_count = task.request.count * 2`, from 64 bits to 32.
abbrev pub history_opt : ℕ → GetMsgOpt
history_opt count = record default_opt { max_count = count * 2 % u64_mod % u32_mod }

-- The messages between two users that the branch `USER_HISTORY` answers with.
pub history : Storage → User → User → ℕ → List Message
history s user_from user_to count =
    mix_from_and_to_messages (select_messages s (is_sent user_to user_from) (history_opt count))
      (select_messages s (is_sent user_from user_to) (history_opt count)) count

-- The branch `USER_HISTORY` behind the password.
pub user_history : External → Task → User → Storage → Storage × List Reply
user_history lib task user_from s =
    let found = lookup_check_pass_by_name lib task.request.user task s false in
    if found.0.id == 0
    then (s, found.1)
    else (s, Reply.messages (to_api_format s (history s user_from found.0 task.request.count)) ∷ [])

-- A message as the two branches that send store it.
abbrev pub new_message : ℕ → User → ℕ → Bytes → Message
new_message now user chat_to text = record {
  flags = Flags.unread;
  user_from = user.id;
  chat_to = chat_to;
  ts = now;
  message = text;
}

message_send_to : ℕ → Task → User → Storage → List User → Storage × List Reply
message_send_to now task user s [] =
    (s, Reply.error 404 ApiStatusCode.err_not_found (codes "user to does not exist") ∷ [])
message_send_to now task user s (user_to ∷ []) = (
  save_message s (new_message now user user_to.self_chat_id task.request.message),
  status_ok ∷ [],
)
message_send_to now task user s (user_to ∷ other ∷ rest) = (s, err_ambiguous ∷ [])

-- The branch `MESSAGE_SEND` behind the password.
pub message_send : ℕ → Task → User → Storage → Storage × List Reply
unfolding message_send_to
message_send now task user s =
    message_send_to now task user s (lookup_user_by_name s task.request.to_user)

-- The branch `USER_CREATE`.
unfoldable pub user_create : External → ℕ → Task → Storage → Storage × List Reply
user_create lib now task s =
    let created =
      create_user s task.request.user (encrypted_pass lib task.request.password) task.storage in
    if created.0.id == 0
    then (
      created.1,
      Reply.error 409 ApiStatusCode.err_constraint (codes "user already exists") ∷ [],
    )
    else (created.1, Reply.ok (ok_body_user lib now created.0) ∷ [])

-- The branch `USER_LOGIN`.
pub user_login : External → ℕ → Task → Storage → Storage × List Reply
user_login lib now task s =
    let found = lookup_check_pass_by_name lib task.request.user task s true in
    if found.0.id == 0 then (s, found.1) else (s, Reply.ok (ok_body_user lib now found.0) ∷ [])

-- The branch `CHAT_CREATE` behind the password.
pub chat_create : External → ℕ → Task → Storage → Storage × List Reply
chat_create lib now task s =
    let created = create_chat s task.request.chat_name task.request.uid in
    if created.0.id == 0
    then (
      created.1,
      Reply.error 409 ApiStatusCode.err_constraint (codes "chat already exists") ∷ [],
    )
    else (created.1, Reply.ok (ok_body_chat lib now created.0) ∷ [])

chat_adduser_to : User → Storage → List Chat → Storage × List Reply
chat_adduser_to to_add s [] = (s, err_no_chat ∷ [])
chat_adduser_to to_add s (chat ∷ []) = (add_user_to_chat s chat to_add, status_ok ∷ [])
chat_adduser_to to_add s (chat ∷ other ∷ rest) = (s, err_no_chat ∷ [])

-- The branch `CHAT_ADDUSER` behind the password.
pub chat_adduser : External → Task → Storage → Storage × List Reply
unfolding chat_adduser_to
chat_adduser lib task s =
    let found = lookup_check_pass_by_name lib task.request.chat_adduser task s false in
    if found.0.id == 0
    then (s, found.1)
    else chat_adduser_to found.0 s (lookup_chat_by_name s task.request.chat_name)

message_send_chat_to : ℕ → Task → User → Storage → List Chat → Storage × List Reply
message_send_chat_to now task user s [] = (s, err_no_chat ∷ [])
message_send_chat_to now task user s (chat ∷ []) =
    (save_message s (new_message now user chat.id task.request.message), status_ok ∷ [])
message_send_chat_to now task user s (chat ∷ other ∷ rest) = (s, err_no_chat ∷ [])

-- The branch `MESSAGE_SEND_CHAT` behind the password.
pub message_send_chat : ℕ → Task → User → Storage → Storage × List Reply
unfolding message_send_chat_to
message_send_chat now task user s =
    message_send_chat_to now task user s (lookup_chat_by_name s task.request.chat_name)

-- The guard that most branches begin with: the password of the user with the identifier `uid`.
pub with_user : External → Task → Storage → (User → Storage × List Reply) → Storage × List Reply
with_user lib task s branch =
    let checked = lookup_check_pass lib task s in
    if checked.0.id == 0 then (s, checked.1) else branch checked.0

-- The body of the loop of `processQueue` on one task. There is no branch for the last four.
unfoldable pub process_task : External → ℕ → Cmd → Task → Storage → Storage × List Reply
process_task lib now Cmd.idle task s = with_user lib task s (λ user. poll now task user s)
process_task lib now Cmd.user_status task s =
    with_user lib task s (λ user. user_status lib now task user s)
process_task lib now Cmd.user_history task s =
    with_user lib task s (λ user. user_history lib task user s)
process_task lib now Cmd.message_send task s =
    with_user lib task s (λ user. message_send now task user s)
process_task lib now Cmd.user_create task s = user_create lib now task s
process_task lib now Cmd.user_login task s = user_login lib now task s
process_task lib now Cmd.chat_create task s =
    with_user lib task s (λ user. chat_create lib now task s)
process_task lib now Cmd.chat_adduser task s =
    with_user lib task s (λ user. chat_adduser lib task s)
process_task lib now Cmd.message_send_chat task s =
    with_user lib task s (λ user. message_send_chat now task user s)
process_task lib now Cmd.chat_history task s = (s, [])
process_task lib now Cmd.chat_status task s = (s, [])
process_task lib now Cmd.message_recent task s = (s, [])
process_task lib now Cmd.cmd_last task s = (s, [])

unfoldable pub process : External → ℕ → Task → Storage → Storage × List Reply
unfolding process_task with_user
process lib now task s = process_task lib now task.cmd task s

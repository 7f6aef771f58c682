-- ===== src/Worker/Codes.antt =====
-- server/src/database_worker.cpp: the codes of the errors that the branches of `processQueue` send.
use o2chat.Prelude.{
  ℕ, Bool, true, false, not, ◌&&◌, List, [], ◌∷◌, Bytes, ◌==◌, ◌=?◌, ◌≡◌, refl, arith, all, inl,
  inr, Bool-cases, if◌then◌else◌,
}
use o2chat.Common.{Cmd}
use o2chat.Json.{External}
use o2chat.Db.{User, Chat, Message, Storage}
use o2chat.Text.Decimal.{encrypted_pass}
use o2chat.Http.Errors.{is_error_code}
use o2chat.Db.Users.{lookup_user_by_name, lookup_user_by_id}
use o2chat.Db.Chats.{lookup_chat_by_name}
use o2chat.Worker.Tasks.{Task, Reply, lookup_check_pass, check_found, lookup_check_pass_by_name}
use o2chat.Responses.{ok_body_user}
use o2chat.Worker.Format.{to_api_format}
use o2chat.Worker.{
  history, with_user, process, process_task, poll, idle_replies, user_status, user_history,
  message_send, message_send_to, message_send_chat, message_send_chat_to, user_create, user_login,
  chat_create, chat_adduser, chat_adduser_to,
}

-- An error has a code that the texts of the responses know.
abbrev pub is_coded : Reply → Bool
is_coded (Reply.error code api_code desc) = is_error_code code
is_coded _ = true

abbrev AreCoded : List Reply → Type 0
AreCoded rs = all is_coded rs ≡ true

check_found-AreCoded :
    (lib : External) (us : List User) (task : Task) (check_pass : Bool)
    → AreCoded (check_found lib us task check_pass).1
unfolding check_found
check_found-AreCoded lib [] task check_pass = refl
check_found-AreCoded lib (user ∷ []) task check_pass =
    elim (Bool-cases
      (check_pass && not (encrypted_pass lib task.request.password =? user.password))) [
        | inl e ↦ rw e refl
        | inr e ↦ rw e refl
      ]
check_found-AreCoded lib (_ ∷ _ ∷ _) task check_pass = refl

lookup_check_pass-AreCoded :
    (lib : External) (task : Task) (s : Storage) → AreCoded (lookup_check_pass lib task s).1
unfolding lookup_check_pass
lookup_check_pass-AreCoded lib task s =
    let user = lookup_user_by_id s task.request.uid in
    elim (Bool-cases (user.id == 0)) [
      | inl e ↦ rw e refl
      | inr e ↦ elim (Bool-cases (encrypted_pass lib task.request.password =? user.password)) [
        | inl f ↦ rw e (rw f refl)
        | inr f ↦ rw e (rw f refl)
      ]
    ]

idle_replies-AreCoded :
    (task : Task) (s : Storage) (batch : List (List Message)) → AreCoded (idle_replies task s batch)
unfolding idle_replies
idle_replies-AreCoded task s [] = elim (Bool-cases task.ping) [
  | inl e ↦ rw e refl
  | inr e ↦ rw e refl
]
idle_replies-AreCoded task s (_ ∷ _) = refl

message_send_to-AreCoded :
    (now : ℕ) (task : Task) (u : User) (s : Storage) (us : List User)
    → AreCoded (message_send_to now task u s us).1
unfolding message_send_to
message_send_to-AreCoded now task u s [] = refl
message_send_to-AreCoded now task u s (_ ∷ []) = refl
message_send_to-AreCoded now task u s (_ ∷ _ ∷ _) = refl

message_send_chat_to-AreCoded :
    (now : ℕ) (task : Task) (u : User) (s : Storage) (cs : List Chat)
    → AreCoded (message_send_chat_to now task u s cs).1
unfolding message_send_chat_to
message_send_chat_to-AreCoded now task u s [] = refl
message_send_chat_to-AreCoded now task u s (_ ∷ []) = refl
message_send_chat_to-AreCoded now task u s (_ ∷ _ ∷ _) = refl

chat_adduser_to-AreCoded :
    (u : User) (s : Storage) (cs : List Chat) → AreCoded (chat_adduser_to u s cs).1
unfolding chat_adduser_to
chat_adduser_to-AreCoded u s [] = refl
chat_adduser_to-AreCoded u s (_ ∷ []) = refl
chat_adduser_to-AreCoded u s (_ ∷ _ ∷ _) = refl

-- The replies behind a test.
tested :
    (test : Bool) (a b : Storage × List Reply)
    → AreCoded a.1
    → AreCoded b.1
    → AreCoded (if test then a else b).1
tested true a b at_a at_b = at_a
tested false a b at_a at_b = at_b

module _ (lib : External) (now : ℕ) (task : Task) (s : Storage) where
  found-AreCoded :
      (name : Bytes) (check_pass : Bool)
      → AreCoded (lookup_check_pass_by_name lib name task s check_pass).1
  unfolding lookup_check_pass_by_name
  found-AreCoded name check_pass =
      check_found-AreCoded lib (lookup_user_by_name s name) task check_pass

  with_user-AreCoded :
      (branch : User → Storage × List Reply)
      → ((u : User) → AreCoded (branch u).1)
      → AreCoded (with_user lib task s branch).1
  unfolding with_user
  with_user-AreCoded branch h =
      let checked = lookup_check_pass lib task s in
      tested (checked.0.id == 0) (s, checked.1) (branch checked.0)
        (lookup_check_pass-AreCoded lib task s) (h checked.0)

  -- A branch behind the look-up of a name.
  named-AreCoded :
      (name : Bytes) (check_pass : Bool) (branch : User → Storage × List Reply)
      → ((u : User) → AreCoded (branch u).1)
      → let found = lookup_check_pass_by_name lib name task s check_pass in
        AreCoded (if found.0.id == 0 then (s, found.1) else branch found.0).1
  named-AreCoded name check_pass branch h =
      let found = lookup_check_pass_by_name lib name task s check_pass in
      tested (found.0.id == 0) (s, found.1) (branch found.0) (found-AreCoded name check_pass)
        (h found.0)

  task-AreCoded : (cmd : Cmd) → AreCoded (process_task lib now cmd task s).1
  unfolding process_task message_send message_send_chat poll user_status user_history user_login
      chat_adduser user_create chat_create
  task-AreCoded Cmd.idle = with_user-AreCoded _ (λ u. idle_replies-AreCoded task _ _)
  task-AreCoded Cmd.user_status = with_user-AreCoded _ (λ u.
      named-AreCoded task.request.user false (λ w. (s, Reply.ok (ok_body_user lib now w) ∷ []))
        (λ w. refl))
  task-AreCoded Cmd.user_history = with_user-AreCoded _ (λ u.
      named-AreCoded task.request.user false
        (λ w. (s, Reply.messages (to_api_format s (history s u w task.request.count)) ∷ []))
        (λ w. refl))
  task-AreCoded Cmd.message_send =
      with_user-AreCoded _ (λ u. message_send_to-AreCoded now task u s _)
  task-AreCoded Cmd.message_send_chat =
      with_user-AreCoded _ (λ u. message_send_chat_to-AreCoded now task u s _)
  task-AreCoded Cmd.chat_create = with_user-AreCoded _ (λ u. ground arith)
  task-AreCoded Cmd.chat_adduser = with_user-AreCoded _ (λ u.
      named-AreCoded task.request.chat_adduser false
        (λ w. chat_adduser_to w s (lookup_chat_by_name s task.request.chat_name))
        (λ w. chat_adduser_to-AreCoded w s (lookup_chat_by_name s task.request.chat_name)))
  task-AreCoded Cmd.user_create = ground arith
  task-AreCoded Cmd.user_login =
      named-AreCoded task.request.user true (λ w. (s, Reply.ok (ok_body_user lib now w) ∷ []))
        (λ w. refl)
  task-AreCoded Cmd.chat_history = refl
  task-AreCoded Cmd.chat_status = refl
  task-AreCoded Cmd.message_recent = refl
  task-AreCoded Cmd.cmd_last = refl

pub process-AreCoded :
    (lib : External) (now : ℕ) (task : Task) (s : Storage) → AreCoded (process lib now task s).1
unfolding process
process-AreCoded lib now task s = task-AreCoded lib now task s task.cmd

-- ===== src/Worker/Replies.antt =====
-- How often `processQueue` of server/src/database_worker.cpp answers, and that it keeps the storage
-- in order.
use o2chat.Prelude.{ℕ, ◌<◌, ◌≤◌, true, false, List, [], ◌∷◌, ◌≡◌, refl, arith, ◌==◌, length}
use o2chat.Common.{Cmd}
use o2chat.Json.{External}
use o2chat.Db.{User, Chat, Message, Storage}
use o2chat.Db.Chats.{lookup_chat_by_name}
use o2chat.Db.Invariant.{IsValid}
use o2chat.Worker.Tasks.{Task, Reply}
use o2chat.Worker.Auth.{with_user_cases, CheckedName, checked_name}
use o2chat.Worker.{
  with_user, process, process_task, poll, idle_replies, user_status, user_history, message_send,
  message_send_to, message_send_chat, message_send_chat_to, user_create, user_login, chat_create,
  chat_adduser, chat_adduser_to,
}

-- How many replies a command gets: exactly one, at most one, or none.
pub data Answers : Type 0 where
  one at_most_one never : Answers

abbrev pub answers : Cmd → Answers
answers Cmd.idle = Answers.at_most_one
answers Cmd.chat_history = Answers.never
answers Cmd.chat_status = Answers.never
answers Cmd.message_recent = Answers.never
answers Cmd.cmd_last = Answers.never
answers _ = Answers.one

abbrev pub Answered : Answers → List Reply → Type 0
Answered Answers.one rs = length rs ≡ 1
Answered Answers.at_most_one rs = length rs ≤ 1
Answered Answers.never rs = rs ≡ []

pub found_nonzero : (u : User) → 0 < u.id → (u.id == 0) ≡ false
found_nonzero u h = ground arith

message_send_to_one :
    (now : ℕ) (task : Task) (u : User) (s : Storage) (us : List User)
    → length (message_send_to now task u s us).1 ≡ 1
unfolding message_send_to
message_send_to_one now task u s [] = refl
message_send_to_one now task u s (_ ∷ []) = refl
message_send_to_one now task u s (_ ∷ _ ∷ _) = refl

message_send_chat_to_one :
    (now : ℕ) (task : Task) (u : User) (s : Storage) (cs : List Chat)
    → length (message_send_chat_to now task u s cs).1 ≡ 1
unfolding message_send_chat_to
message_send_chat_to_one now task u s [] = refl
message_send_chat_to_one now task u s (_ ∷ []) = refl
message_send_chat_to_one now task u s (_ ∷ _ ∷ _) = refl

chat_adduser_to_one :
    (u : User) (s : Storage) (cs : List Chat) → length (chat_adduser_to u s cs).1 ≡ 1
unfolding chat_adduser_to
chat_adduser_to_one u s [] = refl
chat_adduser_to_one u s (_ ∷ []) = refl
chat_adduser_to_one u s (_ ∷ _ ∷ _) = refl

idle_replies_le :
    (task : Task) (s : Storage) (batch : List (List Message))
    → length (idle_replies task s batch) ≤ 1
unfolding idle_replies
idle_replies_le task s [] = ground arith
idle_replies_le task s (_ ∷ _) = omega arith

module _ (lib : External) (now : ℕ) (task : Task) (s : Storage) (v : IsValid s) where
  user_status_one : (u : User) → length (user_status lib now task u s).1 ≡ 1
  unfolding user_status
  user_status_one u = elim (checked_name lib task.request.user task s false v) [
    | CheckedName.missing _ e ↦ rw (e, user_status)
    | CheckedName.refused _ _ _ _ e ↦ rw (e, user_status)
    | CheckedName.found w f _ e ↦ rw (e, user_status, found_nonzero w f.positive)
  ]

  user_history_one : (u : User) → length (user_history lib task u s).1 ≡ 1
  unfolding user_history
  user_history_one u = elim (checked_name lib task.request.user task s false v) [
    | CheckedName.missing _ e ↦ rw (e, user_history)
    | CheckedName.refused _ _ _ _ e ↦ rw (e, user_history)
    | CheckedName.found w f _ e ↦ rw (e, user_history, found_nonzero w f.positive)
  ]

  user_login_one : length (user_login lib now task s).1 ≡ 1
  unfolding user_login
  user_login_one = elim (checked_name lib task.request.user task s true v) [
    | CheckedName.missing _ e ↦ rw (e, user_login)
    | CheckedName.refused _ _ _ _ e ↦ rw (e, user_login)
    | CheckedName.found w f _ e ↦ rw (e, user_login, found_nonzero w f.positive)
  ]

  chat_adduser_one : length (chat_adduser lib task s).1 ≡ 1
  unfolding chat_adduser
  chat_adduser_one = elim (checked_name lib task.request.chat_adduser task s false v) [
    | CheckedName.missing _ e ↦ rw (e, chat_adduser)
    | CheckedName.refused _ _ _ _ e ↦ rw (e, chat_adduser)
    | CheckedName.found w f _ e ↦
        rw (e, chat_adduser, found_nonzero w f.positive)
          (chat_adduser_to_one w s (lookup_chat_by_name s task.request.chat_name))
  ]

  user_create_one : length (user_create lib now task s).1 ≡ 1
  unfolding user_create
  user_create_one = ground arith

  chat_create_one : length (chat_create lib now task s).1 ≡ 1
  unfolding chat_create
  chat_create_one = ground arith

  guarded_one :
      (branch : User → Storage × List Reply)
      → ((u : User) → length (branch u).1 ≡ 1)
      → length (with_user lib task s branch).1 ≡ 1
  guarded_one branch h =
      with_user_cases (λ r. length r.1 ≡ 1) lib task s branch v refl refl (λ u _. h u)

  answers_cmd : (cmd : Cmd) → Answered (answers cmd) (process_task lib now cmd task s).1
  unfolding process_task message_send message_send_chat poll
  answers_cmd Cmd.idle =
      with_user_cases (λ r. length r.1 ≤ 1) lib task s _ v (omega arith) (omega arith)
        (λ u _. idle_replies_le task _ _)
  answers_cmd Cmd.user_status = guarded_one _ user_status_one
  answers_cmd Cmd.user_history = guarded_one _ user_history_one
  answers_cmd Cmd.message_send = guarded_one _ (λ u. message_send_to_one now task u s _)
  answers_cmd Cmd.message_send_chat = guarded_one _ (λ u. message_send_chat_to_one now task u s _)
  answers_cmd Cmd.chat_create = guarded_one _ (λ u. chat_create_one)
  answers_cmd Cmd.chat_adduser = guarded_one _ (λ u. chat_adduser_one)
  answers_cmd Cmd.user_create = user_create_one
  answers_cmd Cmd.user_login = user_login_one
  answers_cmd Cmd.chat_history = refl
  answers_cmd Cmd.chat_status = refl
  answers_cmd Cmd.message_recent = refl
  answers_cmd Cmd.cmd_last = refl

-- Over a storage in order, a task gets exactly one reply, but for three kinds: a poll gets one or
-- none, and the commands without a branch (group history, chat status, recent messages) get none.
pub process-answers :
    (lib : External) (now : ℕ) (task : Task) (s : Storage)
    → IsValid s
    → Answered (answers task.cmd) (process lib now task s).1
unfolding process
process-answers lib now task s v = answers_cmd lib now task s v task.cmd

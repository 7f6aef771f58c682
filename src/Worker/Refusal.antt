-- ===== src/Worker/Refusal.antt =====
-- Tasks that the password check of server/src/database_worker.cpp turns away.
use o2chat.Prelude.{if◌then◌else◌, ◌⊎◌, ℕ, Bool, true, false, List, [], ◌∷◌, ◌≡◌, ◌≢◌, ap, inl, inr}
use o2chat.Common.{Cmd}
use o2chat.Json.{External}
use o2chat.Text.Decimal.{encrypted_pass}
use o2chat.Db.{User, Storage, has_user}
use o2chat.Db.Users.{lookup_user_by_id}
use o2chat.Db.Invariant.{IsValid}
use o2chat.Worker.Tasks.{Task, Reply, err_no_user, err_password}
use o2chat.Worker.{
  with_user, process, process_task, poll, user_status, user_history, message_send,
  message_send_chat, chat_create, chat_adduser,
}
use o2chat.Worker.Auth.{Checked, checked}

-- The commands that name the user by identifier and want the password.
abbrev pub needs_password : Cmd → Bool
needs_password Cmd.user_create = false
needs_password Cmd.user_login = false
needs_password Cmd.chat_history = false
needs_password Cmd.chat_status = false
needs_password Cmd.message_recent = false
needs_password Cmd.cmd_last = false
needs_password _ = true

-- The error that a refused task is answered with.
abbrev pub refusal : Task → Storage → Reply
refusal task s = if has_user s task.request.uid then err_password else err_no_user

-- Why a task is refused.
abbrev pub IsRefused : External → Task → Storage → Type 0
IsRefused lib task s =
    (has_user s task.request.uid ≡ false)
    ⊎ (encrypted_pass lib task.request.password ≢ (lookup_user_by_id s task.request.uid).password)

with_user_refused :
    (lib : External) (task : Task) (s : Storage) (branch : User → Storage × List Reply)
    → IsValid s
    → IsRefused lib task s
    → with_user lib task s branch ≡ (s, refusal task s ∷ [])
unfolding with_user
with_user_refused lib task s branch v why = elim (checked lib task s v) [
  | Checked.unknown absent e ↦ rw (e, with_user, absent)
  | Checked.refused there differs e ↦ rw (e, with_user, there)
  | Checked.accepted a e ↦ elim why [
    | inl absent ↦ cc (absent, a.is_stored, ap (has_user s) a.numbered)
    | inr differs ↦ absurd (differs a.secret)
  ]
]

module _ (lib : External) (now : ℕ) (task : Task) (s : Storage) where
  refuses :
      (cmd : Cmd)
      → IsValid s
      → needs_password cmd ≡ true
      → IsRefused lib task s
      → process_task lib now cmd task s ≡ (s, refusal task s ∷ [])
  unfolding process_task
  refuses Cmd.idle v g = with_user_refused lib task s (λ user. poll now task user s) v
  refuses Cmd.user_status v g =
      with_user_refused lib task s (λ user. user_status lib now task user s) v
  refuses Cmd.user_history v g =
      with_user_refused lib task s (λ user. user_history lib task user s) v
  refuses Cmd.message_send v g =
      with_user_refused lib task s (λ user. message_send now task user s) v
  refuses Cmd.message_send_chat v g =
      with_user_refused lib task s (λ user. message_send_chat now task user s) v
  refuses Cmd.chat_create v g = with_user_refused lib task s (λ user. chat_create lib now task s) v
  refuses Cmd.chat_adduser v g = with_user_refused lib task s (λ user. chat_adduser lib task s) v
  refuses Cmd.user_create v g = cc
  refuses Cmd.user_login v g = cc
  refuses Cmd.chat_history v g = cc
  refuses Cmd.chat_status v g = cc
  refuses Cmd.message_recent v g = cc
  refuses Cmd.cmd_last v g = cc

  -- A task that wants a password and names no stored user, or comes with a password of another
  -- digest than the stored one, leaves the whole storage as it is, and its one reply is the error
  -- 409 in the first case and the error 403 in the second.
  pub process_refuses :
      IsValid s
      → needs_password task.cmd ≡ true
      → IsRefused lib task s
      → process lib now task s ≡ (s, refusal task s ∷ [])
  unfolding process
  process_refuses v guarded why = refuses task.cmd v guarded why

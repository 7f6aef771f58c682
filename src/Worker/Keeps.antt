-- ===== src/Worker/Keeps.antt =====
-- A task keeps the storage in order, whatever its command: each branch of `processQueue` in
-- server/src/database_worker.cpp hands over only keys that it has looked up.
use o2chat.Prelude.{
  ℕ, ◌+◌, ◌<◌, Bool, true, false, List, [], ◌∷◌, ◌≡◌, inl, inr, arith, ◌==◌, Bool-cases, u64_mod,
  any, select, All, All-mono, ==_refl,
}
use o2chat.Common.{Cmd}
use o2chat.Json.{External}
use o2chat.Db.{User, Chat, Message, Storage, GetMsgOpt, default_opt, has_user, has_chat}
use o2chat.Db.Users.{create_user, update_user_heart_bit}
use o2chat.Db.Lookup.{lookup_user_by_name_once}
use o2chat.Text.Decimal.{encrypted_pass}
use o2chat.Worker.Replies.{found_nonzero}
use o2chat.Db.Chats.{create_chat, lookup_chat_by_name, lookup_chats_for_user_id}
use o2chat.Db.Messages.{save_message, get_messages}
use o2chat.Db.Invariant.{IsValid}
use o2chat.Db.Invariant.Preserved.{Op, apply, apply-IsValid}
use o2chat.Worker.Tasks.{Task, Reply}
use o2chat.Worker.Auth.{IsAccepted, with_user_cases, CheckedName, checked_name}
use o2chat.Worker.{
  with_user, process, process_task, poll, poll_chats, user_status, user_history, message_send,
  message_send_to, message_send_chat, message_send_chat_to, user_create, user_login, chat_create,
  chat_adduser, chat_adduser_to,
}

-- The counters of a storage are far from wrapping.
pub record HasRoom (s : Storage) : Type 0 where
  pub users_left : s.user_autoincrement + 1 < u64_mod
  pub chats_left : s.chat_autoincrement + 1 < u64_mod

fetch-IsValid :
    (s : Storage) (chatid : ℕ) (opt : GetMsgOpt) → IsValid s → IsValid (get_messages s chatid opt).1
unfolding apply
fetch-IsValid s chatid opt v = apply-IsValid s (Op.fetch chatid opt) v tt

poll_chats-IsValid :
    (ts : ℕ) (chats : List Chat) (s : Storage) → IsValid s → IsValid (poll_chats ts chats s).1
unfolding poll_chats
poll_chats-IsValid ts [] s v = v
poll_chats-IsValid ts (chat ∷ chats) s v =
    poll_chats-IsValid ts chats _ (fetch-IsValid s chat.id (record default_opt { ts = ts }) v)

poll-IsValid :
    (now : ℕ) (task : Task) (u : User) (s : Storage) → IsValid s → IsValid (poll now task u s).0
unfolding poll apply
poll-IsValid now task u s v =
    poll_chats-IsValid task.request.ts
      (lookup_chats_for_user_id (update_user_heart_bit s u now) u.id)
      (update_user_heart_bit s u now) (apply-IsValid s (Op.heart_bit u now) v tt)

save-IsValid :
    (s : Storage) (m : Message)
    → IsValid s
    → has_chat s m.chat_to ≡ true
    → has_user s m.user_from ≡ true
    → IsValid (save_message s m)
unfolding apply
save-IsValid s m v to from = apply-IsValid s (Op.save m) v (to, from)

-- Chats that a lookup by name lists are stored.
any_later :
    (k : ℕ) (c : Chat) (cs : List Chat)
    → any (λ d. d.id == k) cs ≡ true
    → any (λ d. d.id == k) (c ∷ cs) ≡ true
any_later k c cs h = ground arith

pub listed_chats :
    (p : Chat → Bool) (cs : List Chat) → All (λ c. any (λ d. d.id == c.id) cs ≡ true) (select p cs)
listed_chats p [] = tt
listed_chats p (c ∷ cs) =
    let later = All-mono (λ d h. any_later d.id c cs h) (select p cs) (listed_chats p cs) in
    elim (Bool-cases (p c)) [ inl e ↦ rw e (rw (==_refl c.id), later) | inr e ↦ rw e later ]

module _ (now : ℕ) (task : Task) (u : User) (s : Storage) (v : IsValid s) where
  send_to_one :
      (us : List User)
      → has_user s u.id ≡ true
      → All (λ w. has_chat s w.self_chat_id ≡ true) us
      → IsValid (message_send_to now task u s us).0
  unfolding message_send_to
  send_to_one [] h own = v
  send_to_one (w ∷ []) h own = save-IsValid s _ v own.0 h
  send_to_one (_ ∷ _ ∷ _) h own = v

  message_send-IsValid : has_user s u.id ≡ true → IsValid (message_send now task u s).0
  unfolding message_send
  message_send-IsValid h = elim (lookup_user_by_name_once s task.request.to_user v) [
    | inl absent ↦ rw (absent) (send_to_one [] h tt)
    | inr (w, alone, _, _, _, own) ↦ rw (alone) (send_to_one (w ∷ []) h (own.0, tt))
  ]

  send_chat_to_one :
      (cs : List Chat)
      → has_user s u.id ≡ true
      → All (λ c. has_chat s c.id ≡ true) cs
      → IsValid (message_send_chat_to now task u s cs).0
  unfolding message_send_chat_to
  send_chat_to_one [] h stored = v
  send_chat_to_one (c ∷ []) h stored = save-IsValid s _ v stored.0 h
  send_chat_to_one (_ ∷ _ ∷ _) h stored = v

  message_send_chat-IsValid : has_user s u.id ≡ true → IsValid (message_send_chat now task u s).0
  unfolding message_send_chat lookup_chat_by_name
  message_send_chat-IsValid h = send_chat_to_one _ h (listed_chats _ s.chats)

  adduser_to_one :
      (cs : List Chat)
      → has_user s u.id ≡ true
      → All (λ c. has_chat s c.id ≡ true) cs
      → IsValid (chat_adduser_to u s cs).0
  unfolding chat_adduser_to apply
  adduser_to_one [] h stored = v
  adduser_to_one (c ∷ []) h stored = apply-IsValid s (Op.add_user c u) v (stored.0, h)
  adduser_to_one (_ ∷ _ ∷ _) h stored = v

module _ (lib : External) (now : ℕ) (task : Task) (s : Storage) (v : IsValid s) where
  chat_adduser-IsValid : IsValid (chat_adduser lib task s).0
  unfolding chat_adduser lookup_chat_by_name
  chat_adduser-IsValid = elim (checked_name lib task.request.chat_adduser task s false v) [
    | CheckedName.missing _ e ↦ rw (e, chat_adduser) v
    | CheckedName.refused _ _ _ _ e ↦ rw (e, chat_adduser) v
    | CheckedName.found w f _ e ↦
        rw (e, chat_adduser, found_nonzero w f.positive)
          (adduser_to_one now task w s v _ f.is_stored (listed_chats _ s.chats))
  ]

  -- These branches change nothing.
  user_status_same : (u : User) → (user_status lib now task u s).0 ≡ s
  unfolding user_status
  user_status_same u = ground arith

  user_history_same : (u : User) → (user_history lib task u s).0 ≡ s
  unfolding user_history
  user_history_same u = ground arith

  user_login_same : (user_login lib now task s).0 ≡ s
  unfolding user_login
  user_login_same = ground arith

  user_create-IsValid : HasRoom s → IsValid (user_create lib now task s).0
  unfolding user_create apply
  user_create-IsValid r =
      let digest = encrypted_pass lib task.request.password in
      let w =
        apply-IsValid s (Op.new_user task.request.user digest task.storage) v
          (r.users_left, r.chats_left) in
      elim (Bool-cases ((create_user s task.request.user digest task.storage).0.id == 0)) [
        | inl e ↦ rw e w
        | inr e ↦ rw e w
      ]

  chat_create-IsValid :
      HasRoom s → (u : User) → IsAccepted lib task s u → IsValid (chat_create lib now task s).0
  unfolding chat_create apply
  chat_create-IsValid r u a =
      let w =
        apply-IsValid s (Op.new_chat task.request.chat_name task.request.uid) v
          (r.chats_left, λ _. rw (a.numbered) at a.is_stored) in
      elim (Bool-cases ((create_chat s task.request.chat_name task.request.uid).0.id == 0)) [
        | inl e ↦ rw e w
        | inr e ↦ rw e w
      ]

  guarded :
      (branch : User → Storage × List Reply)
      → ((u : User) → IsAccepted lib task s u → IsValid (branch u).0)
      → IsValid (with_user lib task s branch).0
  guarded branch h = with_user_cases (λ r. IsValid r.0) lib task s branch v v v h

  keeps_cmd : (cmd : Cmd) → HasRoom s → IsValid (process_task lib now cmd task s).0
  unfolding process_task
  keeps_cmd Cmd.idle r = guarded _ (λ u a. poll-IsValid now task u s v)
  keeps_cmd Cmd.user_status r = guarded _ (λ u a. rw (user_status_same u) v)
  keeps_cmd Cmd.user_history r = guarded _ (λ u a. rw (user_history_same u) v)
  keeps_cmd Cmd.message_send r = guarded _ (λ u a. message_send-IsValid now task u s v a.is_stored)
  keeps_cmd Cmd.message_send_chat r =
      guarded _ (λ u a. message_send_chat-IsValid now task u s v a.is_stored)
  keeps_cmd Cmd.chat_create r = guarded _ (λ u a. chat_create-IsValid r u a)
  keeps_cmd Cmd.chat_adduser r = guarded _ (λ u a. chat_adduser-IsValid)
  keeps_cmd Cmd.user_create r = user_create-IsValid r
  keeps_cmd Cmd.user_login r = rw user_login_same v
  keeps_cmd Cmd.chat_history r = v
  keeps_cmd Cmd.chat_status r = v
  keeps_cmd Cmd.message_recent r = v
  keeps_cmd Cmd.cmd_last r = v

-- Every task keeps the invariant of the storage, if the counters are not about to wrap.
pub process-IsValid :
    (lib : External) (now : ℕ) (task : Task) (s : Storage)
    → IsValid s
    → HasRoom s
    → IsValid (process lib now task s).0
unfolding process
process-IsValid lib now task s v r = keeps_cmd lib now task s v task.cmd r

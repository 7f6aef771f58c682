-- ===== src/Worker/Program/Safe.antt =====
-- server/src/database_worker.cpp: a branch asks only for what the storage allows, whatever the other workers
-- do between its calls, since no row is ever taken away.
use o2chat.Prelude.{
  ℕ, Bool, true, false, List, [], ◌∷◌, ◌++◌, Bytes, if◌then◌else◌, ◌≡◌, refl, inl, inr, All,
}
use o2chat.Common.{Cmd}
use o2chat.Json.{External}
use o2chat.Responses.{ApiMessage}
use o2chat.Db.{User, Chat, Message, Storage, has_user, has_chat}
use o2chat.Db.Chats.{lookup_chat_by_name}
use o2chat.Db.Lookup.{lookup_user_by_name_once}
use o2chat.Db.Invariant.{IsValid, Extends}
use o2chat.Db.Invariant.Preserved.{apply, Allowed}
use o2chat.Db.Invariant.Grows.{Extends-trans}
use o2chat.Worker.Tasks.{Task, Reply}
use o2chat.Worker.Auth.{IsAccepted, IsFound, Checked, CheckedName, checked, checked_name, not_zero}
use o2chat.Worker.Keeps.{HasRoom, listed_chats}
use o2chat.Worker.{new_message}
use o2chat.Worker.Program.{
  Program, check_pass, check_name, chat_rows, chats_for_user, api_messages, api_batch, fetch_chats,
  poll_end, poll_program, status_program, history_program, save_program, send_to_program,
  send_program, send_chat_to_program, send_chat_program, add_to_program, add_program,
  create_program, create_chat_program, cmd_program,
}

-- In each later storage that is in order, the next call is allowed, and so is the rest behind it.
unfoldable pub IsSafe : Program → Storage → Type 0
IsSafe (Program.finished replies) s = Unit
IsSafe (Program.looks next) s =
    (now : ℕ) (t : Storage) → Extends s t → IsValid t → IsSafe (next now t) t
IsSafe (Program.changes op next) s =
    (now : ℕ) (t : Storage)
    → Extends s t
    → IsValid t
    → (HasRoom t → Allowed t op) × (IsSafe (next now t) (apply t op))

pub IsSafe-later : (p : Program) {s t : Storage} → Extends s t → IsSafe p s → IsSafe p t
unfolding IsSafe
IsSafe-later (Program.finished replies) e h = tt
IsSafe-later (Program.looks next) e h = λ now t' e' v. h now t' (Extends-trans e e') v
IsSafe-later (Program.changes op next) e h = λ now t' e' v. h now t' (Extends-trans e e') v

either-IsSafe :
    (b : Bool) (replies : List Reply) (p : Program) (s : Storage)
    → (b ≡ false → IsSafe p s)
    → IsSafe (if b then Program.finished replies else p) s
unfolding IsSafe
either-IsSafe true replies p s h = tt
either-IsSafe false replies p s h = h refl

module _ (lib : External) (task : Task) where
  check_pass-IsSafe :
      (branch : ℕ → User → Program) (s : Storage)
      → ((now : ℕ) (u : User) (t : Storage)
          → IsValid t
          → IsAccepted lib task t u
          → IsSafe (branch now u) t)
      → IsSafe (check_pass lib task branch) s
  unfolding IsSafe check_pass
  check_pass-IsSafe branch s h = λ now t e v. elim (checked lib task t v) [
    | Checked.unknown _ refused ↦ rw refused tt
    | Checked.refused _ _ refused ↦ rw refused tt
    | Checked.accepted a found ↦ rw (found, not_zero _ a.positive) (h now _ t v a)
  ]

  check_name-IsSafe :
      (name : Bytes) (check : Bool) (branch : ℕ → User → Program) (s : Storage)
      → ((now : ℕ) (u : User) (t : Storage)
          → IsValid t
          → IsFound t name u
          → IsSafe (branch now u) t)
      → IsSafe (check_name lib task name check branch) s
  unfolding IsSafe check_name
  check_name-IsSafe name check branch s h = λ now t e v.
      elim (checked_name lib name task t check v) [
        | CheckedName.missing _ refused ↦ rw refused tt
        | CheckedName.refused _ _ _ _ refused ↦ rw refused tt
        | CheckedName.found u f _ found ↦ rw (found, not_zero _ f.positive) (h now u t v f)
      ]

api_messages-IsSafe :
    (msgs : List Message) (next : List ApiMessage → Program) (s : Storage)
    → ((all : List ApiMessage) (t : Storage) → IsSafe (next all) t)
    → IsSafe (api_messages msgs next) s
unfolding IsSafe api_messages
api_messages-IsSafe [] next s h = h [] s
api_messages-IsSafe (m ∷ ms) next s h =
    λ now t e v. λ now' t' e' v'. api_messages-IsSafe ms _ t' (λ all. h _)

api_batch-IsSafe :
    (batch : List (List Message)) (next : List ApiMessage → Program) (s : Storage)
    → ((all : List ApiMessage) (t : Storage) → IsSafe (next all) t)
    → IsSafe (api_batch batch next) s
unfolding api_batch
api_batch-IsSafe [] next s h = h [] s
api_batch-IsSafe (msgs ∷ batch) next s h =
    api_messages-IsSafe msgs _ s (λ front t. api_batch-IsSafe batch _ t (λ rest. h (front ++ rest)))

chat_rows-IsSafe :
    (ids : List ℕ) (next : List Chat → Program) (s : Storage)
    → ((chats : List Chat) (t : Storage) → IsSafe (next chats) t)
    → IsSafe (chat_rows ids next) s
unfolding IsSafe chat_rows
chat_rows-IsSafe [] next s h = h [] s
chat_rows-IsSafe (i ∷ ids) next s h = λ now t e v. chat_rows-IsSafe ids _ t (λ rest. h _)

fetch_chats-IsSafe :
    (ts : ℕ) (chats : List Chat) (next : List (List Message) → Program) (s : Storage)
    → ((batch : List (List Message)) (t : Storage) → IsSafe (next batch) t)
    → IsSafe (fetch_chats ts chats next) s
unfolding IsSafe fetch_chats
fetch_chats-IsSafe ts [] next s h = h [] s
fetch_chats-IsSafe ts (chat ∷ chats) next s h =
    λ now t e v. (λ _. tt, fetch_chats-IsSafe ts chats _ _ (λ batch. h _))

poll_end-IsSafe :
    (task : Task) (batch : List (List Message)) (s : Storage) → IsSafe (poll_end task batch) s
unfolding IsSafe poll_end
poll_end-IsSafe task [] s = tt
poll_end-IsSafe task (msgs ∷ batch) s =
    api_batch-IsSafe (msgs ∷ batch) (λ all. Program.finished (Reply.idle_messages all ∷ [])) s
      (λ all t. tt)

poll-IsSafe : (task : Task) (now : ℕ) (u : User) (s : Storage) → IsSafe (poll_program task now u) s
unfolding IsSafe poll_program chats_for_user
poll-IsSafe task now u s = λ _ t e v. (
  λ _. tt,
  λ _ t' e' v'. chat_rows-IsSafe _ _ t' (λ chats t''.
      fetch_chats-IsSafe task.request.ts chats (poll_end task) t'' (poll_end-IsSafe task)),
)

history-IsSafe :
    (task : Task) (from to : User) (s : Storage) → IsSafe (history_program task from to) s
unfolding IsSafe history_program
history-IsSafe task from to s = λ _ t e v. λ _ t' e' v'.
    api_messages-IsSafe _ (λ all. Program.finished (Reply.messages all ∷ [])) t' (λ all t''. tt)

save-IsSafe :
    (m : Message) (s : Storage)
    → has_chat s m.chat_to ≡ true
    → has_user s m.user_from ≡ true
    → IsSafe (save_program m) s
unfolding IsSafe save_program
save-IsSafe m s to from =
    λ now t e v. (λ _. (e.chat_kept m.chat_to to, e.user_kept m.user_from from), tt)

module _ (task : Task) (u : User) where
  send-IsSafe : (s : Storage) → has_user s u.id ≡ true → IsSafe (send_program task u) s
  unfolding IsSafe send_program send_to_program
  send-IsSafe s h = λ now t e v. elim (lookup_user_by_name_once t task.request.to_user v) [
    | inl absent ↦ rw absent tt
    | inr (w, alone, _, _, _, own) ↦ rw alone (
        save-IsSafe (new_message now u w.self_chat_id task.request.message) t own.0
          (e.user_kept u.id h))
  ]

  send_chat_to_safe :
      (now : ℕ) (cs : List Chat) (t : Storage)
      → has_user t u.id ≡ true
      → All (λ c. has_chat t c.id ≡ true) cs
      → IsSafe (send_chat_to_program task u now cs) t
  unfolding IsSafe send_chat_to_program
  send_chat_to_safe now [] t h stored = tt
  send_chat_to_safe now (c ∷ []) t h stored =
      save-IsSafe (new_message now u c.id task.request.message) t stored.0 h
  send_chat_to_safe now (_ ∷ _ ∷ _) t h stored = tt

  send_chat-IsSafe : (s : Storage) → has_user s u.id ≡ true → IsSafe (send_chat_program task u) s
  unfolding IsSafe send_chat_program lookup_chat_by_name
  send_chat-IsSafe s h =
      λ now t e v. send_chat_to_safe now _ t (e.user_kept u.id h) (listed_chats _ t.chats)

  add_to_safe :
      (cs : List Chat) (t : Storage)
      → has_user t u.id ≡ true
      → All (λ c. has_chat t c.id ≡ true) cs
      → IsSafe (add_to_program u cs) t
  unfolding IsSafe add_to_program
  add_to_safe [] t h stored = tt
  add_to_safe (c ∷ []) t h stored =
      λ now t' e v. (λ _. (e.chat_kept c.id stored.0, e.user_kept u.id h), tt)
  add_to_safe (_ ∷ _ ∷ _) t h stored = tt

  add-IsSafe : (s : Storage) → has_user s u.id ≡ true → IsSafe (add_program task u) s
  unfolding IsSafe add_program lookup_chat_by_name
  add-IsSafe s h = λ now t e v. add_to_safe _ t (e.user_kept u.id h) (listed_chats _ t.chats)

module _ (lib : External) (task : Task) where
  create-IsSafe : (s : Storage) → IsSafe (create_program lib task) s
  unfolding IsSafe create_program
  create-IsSafe s = λ now t e v. (λ r. (r.users_left, r.chats_left), tt)

  create_chat-IsSafe :
      (s : Storage) → has_user s task.request.uid ≡ true → IsSafe (create_chat_program lib task) s
  unfolding IsSafe create_chat_program
  create_chat-IsSafe s h = λ now t e v. (λ r. (r.chats_left, λ _. e.user_kept _ h), tt)

  checked_named-IsSafe :
      (name : Bytes) (branch : User → ℕ → User → Program) (s : Storage)
      → ((u : User) (now : ℕ) (w : User) (t : Storage)
          → IsFound t name w
          → IsSafe (branch u now w) t)
      → IsSafe (check_pass lib task (λ _ u. check_name lib task name false (branch u))) s
  checked_named-IsSafe name branch s h =
      check_pass-IsSafe lib task (λ _ u. check_name lib task name false (branch u)) s
        (λ _ u t v a.
          check_name-IsSafe lib task name false (branch u) t (λ now w r v' f. h u now w r f))

  -- Every branch, from every storage on.
  pub cmd-IsSafe : (cmd : Cmd) (s : Storage) → IsSafe (cmd_program lib task cmd) s
  unfolding IsSafe cmd_program status_program
  cmd-IsSafe Cmd.idle s =
      check_pass-IsSafe lib task (poll_program task) s (λ now u t v a. poll-IsSafe task now u t)
  cmd-IsSafe Cmd.user_status s =
      checked_named-IsSafe task.request.user (λ u. status_program lib) s (λ u now w t f. tt)
  cmd-IsSafe Cmd.user_history s =
      checked_named-IsSafe task.request.user (λ u now w. history_program task u w) s
        (λ u now w t f. history-IsSafe task u w t)
  cmd-IsSafe Cmd.message_send s =
      check_pass-IsSafe lib task (λ _. send_program task) s
        (λ now u t v a. send-IsSafe task u t a.is_stored)
  cmd-IsSafe Cmd.user_create s = create-IsSafe s
  cmd-IsSafe Cmd.user_login s =
      check_name-IsSafe lib task task.request.user true (status_program lib) s (λ now u t v f. tt)
  cmd-IsSafe Cmd.chat_create s =
      check_pass-IsSafe lib task (λ _ u. create_chat_program lib task) s
        (λ now u t v a. create_chat-IsSafe t (rw a.numbered at a.is_stored))
  cmd-IsSafe Cmd.chat_adduser s =
      checked_named-IsSafe task.request.chat_adduser (λ u now w. add_program task w) s
        (λ u now w t f. add-IsSafe task w t f.is_stored)
  cmd-IsSafe Cmd.message_send_chat s =
      check_pass-IsSafe lib task (λ _. send_chat_program task) s
        (λ now u t v a. send_chat-IsSafe task u t a.is_stored)
  cmd-IsSafe Cmd.chat_history s = tt
  cmd-IsSafe Cmd.chat_status s = tt
  cmd-IsSafe Cmd.message_recent s = tt
  cmd-IsSafe Cmd.cmd_last s = tt

-- ===== src/Worker/Sent.antt =====
-- server/src/database_worker.cpp: a message from the task that brings it to the chat of its receiver.
use mathlib.Core.List.{reverse, reverse-append}
use o2chat.Prelude.{
  ℕ, zero, suc, ◌<◌, true, false, List, [], ◌∷◌, ◌++◌, ◌≡◌, refl, ap, ◌∙◌, arith, ◌==◌, ◌=?◌, take,
  select, ==_refl,
}
use o2chat.Common.{Cmd}
use o2chat.Json.{External}
use o2chat.Text.Decimal.{encrypted_pass}
use o2chat.Db.{User, Message, Storage, GetMsgOpt}
use o2chat.Db.Users.{lookup_user_by_name, lookup_user_by_id}
use o2chat.Db.Messages.{get_messages, is_recent, save_message}
use o2chat.Db.Messages.Reference.{get_messages_lem, limited}
use o2chat.Worker.Tasks.{Task, Reply, status_ok, lookup_check_pass}
use o2chat.Worker.Accounts.{at_cmd}
use o2chat.Worker.{process, process_task, with_user, message_send, message_send_to, new_message}

-- The user of a task, with a password of the right digest.
with_user_row :
    (lib : External) (task : Task) (s : Storage) (branch : User → Storage × List Reply) (u : User)
    → lookup_user_by_id s task.request.uid ≡ u
    → (u.id == 0) ≡ false
    → (encrypted_pass lib task.request.password =? u.password) ≡ true
    → with_user lib task s branch ≡ branch u
unfolding with_user lookup_check_pass
with_user_row lib task s branch u found positive same = rw (found, positive, same, positive)

-- A task that sends a message saves it, if its user has the password and one user has the name of the
-- receiver.
pub sent_lem :
    (lib : External) (now : ℕ) (task : Task) (s : Storage) (u to : User)
    → task.cmd ≡ Cmd.message_send
    → lookup_user_by_id s task.request.uid ≡ u
    → (u.id == 0) ≡ false
    → (encrypted_pass lib task.request.password =? u.password) ≡ true
    → lookup_user_by_name s task.request.to_user ≡ to ∷ []
    → process lib now task s
      ≡ (save_message s (new_message now u to.self_chat_id task.request.message), status_ok ∷ [])
unfolding process_task message_send message_send_to
sent_lem lib now task s u to cmd found positive same receiver = rw (at_cmd lib now task s cmd) (
    with_user_row lib task s (λ user. message_send now task user s) u found positive same
    ∙ rw (receiver, message_send) refl)

limited_first {ℓ} :
    {A : Type ℓ} (n : ℕ) (x : A) (xs : List A) → (rest : List A) × (limited n (x ∷ xs) ≡ x ∷ rest)
limited_first zero x xs = (xs, refl)
limited_first (suc n) x xs = (take n xs, refl)

-- The message that was saved last is the first of an answer to its chat, if it is late enough.
pub saved_first :
    (s : Storage) (m : Message) (opt : GetMsgOpt)
    → opt.ts < m.ts
    → (rest : List Message) × ((get_messages (save_message s m) m.chat_to opt).0 ≡ m ∷ rest)
unfolding save_message
saved_first s m opt late =
    let p = is_recent m.chat_to opt in
    let hit : p m ≡ true = ground (arith, late, ==_refl m.chat_to) in
    let newest : reverse (s.messages ++ m ∷ []) ≡ m ∷ reverse s.messages =
      reverse-append s.messages (m ∷ []) in
    let (rest, first) = limited_first opt.max_count m (select p (reverse s.messages)) in
    (
      rest,
      (get_messages_lem (save_message s m) m.chat_to opt).0
          ∙ ap (λ l. limited opt.max_count (select p l)) newest
          ∙ rw hit first,
    )

-- ===== src/Worker/Program/Acked.antt =====
-- server/src/database_worker.cpp: what the answer to a sent message promises.
use o2chat.Prelude.{
  ℕ, true, List, [], ◌∷◌, Bytes, ◌==◌, ==_refl, ◌=?◌, =?_refl, ◌≡◌, refl, inl, inr, Bool-cases, any,
  select, any-concat_self,
}
use o2chat.Common.{Cmd}
use o2chat.Json.{External}
use o2chat.Db.{User, Message, Storage}
use o2chat.Db.Users.{lookup_user_by_name, lookup_user_by_id}
use o2chat.Db.Messages.{save_message}
use o2chat.Db.Lookup.{lookup_user_by_name_once}
use o2chat.Db.Invariant.{IsValid}
use o2chat.Db.Invariant.Preserved.{apply}
use o2chat.Db.Invariant.Later.{Later, Later-trans, is_message, has_message, is_owner, has_owner}
use o2chat.Worker.Tasks.{Task, status_ok}
use o2chat.Worker.Auth.{Checked, checked, not_zero}
use o2chat.Worker.{new_message}
use o2chat.Worker.Program.{
  Program, check_pass, save_program, send_to_program, send_program, cmd_program,
}

-- The message of a task is stored: from its user to the own chat of a user with the name that it gives.
abbrev pub HasSent : Task → Storage → Type 0
HasSent task s =
    (chatid : ℕ) × (has_owner s task.request.to_user chatid ≡ true)
    × (has_message s task.request.uid chatid task.request.message ≡ true)

-- What is left of a branch ends in the answer of success only with the message stored, whatever the others do.
unfoldable pub IsAcked : Task → Program → Storage → Type 0
IsAcked task (Program.finished replies) s = replies ≡ status_ok ∷ [] → HasSent task s
IsAcked task (Program.looks next) s =
    (now : ℕ) (t : Storage) → Later s t → IsValid t → IsAcked task (next now t) t
IsAcked task (Program.changes op next) s =
    (now : ℕ) (t : Storage) → Later s t → IsValid t → IsAcked task (next now t) (apply t op)

pub IsAcked-Later :
    (task : Task) (p : Program) {s t : Storage} → Later s t → IsAcked task p s → IsAcked task p t
unfolding IsAcked
IsAcked-Later task (Program.finished replies) e h = λ ok.
    let (chatid, owner, sent) = h ok in
    (
      chatid,
      e.owner_kept task.request.to_user chatid owner,
      e.message_kept task.request.uid chatid task.request.message sent,
    )
IsAcked-Later task (Program.looks next) e h = λ now t' e' v. h now t' (Later-trans e e') v
IsAcked-Later task (Program.changes op next) e h = λ now t' e' v. h now t' (Later-trans e e') v

-- A user that a lookup by name finds has the name and their chat.
owner_found :
    (name : Bytes) (us : List User) (w : User)
    → select (λ u. u.name =? name) us ≡ w ∷ []
    → any (is_owner name w.self_chat_id) us ≡ true
owner_found name [] w e = absurd (cc e)
owner_found name (u ∷ us) w e = elim (Bool-cases (u.name =? name)) [
  | inl hit ↦
      let same : u ≡ w = cc (rw hit at e) in
      let chat : (u.self_chat_id == w.self_chat_id) ≡ true = rw same (==_refl w.self_chat_id) in
      rw (hit, chat) refl
  | inr miss ↦ rw miss (owner_found name us w (rw miss at e))
]

module _ (task : Task) (u : User) (numbered : u.id ≡ task.request.uid) where
  save-IsAcked :
      (now chatid : ℕ) (s : Storage)
      → has_owner s task.request.to_user chatid ≡ true
      → IsAcked task (save_program (new_message now u chatid task.request.message)) s
  unfolding IsAcked save_program apply save_message
  save-IsAcked now chatid s owner = λ now' t e v. λ ok.
      let message : Message = new_message now u chatid task.request.message in
      let own : is_message task.request.uid chatid task.request.message message ≡ true =
        rw (numbered, ==_refl task.request.uid, ==_refl chatid) (=?_refl task.request.message) in
      (
        chatid,
        e.owner_kept task.request.to_user chatid owner,
        any-concat_self (is_message task.request.uid chatid task.request.message) t.messages message
            own,
      )

  send-IsAcked : (s : Storage) → IsAcked task (send_program task u) s
  unfolding IsAcked send_program send_to_program lookup_user_by_name
  send-IsAcked s = λ now t e v. elim (lookup_user_by_name_once t task.request.to_user v) [
    | inl absent ↦ rw absent (λ ok. absurd (cc ok))
    | inr (w, alone, _, _, _, _) ↦
        rw alone
          (save-IsAcked now w.self_chat_id t (owner_found task.request.to_user t.users w alone))
  ]

-- The branch `MESSAGE_SEND`, from every storage on.
pub send_message-IsAcked :
    (lib : External) (task : Task) (s : Storage)
    → IsAcked task (cmd_program lib task Cmd.message_send) s
unfolding IsAcked cmd_program check_pass
send_message-IsAcked lib task s = λ now t e v. elim (checked lib task t v) [
  | Checked.unknown _ refused ↦ rw refused (λ ok. absurd (cc ok))
  | Checked.refused _ _ refused ↦ rw refused (λ ok. absurd (cc ok))
  | Checked.accepted a found ↦
      rw (found, not_zero _ a.positive)
        (send-IsAcked task (lookup_user_by_id t task.request.uid) a.numbered t)
]

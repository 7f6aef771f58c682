-- ===== src/Db/Invariant/Later.antt =====
-- server/src/inmemory_dbconn.cpp: what is stored stays stored: rows, the name and the chat of a user, and
-- messages but for their flags.
use mathlib.Core.List.{reverse, reverse-cons}
use o2chat.Prelude.{
  ℕ, zero, suc, Bool, true, false, ◌&&◌, List, [], ◌∷◌, Bytes, ◌≡◌, refl, ap, ◌∙◌, inl, inr, arith,
  ◌==◌, ◌=?◌, if◌then◌else◌, any, any-append_left, any-append, Bool-cases,
}
use o2chat.Db.{Storage, User, no_user, Chat, no_chat, Message, GetMsgOpt}
use o2chat.Db.Users.{create_user, store_user, update_user_heart_bit, set_heartbit}
use o2chat.Db.Chats.{create_chat, store_chat, add_user_to_chat, is_member}
use o2chat.Db.Messages.{save_message, get_messages, is_recent}
use o2chat.Db.Messages.Reference.{get_messages_lem, mark_first}
use o2chat.Db.Invariant.{IsValid, Extends, Extends-refl}
use o2chat.Db.Invariant.Preserved.{Op, apply}
use o2chat.Db.Invariant.Grows.{Extends-trans, apply-Extends}

-- Whether a message of a user to a chat with some text is stored.
abbrev pub is_message : ℕ → ℕ → Bytes → Message → Bool
is_message from to text m = m.user_from == from && m.chat_to == to && m.message =? text

abbrev pub has_message : Storage → ℕ → ℕ → Bytes → Bool
has_message s from to text = any (is_message from to text) s.messages

-- Whether a user with some name has some chat as their own.
abbrev pub is_owner : Bytes → ℕ → User → Bool
is_owner name chatid u = u.name =? name && u.self_chat_id == chatid

abbrev pub has_owner : Storage → Bytes → ℕ → Bool
has_owner s name chatid = any (is_owner name chatid) s.users

pub record Later (s t : Storage) : Type 0 where
  pub extended : Extends s t
  pub message_kept :
      (from to : ℕ) (text : Bytes)
      → has_message s from to text ≡ true
      → has_message t from to text ≡ true
  pub owner_kept :
      (name : Bytes) (chatid : ℕ) → has_owner s name chatid ≡ true → has_owner t name chatid ≡ true

pub Later-refl : (s : Storage) → Later s s
Later-refl s = record {
  extended = Extends-refl s;
  message_kept = λ n c m h. h;
  owner_kept = λ n c h. h;
}

pub Later-trans : {s t r : Storage} → Later s t → Later t r → Later s r
Later-trans e f = record {
  extended = Extends-trans e.extended f.extended;
  message_kept = λ n c m h. f.message_kept n c m (e.message_kept n c m h);
  owner_kept = λ n c h. f.owner_kept n c (e.owner_kept n c h);
}

-- Reading a message does not change who wrote what to whom.
any-mark_first :
    (from to : ℕ) (text : Bytes) (p : Message → Bool) (n : ℕ) (ms : List Message)
    → any (is_message from to text) (mark_first n p ms) ≡ any (is_message from to text) ms
unfolding mark_first
any-mark_first from to text p zero ms = refl
any-mark_first from to text p (suc n) [] = refl
any-mark_first from to text p (suc n) (m ∷ ms) = elim (Bool-cases (p m)) [
  | inl e ↦ rw e (rw (any-mark_first from to text p n ms) refl)
  | inr e ↦ rw e (rw (any-mark_first from to text p (suc n) ms) refl)
]

any-reverse : (q : Message → Bool) (ms : List Message) → any q (reverse ms) ≡ any q ms
any-reverse q [] = refl
any-reverse q (m ∷ ms) = rw reverse-cons (
    let parts = any-append q (reverse ms) (m ∷ []) in
    let rest = any-reverse q ms in ground (arith, parts, rest))

get_messages-has :
    (s : Storage) (chatid : ℕ) (opt : GetMsgOpt) (from to : ℕ) (text : Bytes)
    → has_message (get_messages s chatid opt).1 from to text ≡ has_message s from to text
get_messages-has s chatid opt from to text = rw (get_messages_lem s chatid opt).1 (
    any-reverse (is_message from to text) _
    ∙ any-mark_first from to text (is_recent chatid opt) _ (reverse s.messages)
    ∙ any-reverse (is_message from to text) s.messages)

owner-set_heartbit :
    (name : Bytes) (chatid uid ts : ℕ) (us : List User)
    → any (is_owner name chatid) (set_heartbit uid ts us) ≡ any (is_owner name chatid) us
unfolding set_heartbit
owner-set_heartbit name chatid uid ts [] = refl
owner-set_heartbit name chatid uid ts (u ∷ us) =
    ground (arith, owner-set_heartbit name chatid uid ts us)

-- Only `saveMessage` and `getMessages` touch the messages.
messages_same :
    (s t : Storage)
    → t.messages ≡ s.messages
    → (from to : ℕ) (text : Bytes) → has_message s from to text ≡ true
    → has_message t from to text ≡ true
messages_same s t e from to text h = ap (any (is_message from to text)) e ∙ h

owners_same :
    (s t : Storage)
    → t.users ≡ s.users
    → (name : Bytes) (chatid : ℕ) → has_owner s name chatid ≡ true
    → has_owner t name chatid ≡ true
owners_same s t e name chatid h = ap (any (is_owner name chatid)) e ∙ h

create_user-Later :
    (s : Storage) (name pass stpath : Bytes)
    → Extends s (create_user s name pass stpath).1
    → Later s (create_user s name pass stpath).1
unfolding create_user store_user
create_user-Later s name pass stpath e = record {
  extended = e;
  message_kept =
      messages_same s (create_user s name pass stpath).1 (same (any (λ u. u.name =? name) s.users));
  owner_kept = λ n c h. kept n c (any (λ u. u.name =? name) s.users) h;
}
  where
    same :
        (b : Bool)
        → (if b then (no_user, s) else store_user s name pass stpath).1.messages ≡ s.messages
    same true = refl
    same false = refl

    kept :
        (n : Bytes) (c : ℕ) (b : Bool)
        → has_owner s n c ≡ true
        → has_owner (if b then (no_user, s) else store_user s name pass stpath).1 n c ≡ true
    kept n c true h = h
    kept n c false h = any-append_left (is_owner n c) s.users _ h

create_chat_same :
    (s : Storage) (name : Bytes) (uid : ℕ)
    → ((create_chat s name uid).1.messages ≡ s.messages)
      × ((create_chat s name uid).1.users ≡ s.users)
unfolding create_chat store_chat
create_chat_same s name uid = go (any (λ c. c.name =? name) s.chats)
  where
    go :
        (b : Bool)
        → let t = (if b then (no_chat, s) else store_chat s name uid).1 in
          (t.messages ≡ s.messages) × (t.users ≡ s.users)
    go true = (refl, refl)
    go false = (refl, refl)

add_user_same :
    (s : Storage) (chat : Chat) (user : User)
    → ((add_user_to_chat s chat user).messages ≡ s.messages)
      × ((add_user_to_chat s chat user).users ≡ s.users)
unfolding add_user_to_chat
add_user_same s chat user = elim (Bool-cases (is_member s chat.id user.id)) [
  | inl old ↦ rw old (refl, refl)
  | inr new ↦ rw new (refl, refl)
]

-- Every operation keeps what is stored.
pub apply-Later : (s : Storage) (op : Op) → IsValid s → Later s (apply s op)
unfolding apply update_user_heart_bit save_message get_messages
apply-Later s (Op.heart_bit user ts) v = record {
  extended = apply-Extends s (Op.heart_bit user ts) v;
  message_kept = λ n c m h. h;
  owner_kept = λ n c h. owner-set_heartbit n c user.id ts s.users ∙ h;
}
apply-Later s (Op.new_user name pass stpath) v =
    create_user-Later s name pass stpath (apply-Extends s (Op.new_user name pass stpath) v)
apply-Later s (Op.new_chat name uid) v =
    let (messages, users) = create_chat_same s name uid in
    record {
      extended = apply-Extends s (Op.new_chat name uid) v;
      message_kept = messages_same s (create_chat s name uid).1 messages;
      owner_kept = owners_same s (create_chat s name uid).1 users;
    }
apply-Later s (Op.add_user chat user) v =
    let (messages, users) = add_user_same s chat user in
    record {
      extended = apply-Extends s (Op.add_user chat user) v;
      message_kept = messages_same s (add_user_to_chat s chat user) messages;
      owner_kept = owners_same s (add_user_to_chat s chat user) users;
    }
apply-Later s (Op.save msg) v = record {
  extended = apply-Extends s (Op.save msg) v;
  message_kept = λ n c m h. any-append_left (is_message n c m) s.messages _ h;
  owner_kept = λ n c h. h;
}
apply-Later s (Op.fetch chatid opt) v = record {
  extended = apply-Extends s (Op.fetch chatid opt) v;
  message_kept = λ n c m h. get_messages-has s chatid opt n c m ∙ h;
  owner_kept = owners_same s (get_messages s chatid opt).1 refl;
}

-- ===== src/Db/Invariant/Grows.antt =====
-- server/src/inmemory_dbconn.cpp: no operation takes a row away, and a counter goes up by one at most.
use o2chat.Prelude.{
  ℕ, ◌+◌, ◌≤◌, ◌&&◌, Bytes, ◌∙◌, inl, inr, arith, ◌==◌, ◌=?◌, any, any-append_left, Bool-cases,
  u64_mod, inc64,
}
use native.Mathlib.Nat.{mod-le}
use o2chat.Db.{Storage, Chat, User}
use o2chat.Db.Users.{create_user, store_user, update_user_heart_bit}
use o2chat.Db.Chats.{create_chat, store_chat, add_user_to_chat, is_member}
use o2chat.Db.Messages.{save_message, get_messages}
use o2chat.Db.Invariant.{IsValid, Extends, Extends-refl}
use o2chat.Db.Invariant.UserRows.{store_user-Extends, any-set_heartbit}
use o2chat.Db.Invariant.ChatRows.{store_chat-Extends}
use o2chat.Db.Invariant.Preserved.{Op, apply}

pub Extends-trans : {s t r : Storage} → Extends s t → Extends t r → Extends s r
Extends-trans e f = record {
  chat_kept = λ n h. f.chat_kept n (e.chat_kept n h);
  user_kept = λ n h. f.user_kept n (e.user_kept n h);
  link_kept = λ c u h. f.link_kept c u (e.link_kept c u h);
}

add_user-Extends :
    (s : Storage) (chat : Chat) (user : User) → Extends s (add_user_to_chat s chat user)
unfolding add_user_to_chat
add_user-Extends s chat user = elim (Bool-cases (is_member s chat.id user.id)) [
  | inl old ↦ rw old (Extends-refl s)
  | inr new ↦ rw new (record {
    chat_kept = λ n h. h;
    user_kept = λ n h. h;
    link_kept = λ c u h. any-append_left (λ l. l.chatid == c && l.uid == u) s.chatuser _ h;
  })
]

create_user-Extends :
    (s : Storage) (name pass stpath : Bytes)
    → IsValid s
    → Extends s (create_user s name pass stpath).1
unfolding create_user
create_user-Extends s name pass stpath v = elim (Bool-cases (any (λ u. u.name =? name) s.users)) [
  | inl taken ↦ rw taken (Extends-refl s)
  | inr new ↦ rw new (store_user-Extends s name pass stpath v)
]

create_chat-Extends :
    (s : Storage) (name : Bytes) (uid : ℕ) → IsValid s → Extends s (create_chat s name uid).1
unfolding create_chat
create_chat-Extends s name uid v = elim (Bool-cases (any (λ c. c.name =? name) s.chats)) [
  | inl taken ↦ rw taken (Extends-refl s)
  | inr new ↦ rw new (store_chat-Extends s name uid v)
]

pub apply-Extends : (s : Storage) (op : Op) → IsValid s → Extends s (apply s op)
unfolding apply update_user_heart_bit save_message get_messages
apply-Extends s (Op.heart_bit user ts) v = record {
  chat_kept = λ n h. h;
  user_kept = λ n h. any-set_heartbit (λ k. k == n) user.id ts s.users ∙ h;
  link_kept = λ c u h. h;
}
apply-Extends s (Op.new_user name pass stpath) v = create_user-Extends s name pass stpath v
apply-Extends s (Op.new_chat name uid) v = create_chat-Extends s name uid v
apply-Extends s (Op.add_user chat user) v = add_user-Extends s chat user
apply-Extends s (Op.save msg) v = record {
  chat_kept = λ n h. h;
  user_kept = λ n h. h;
  link_kept = λ c u h. h;
}
apply-Extends s (Op.fetch chatid opt) v = record {
  chat_kept = λ n h. h;
  user_kept = λ n h. h;
  link_kept = λ c u h. h;
}

inc64_le : (n : ℕ) → inc64 n ≤ n + 1
unfolding inc64
inc64_le n = mod-le (n + 1) u64_mod

-- The counters of a storage and of a later one.
abbrev pub CountersNear : Storage → Storage → Type 0
CountersNear s t =
    (t.user_autoincrement ≤ s.user_autoincrement + 1)
    × (t.chat_autoincrement ≤ s.chat_autoincrement + 1)

create_user-CountersNear :
    (s : Storage) (name pass stpath : Bytes) → CountersNear s (create_user s name pass stpath).1
unfolding create_user store_user
create_user-CountersNear s name pass stpath =
    elim (Bool-cases (any (λ u. u.name =? name) s.users)) [
      | inl taken ↦ rw taken (omega arith, omega arith)
      | inr new ↦ rw new (inc64_le s.user_autoincrement, inc64_le s.chat_autoincrement)
    ]

create_chat-CountersNear :
    (s : Storage) (name : Bytes) (uid : ℕ) → CountersNear s (create_chat s name uid).1
unfolding create_chat store_chat
create_chat-CountersNear s name uid = elim (Bool-cases (any (λ c. c.name =? name) s.chats)) [
  | inl taken ↦ rw taken (omega arith, omega arith)
  | inr new ↦ rw new (omega arith, inc64_le s.chat_autoincrement)
]

add_user-CountersNear :
    (s : Storage) (chat : Chat) (user : User) → CountersNear s (add_user_to_chat s chat user)
unfolding add_user_to_chat
add_user-CountersNear s chat user = elim (Bool-cases (is_member s chat.id user.id)) [
  | inl old ↦ rw old (omega arith, omega arith)
  | inr new ↦ rw new (omega arith, omega arith)
]

pub apply-CountersNear : (s : Storage) (op : Op) → CountersNear s (apply s op)
unfolding apply update_user_heart_bit save_message get_messages
apply-CountersNear s (Op.heart_bit user ts) = (omega arith, omega arith)
apply-CountersNear s (Op.new_user name pass stpath) = create_user-CountersNear s name pass stpath
apply-CountersNear s (Op.new_chat name uid) = create_chat-CountersNear s name uid
apply-CountersNear s (Op.add_user chat user) = add_user-CountersNear s chat user
apply-CountersNear s (Op.save msg) = (omega arith, omega arith)
apply-CountersNear s (Op.fetch chatid opt) = (omega arith, omega arith)

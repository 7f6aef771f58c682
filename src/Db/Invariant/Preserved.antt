-- ===== src/Db/Invariant/Preserved.antt =====
-- Every operation of `InMemoryConnection` keeps the invariant. The workers run these operations in
-- any interleaving, since each holds the mutex from its first line to its last.
use mathlib.Core.List.{reverse}
use o2chat.Prelude.{
  arith, ℕ, zero, suc, ◌+◌, ◌<◌, Bool, true, List, [], ◌∷◌, Bytes, ◌≡◌, inl, inr, Bool-cases, All,
  All-append, All-reverse, u64_mod,
}
use o2chat.Db.{empty_storage, Chat, User, Message, Storage, GetMsgOpt, has_user}
use o2chat.Db.Users.{update_user_heart_bit, create_user}
use o2chat.Db.Chats.{create_chat, add_user_to_chat}
use o2chat.Db.Messages.{save_message, get_messages, is_recent}
use o2chat.Db.Messages.Reference.{get_messages_lem, mark_first}
use o2chat.Db.Invariant.{IsValid, LinkIsValid, MessageIsValid}
use o2chat.Db.Invariant.UserRows.{heart_bit-IsValid, create_user-IsValid}
use o2chat.Db.Invariant.ChatRows.{create_chat-IsValid, add_user-IsValid}

-- One call of `InMemoryConnection` that may change the storage.
pub data Op : Type 0 where
  heart_bit : User → ℕ → Op
  new_user : Bytes → Bytes → Bytes → Op
  new_chat : Bytes → ℕ → Op
  add_user : Chat → User → Op
  save : Message → Op
  fetch : ℕ → GetMsgOpt → Op

unfoldable pub apply : Storage → Op → Storage
apply s (Op.heart_bit user ts) = update_user_heart_bit s user ts
apply s (Op.new_user name pass stpath) = (create_user s name pass stpath).1
apply s (Op.new_chat name uid) = (create_chat s name uid).1
apply s (Op.add_user chat user) = add_user_to_chat s chat user
apply s (Op.save msg) = save_message s msg
apply s (Op.fetch chatid opt) = (get_messages s chatid opt).1

-- What a caller owes: counters that do not wrap, and keys of stored rows.
abbrev pub Allowed : Storage → Op → Type 0
Allowed s (Op.heart_bit user ts) = Unit {0}
Allowed s (Op.new_user name pass stpath) =
    (s.user_autoincrement + 1 < u64_mod) × (s.chat_autoincrement + 1 < u64_mod)
Allowed s (Op.new_chat name uid) =
    (s.chat_autoincrement + 1 < u64_mod) × (0 < uid → has_user s uid ≡ true)
Allowed s (Op.add_user chat user) = LinkIsValid s (record { chatid = chat.id; uid = user.id })
Allowed s (Op.save msg) = MessageIsValid s msg
Allowed s (Op.fetch chatid opt) = Unit {0}

-- Changing the messages alone keeps all but what is said of the messages.
with_messages-IsValid :
    (s : Storage) (ms : List Message)
    → IsValid s
    → All (MessageIsValid s) ms
    → IsValid (record s { messages = ms })
with_messages-IsValid s ms v h = record {
  user_ids = v.user_ids;
  chat_ids = v.chat_ids;
  user_counter = v.user_counter;
  user_ids_distinct = v.user_ids_distinct;
  chat_ids_distinct = v.chat_ids_distinct;
  user_names_distinct = v.user_names_distinct;
  links = v.links;
  self_chats = v.self_chats;
  message_keys = h;
}

mark_first-All :
    (s : Storage) (p : Message → Bool) (n : ℕ) (ms : List Message)
    → All (MessageIsValid s) ms
    → All (MessageIsValid s) (mark_first n p ms)
unfolding mark_first
mark_first-All s p zero ms h = h
mark_first-All s p (suc n) [] h = tt
mark_first-All s p (suc n) (m ∷ ms) (hm, h) = elim (Bool-cases (p m)) [
  | inl e ↦ rw e (hm, mark_first-All s p n ms h)
  | inr e ↦ rw e (hm, mark_first-All s p (suc n) ms h)
]

get_messages-IsValid :
    (s : Storage) (chatid : ℕ) (opt : GetMsgOpt) → IsValid s → IsValid (get_messages s chatid opt).1
get_messages-IsValid s chatid opt v = rw ((get_messages_lem s chatid opt).1) (
    with_messages-IsValid s _ v (
      All-reverse (MessageIsValid s) _ (
        mark_first-All s (is_recent chatid opt) _ (reverse s.messages)
          (All-reverse (MessageIsValid s) s.messages v.message_keys))))

-- Every operation keeps the invariant of the storage, if the counters do not wrap and the keys that
-- the caller hands over are those of stored rows.
pub apply-IsValid : (s : Storage) (op : Op) → IsValid s → Allowed s op → IsValid (apply s op)
unfolding apply save_message
apply-IsValid s (Op.heart_bit user ts) v a = heart_bit-IsValid s user ts v
apply-IsValid s (Op.new_user name pass stpath) v a =
    create_user-IsValid s name pass stpath v a.0 a.1
apply-IsValid s (Op.new_chat name uid) v a = create_chat-IsValid s name uid v a.0 a.1
apply-IsValid s (Op.add_user chat user) v a = add_user-IsValid s chat user a v
apply-IsValid s (Op.save msg) v a =
    with_messages-IsValid s _ v (All-append (MessageIsValid s) s.messages _ v.message_keys (a, tt))
apply-IsValid s (Op.fetch chatid opt) v a = get_messages-IsValid s chatid opt v

-- The storage that the server starts with is in order.
pub empty-IsValid : IsValid empty_storage
empty-IsValid = record {
  user_ids = tt;
  chat_ids = tt;
  user_counter = (omega arith, omega arith);
  user_ids_distinct = tt;
  chat_ids_distinct = tt;
  user_names_distinct = tt;
  links = tt;
  self_chats = tt;
  message_keys = tt;
}

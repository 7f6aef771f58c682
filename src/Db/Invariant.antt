-- ===== src/Db/Invariant.antt =====
-- What `InMemoryConnection::Storage` keeps in order: identifiers, names and foreign keys. The
-- operations that change it are the calls that any worker thread may make, in any order, since each
-- holds the mutex.
mod UserRows
mod ChatRows
pub mod Preserved
pub mod Grows
pub mod Later
use o2chat.Prelude.{ℕ, ◌<◌, ◌≤◌, true, List, map, ◌≡◌, ◌≢◌, arith, All, All-mono, All-map, Distinct}
use o2chat.Db.Chats.{is_member}
use o2chat.Db.{Chat, User, Chatuser, Message, Storage, has_user, has_chat}

abbrev pub LinkIsValid : Storage → Chatuser → Type 0
LinkIsValid s l = (has_chat s l.chatid ≡ true) × (has_user s l.uid ≡ true)

abbrev pub MessageIsValid : Storage → Message → Type 0
MessageIsValid s m = (has_chat s m.chat_to ≡ true) × (has_user s m.user_from ≡ true)

-- A user's own chat is stored, and the user is in it.
abbrev pub OwnsChat : Storage → User → Type 0
OwnsChat s u = (has_chat s u.self_chat_id ≡ true) × (is_member s u.self_chat_id u.id ≡ true)

-- The invariant: the counters are ahead of all identifiers, which are positive and distinct; user
-- names are distinct; links, messages and self chats refer to stored rows.
pub record IsValid (s : Storage) : Type 0 where
  pub user_ids : All (λ u. (0 < u.id) × (u.id < s.user_autoincrement)) s.users
  pub chat_ids : All (λ c. (0 < c.id) × (c.id < s.chat_autoincrement)) s.chats
  pub user_counter : (0 < s.user_autoincrement) × (0 < s.chat_autoincrement)
  pub user_ids_distinct : Distinct (map (λ u. u.id) s.users)
  pub chat_ids_distinct : Distinct (map (λ c. c.id) s.chats)
  pub user_names_distinct : Distinct (map (λ u. u.name) s.users)
  pub links : All (LinkIsValid s) s.chatuser
  pub self_chats : All (OwnsChat s) s.users
  pub message_keys : All (MessageIsValid s) s.messages

-- A later storage has at least the rows of an earlier one.
pub record Extends (s t : Storage) : Type 0 where
  pub chat_kept : (n : ℕ) → has_chat s n ≡ true → has_chat t n ≡ true
  pub user_kept : (n : ℕ) → has_user s n ≡ true → has_user t n ≡ true
  pub link_kept : (c u : ℕ) → is_member s c u ≡ true → is_member t c u ≡ true

pub Extends-refl : (s : Storage) → Extends s s
Extends-refl s = record { chat_kept = λ n h. h; user_kept = λ n h. h; link_kept = λ c u h. h }

module _ {s t : Storage} (e : Extends s t) where
  pub links_mono : (ls : List Chatuser) → All (LinkIsValid s) ls → All (LinkIsValid t) ls
  links_mono = All-mono (λ l h. (e.chat_kept l.chatid h.0, e.user_kept l.uid h.1))

  pub messages_mono : (ms : List Message) → All (MessageIsValid s) ms → All (MessageIsValid t) ms
  messages_mono = All-mono (λ m h. (e.chat_kept m.chat_to h.0, e.user_kept m.user_from h.1))

  pub self_chats_mono : (us : List User) → All (OwnsChat s) us → All (OwnsChat t) us
  self_chats_mono =
      All-mono (λ u h. (e.chat_kept u.self_chat_id h.0, e.link_kept u.self_chat_id u.id h.1))

pub ids_grow :
    {n m : ℕ}
    → n ≤ m
    → (us : List User) → All (λ u. (0 < u.id) × (u.id < n)) us
    → All (λ u. (0 < u.id) × (u.id < m)) us
ids_grow h = All-mono (λ u p. (p.0, omega arith))

pub chat_ids_grow :
    {n m : ℕ}
    → n ≤ m
    → (cs : List Chat) → All (λ c. (0 < c.id) × (c.id < n)) cs
    → All (λ c. (0 < c.id) × (c.id < m)) cs
chat_ids_grow h = All-mono (λ c p. (p.0, omega arith))

-- The first free identifier differs from all stored ones.
pub fresh_user :
    (n : ℕ) (us : List User)
    → All (λ u. (0 < u.id) × (u.id < n)) us
    → All (λ k. k ≢ n) (map (λ u. u.id) us)
fresh_user n us h = All-map _ _ us (All-mono (λ u p. omega arith) us h)

pub fresh_chat :
    (n : ℕ) (cs : List Chat)
    → All (λ c. (0 < c.id) × (c.id < n)) cs
    → All (λ k. k ≢ n) (map (λ c. c.id) cs)
fresh_chat n cs h = All-map _ _ cs (All-mono (λ c p. omega arith) cs h)

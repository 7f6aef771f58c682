-- ===== src/Db.antt =====
-- server/src/database.hpp: the tables of the in-memory storage and the types of their rows.
-- `InMemoryConnection` keeps its one `Storage` behind a mutex that every method holds, so each
-- operation of the children is one step on a `Storage`.
pub mod Users
pub mod Chats
pub mod Messages
pub mod Invariant
pub mod Lookup
use o2chat.Prelude.{ℕ, Bool, Bytes, List, [], ◌==◌, any}

-- `db::Chat`; the row `{}` has the id 0, which no stored row has.
pub record Chat : Type 0 where
  pub id : ℕ
  pub name : Bytes

abbrev pub no_chat : Chat
no_chat = record { id = 0; name = [] }

-- `db::User`
pub record User : Type 0 where
  pub id : ℕ
  pub self_chat_id : ℕ
  pub heartbit : ℕ
  pub name : Bytes
  pub password : Bytes
  pub stpath : Bytes

abbrev pub no_user : User
no_user = record { id = 0; self_chat_id = 0; heartbit = 0; name = []; password = []; stpath = [] }

-- `db::Chatuser`
pub record Chatuser : Type 0 where
  pub chatid : ℕ
  pub uid : ℕ

-- `db::get_msg_opt_t`
pub record GetMsgOpt : Type 0 where
  pub ts : ℕ
  pub max_count : ℕ

abbrev pub default_opt : GetMsgOpt
default_opt = record { ts = 0; max_count = 3 }

-- `db::Message::flags_t`
pub data Flags : Type 0 where
  unread read answered : Flags

-- `db::Message`
pub record Message : Type 0 where
  pub flags : Flags
  pub user_from : ℕ
  pub chat_to : ℕ
  pub ts : ℕ
  pub message : Bytes

-- `InMemoryConnection::Storage`; rows are appended, so the first row is the oldest.
pub record Storage : Type 0 where
  pub user_autoincrement : ℕ
  pub chat_autoincrement : ℕ
  pub chats : List Chat
  pub users : List User
  pub chatuser : List Chatuser
  pub messages : List Message

abbrev pub empty_storage : Storage
empty_storage = record {
  user_autoincrement = 1;
  chat_autoincrement = 1;
  chats = [];
  users = [];
  chatuser = [];
  messages = [];
}

-- Whether a row with an id is stored.
abbrev pub has_user : Storage → ℕ → Bool
has_user s uid = any (λ u. u.id == uid) s.users

abbrev pub has_chat : Storage → ℕ → Bool
has_chat s chatid = any (λ c. c.id == chatid) s.chats

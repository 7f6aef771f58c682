-- ===== src/Db/Users.antt =====
-- server/src/inmemory_dbconn.cpp: the operations on users.
use o2chat.Prelude.{
  ℕ, List, [], ◌∷◌, ◌++◌, Bytes, Option, none, some, ◌==◌, ◌=?◌, if◌then◌else◌, any, find?, select,
  inc64,
}
use o2chat.Db.{User, no_user, Storage}

-- The loop of `updateUserHeartBit`: the first row with the id is changed.
unfoldable pub set_heartbit : ℕ → ℕ → List User → List User
set_heartbit uid ts [] = []
set_heartbit uid ts (u ∷ us) =
    if u.id == uid then record u { heartbit = ts } ∷ us else u ∷ set_heartbit uid ts us

unfoldable pub update_user_heart_bit : Storage → User → ℕ → Storage
unfolding set_heartbit
update_user_heart_bit s user ts = record s { users = set_heartbit user.id ts s.users }

-- What `createUser` stores when no user has the name.
unfoldable pub store_user : Storage → Bytes → Bytes → Bytes → User × Storage
store_user s name pass stpath = (user, stored)
  where
    open s use {user_autoincrement, chat_autoincrement}

    user : User
    user = record {
      id = user_autoincrement;
      self_chat_id = chat_autoincrement;
      heartbit = 0;
      name = name;
      password = pass;
      stpath = stpath;
    }

    stored : Storage
    stored = record {
      user_autoincrement = inc64 user_autoincrement;
      chat_autoincrement = inc64 chat_autoincrement;
      chats = s.chats ++ record { id = chat_autoincrement; name = name } ∷ [];
      users = s.users ++ user ∷ [];
      chatuser =
          s.chatuser ++ record { chatid = chat_autoincrement; uid = user_autoincrement } ∷ [];
      messages = s.messages;
    }

-- `createUser`; the result `{}` says that the name is taken.
unfoldable pub create_user : Storage → Bytes → Bytes → Bytes → User × Storage
unfolding store_user
create_user s name pass stpath =
    if any (λ u. u.name =? name) s.users then (no_user, s) else store_user s name pass stpath

unfoldable pub lookup_user_by_name : Storage → Bytes → List User
lookup_user_by_name s name = select (λ u. u.name =? name) s.users

unfoldable pub or_no_user : Option User → User
or_no_user none = no_user
or_no_user (some u) = u

unfoldable pub lookup_user_by_id : Storage → ℕ → User
unfolding or_no_user
lookup_user_by_id s uid = or_no_user (find? (λ u. u.id == uid) s.users)

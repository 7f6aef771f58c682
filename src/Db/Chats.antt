-- ===== src/Db/Chats.antt =====
-- server/src/inmemory_dbconn.cpp: the operations on chats and their members.
use o2chat.Prelude.{
  ℕ, ltb, Bool, ◌&&◌, List, [], ◌∷◌, ◌++◌, map, Bytes, Option, none, some, ◌==◌, ◌=?◌,
  if◌then◌else◌, any, find?, select, inc64,
}
use o2chat.Db.{Chat, no_chat, User, Storage}
use o2chat.Db.Users.{lookup_user_by_id}

-- What `createChat` stores when no chat has the name; the creator joins unless `uid` is 0.
unfoldable pub store_chat : Storage → Bytes → ℕ → Chat × Storage
store_chat s name uid = (chat, stored)
  where
    open s use {chat_autoincrement}

    chat : Chat
    chat = record { id = chat_autoincrement; name = name }

    stored : Storage
    stored = record s {
      chat_autoincrement = inc64 chat_autoincrement;
      chats = s.chats ++ chat ∷ [];
      chatuser =
          if ltb 0 uid
          then s.chatuser ++ record { chatid = chat_autoincrement; uid = uid } ∷ []
          else s.chatuser;
    }

-- `createChat`; the result `{}` says that the name is taken.
unfoldable pub create_chat : Storage → Bytes → ℕ → Chat × Storage
unfolding store_chat
create_chat s name uid =
    if any (λ c. c.name =? name) s.chats then (no_chat, s) else store_chat s name uid

unfoldable pub or_no_chat : Option Chat → Chat
or_no_chat none = no_chat
or_no_chat (some c) = c

unfoldable pub lookup_chat_by_id : Storage → ℕ → Chat
unfolding or_no_chat
lookup_chat_by_id s chatid = or_no_chat (find? (λ c. c.id == chatid) s.chats)

unfoldable pub lookup_chat_by_name : Storage → Bytes → List Chat
lookup_chat_by_name s name = select (λ c. c.name =? name) s.chats

-- The two queries over the links take the lock once for the links and once for each row; no
-- operation removes a row.
unfoldable pub lookup_chats_for_user_id : Storage → ℕ → List Chat
lookup_chats_for_user_id s uid =
    map (λ l. lookup_chat_by_id s l.chatid) (select (λ l. l.uid == uid) s.chatuser)

unfoldable pub lookup_users_for_chat_id : Storage → ℕ → List User
lookup_users_for_chat_id s chatid =
    map (λ l. lookup_user_by_id s l.uid) (select (λ l. l.chatid == chatid) s.chatuser)

-- The test of `addUserToChat` on the links.
abbrev pub is_member : Storage → ℕ → ℕ → Bool
is_member s chatid uid = any (λ l. l.chatid == chatid && l.uid == uid) s.chatuser

unfoldable pub add_user_to_chat : Storage → Chat → User → Storage
add_user_to_chat s chat user =
    if is_member s chat.id user.id
    then s
    else record s { chatuser = s.chatuser ++ record { chatid = chat.id; uid = user.id } ∷ [] }

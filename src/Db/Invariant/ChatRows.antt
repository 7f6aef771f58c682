-- ===== src/Db/Invariant/ChatRows.antt =====
-- The operations of server/src/inmemory_dbconn.cpp on chats and links keep the invariant.
use mathlib.Core.List.{map-append}
use o2chat.Prelude.{
  ◌∷◌, [], ◌&&◌, any-append_left, ◌++◌, ℕ, ◌+◌, ◌<◌, true, Bytes, ◌≡◌, inl, inr, arith, ◌==◌,
  ==_refl, ◌=?◌, Bool-cases, any, All, All-append, Distinct-concat, any-concat_self, inc64_lem,
  u64_mod, ltb,
}
use o2chat.Db.{Chat, User, Storage, has_user}
use o2chat.Db.Chats.{create_chat, store_chat, add_user_to_chat, is_member}
use o2chat.Db.Invariant.{
  IsValid, LinkIsValid, Extends, links_mono, messages_mono, self_chats_mono, chat_ids_grow,
  fresh_chat,
}
use o2chat.Db.Invariant.UserRows.{chats_appended}

module _ (s : Storage) (name : Bytes) (uid : ℕ) (v : IsValid s) where
  pub store_chat-Extends : Extends s (store_chat s name uid).1
  unfolding store_chat
  store_chat-Extends = record {
    chat_kept = λ n h. chats_appended s _ n h;
    user_kept = λ n h. h;
    link_kept = λ c u h. elim (Bool-cases (ltb 0 uid)) [
      | inl joins ↦ rw joins (any-append_left (λ l. l.chatid == c && l.uid == u) s.chatuser _ h)
      | inr alone ↦ rw alone h
    ];
  }

  store_chat_links :
      (0 < uid → has_user s uid ≡ true)
      → All (LinkIsValid (store_chat s name uid).1) (store_chat s name uid).1.chatuser
  unfolding store_chat
  store_chat_links creator = elim (Bool-cases (ltb 0 uid)) [
    | inl joins ↦ rw joins (
        All-append (LinkIsValid (store_chat s name uid).1) s.chatuser _
          (links_mono store_chat-Extends s.chatuser v.links)
          (
            (
              any-concat_self (λ c. c.id == s.chat_autoincrement) s.chats
                  (record { id = s.chat_autoincrement; name = name })
                  (==_refl s.chat_autoincrement),
              creator (ground arith),
            ),
            tt,
          ))
    | inr alone ↦ rw alone (links_mono store_chat-Extends s.chatuser v.links)
  ]

  store_chat-IsValid :
      s.chat_autoincrement + 1 < u64_mod
      → (0 < uid → has_user s uid ≡ true)
      → IsValid (store_chat s name uid).1
  unfolding store_chat
  store_chat-IsValid hc creator =
      let ec = inc64_lem s.chat_autoincrement hc in
      record {
        user_ids = v.user_ids;
        chat_ids =
            All-append _ s.chats _ (chat_ids_grow (omega (arith, ec)) s.chats v.chat_ids)
              ((v.user_counter.1, omega (arith, ec)), tt);
        user_counter = (v.user_counter.0, omega (arith, ec));
        user_ids_distinct = v.user_ids_distinct;
        chat_ids_distinct = rw (map-append (λ (c : Chat). c.id)) (
            Distinct-concat _ _ v.chat_ids_distinct
              (fresh_chat s.chat_autoincrement s.chats v.chat_ids));
        user_names_distinct = v.user_names_distinct;
        links = store_chat_links creator;
        self_chats = self_chats_mono store_chat-Extends s.users v.self_chats;
        message_keys = messages_mono store_chat-Extends s.messages v.message_keys;
      }

  pub create_chat-IsValid :
      s.chat_autoincrement + 1 < u64_mod
      → (0 < uid → has_user s uid ≡ true)
      → IsValid (create_chat s name uid).1
  unfolding create_chat
  create_chat-IsValid hc creator = elim (Bool-cases (any (λ c. c.name =? name) s.chats)) [
    | inl taken ↦ rw taken v
    | inr new ↦ rw new (store_chat-IsValid hc creator)
  ]

pub add_user-IsValid :
    (s : Storage) (chat : Chat) (user : User)
    → LinkIsValid s (record { chatid = chat.id; uid = user.id })
    → IsValid s
    → IsValid (add_user_to_chat s chat user)
unfolding add_user_to_chat
add_user-IsValid s chat user link v = elim (Bool-cases (is_member s chat.id user.id)) [
  | inl old ↦ rw old v
  | inr new ↦ rw new (record {
    user_ids = v.user_ids;
    chat_ids = v.chat_ids;
    user_counter = v.user_counter;
    user_ids_distinct = v.user_ids_distinct;
    chat_ids_distinct = v.chat_ids_distinct;
    user_names_distinct = v.user_names_distinct;
    links = All-append (LinkIsValid s) s.chatuser _ v.links (link, tt);
    self_chats = self_chats_mono kept s.users v.self_chats;
    message_keys = v.message_keys;
  })
]
  where
    kept :
        Extends s
          (record s { chatuser = s.chatuser ++ record { chatid = chat.id; uid = user.id } ∷ [] })
    kept = record {
      chat_kept = λ n h. h;
      user_kept = λ n h. h;
      link_kept = λ c u h. any-append_left (λ l. l.chatid == c && l.uid == u) s.chatuser _ h;
    }

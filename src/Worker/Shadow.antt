-- ===== src/Worker/Shadow.antt =====
-- Group names and user names share the table of chats in server/src/inmemory_dbconn.cpp:
-- `createChat` refuses a name that any chat has, `createUser` looks at the names of users only.
use o2chat.Prelude.{
  ℕ, false, List, [], ◌∷◌, ◌++◌, Bytes, ◌≡◌, refl, ap, ◌∙◌, inl, inr, arith, ◌=?◌, =?_refl,
  Bool-cases, select-append, any, select,
}
use o2chat.Common.{Cmd}
use o2chat.Json.{External}
use o2chat.Text.Decimal.{encrypted_pass}
use o2chat.Db.{User, Chat, Storage}
use o2chat.Db.Users.{create_user, store_user, lookup_user_by_name}
use o2chat.Db.Chats.{lookup_chat_by_name}
use o2chat.Db.Messages.{save_message}
use o2chat.Worker.Tasks.{Task, err_no_chat, status_ok}
use o2chat.Worker.Auth.{IsAccepted, with_user_accepted}
use o2chat.Worker.Accounts.{at_cmd}
use o2chat.Worker.{
  process, process_task, user_create, message_send_chat, message_send_chat_to, new_message,
}

-- Without a user of the name, none of the rows has it.
free_name :
    (name : Bytes) (us : List User)
    → select (λ u. u.name =? name) us ≡ []
    → any (λ u. u.name =? name) us ≡ false
free_name name [] h = refl
free_name name (u ∷ us) h = elim (Bool-cases (u.name =? name)) [
  | inl e ↦ let bad : u ∷ select (λ w. w.name =? name) us ≡ [] = rw e at h in cc
  | inr e ↦ rw e (free_name name us (rw e at h))
]

module _ (lib : External) (now later : ℕ) (create send : Task) (s : Storage) (group : Chat) where
  user_create_storage :
      (user_create lib now create s).0
      ≡ (create_user s create.request.user
          (encrypted_pass lib create.request.password)
          create.storage).1
  unfolding user_create
  user_create_storage = ground arith

  stored_chats :
      lookup_user_by_name s create.request.user ≡ []
      → (create_user s create.request.user
          (encrypted_pass lib create.request.password)
          create.storage).1.chats
        ≡ s.chats ++ record { id = s.chat_autoincrement; name = create.request.user } ∷ []
  unfolding create_user store_user lookup_user_by_name
  stored_chats free = rw (free_name create.request.user s.users free)

  -- Registering a user of the group's name leaves two chats of that name.
  two_chats :
      lookup_user_by_name s create.request.user ≡ []
      → lookup_chat_by_name s create.request.user ≡ group ∷ []
      → lookup_chat_by_name (user_create lib now create s).0 create.request.user
        ≡ group ∷ record { id = s.chat_autoincrement; name = create.request.user } ∷ []
  unfolding lookup_chat_by_name
  two_chats free one = rw (
    user_create_storage,
    stored_chats free,
    select-append (λ (c : Chat). c.name =? create.request.user) s.chats,
    one,
    =?_refl create.request.user,
  )

  -- A group that takes messages stops taking them when anyone registers a user under its name, if no
  -- user has the name: a message of a user with the right password was stored before, and afterwards
  -- it is answered with "chat does not exist" and not stored.
  pub group_shadowed :
      (u w : User)
      → create.cmd ≡ Cmd.user_create
      → send.cmd ≡ Cmd.message_send_chat
      → send.request.chat_name ≡ create.request.user
      → lookup_user_by_name s create.request.user ≡ []
      → lookup_chat_by_name s create.request.user ≡ group ∷ []
      → IsAccepted lib send s u
      → IsAccepted lib send (process lib now create s).0 w
      → (process lib later send s
          ≡ (save_message s (new_message later u group.id send.request.message), status_ok ∷ []))
        × (process lib later send (process lib now create s).0
            ≡ ((process lib now create s).0, err_no_chat ∷ []))
  unfolding process_task message_send_chat message_send_chat_to
  group_shadowed u w is_create is_send same free one before after =
      let t = (process lib now create s).0 in
      let made : t ≡ (user_create lib now create s).0 =
        ap (λ r. r.0) (at_cmd lib now create s is_create) in
      let known : lookup_chat_by_name s send.request.chat_name ≡ group ∷ [] = rw same one in
      let doubled : lookup_chat_by_name t send.request.chat_name
          ≡ group ∷ record { id = s.chat_autoincrement; name = create.request.user } ∷ [] =
        rw (made, same) (two_chats free one) in
      (
        at_cmd lib later send s is_send
            ∙ with_user_accepted lib send s (λ u. message_send_chat later send u s) before
            ∙ ap (message_send_chat_to later send u s) known,
        at_cmd lib later send t is_send
            ∙ with_user_accepted lib send t (λ u. message_send_chat later send u t) after
            ∙ ap (message_send_chat_to later send w t) doubled,
      )

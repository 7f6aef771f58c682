-- ===== src/Tests/Storages.antt =====
-- server/src/inmemory_dbconn.cpp at storages that its own operations build.
use mathlib.Core.List.{reverse}
use o2chat.Prelude.{ℕ, [], ◌∷◌, codes, ◌≡◌, ◌≢◌, ◌⊎◌, arith}
use o2chat.Db.{Message, Flags, GetMsgOpt, Storage, empty_storage, no_user}
use o2chat.Db.Users.{create_user, lookup_user_by_name}
use o2chat.Db.Messages.{get_messages, is_recent}
use o2chat.Db.Messages.Reference.{mark_first, get_messages_lem}
use o2chat.Db.Invariant.{IsValid}
use o2chat.Db.Invariant.Preserved.{Op, apply, apply-IsValid, empty-IsValid}
use o2chat.Db.Lookup.{Created, create_user_lem}

abbrev add_alice : Op
add_alice = Op.new_user (codes "alice") (codes "17") (codes "localhost:3306")

abbrev alice_stored : Storage
alice_stored = apply empty_storage add_alice

alice_stored-IsValid : IsValid alice_stored
alice_stored-IsValid =
    apply-IsValid empty_storage add_alice empty-IsValid (omega arith, omega arith)

abbrev add_group : Op
add_group = Op.new_chat (codes "friends") 1

create_user_lem_example :
    ((lookup_user_by_name alice_stored (codes "bob") ≢ [])
      × (create_user alice_stored (codes "bob") (codes "5") [] ≡ (no_user, alice_stored)))
    ⊎ ((lookup_user_by_name alice_stored (codes "bob") ≡ [])
        × Created alice_stored
            (codes "bob")
            (codes "5")
            []
            (create_user alice_stored (codes "bob") (codes "5") []).0
            (create_user alice_stored (codes "bob") (codes "5") []).1)
create_user_lem_example =
    create_user_lem alice_stored (codes "bob") (codes "5") [] alice_stored-IsValid

abbrev text : ℕ → ℕ → ℕ → Message
text from to ts = record {
  flags = Flags.unread;
  user_from = from;
  chat_to = to;
  ts = ts;
  message = codes "hi";
}

abbrev four_messages : Storage
four_messages = record empty_storage {
  messages = text 1 1 10 ∷ text 1 2 11 ∷ text 2 1 12 ∷ text 1 1 13 ∷ [];
}

abbrev one_since_ten : GetMsgOpt
one_since_ten = record { ts = 10; max_count = 1 }

get_messages_lem_example :
    ((get_messages four_messages 1 one_since_ten).0 ≡ text 1 1 13 ∷ [])
    × ((get_messages four_messages 1 one_since_ten).1 ≡ record four_messages {
      messages =
          reverse (mark_first 1 (is_recent 1 one_since_ten) (reverse four_messages.messages));
    })
get_messages_lem_example = get_messages_lem four_messages 1 one_since_ten

-- ===== src/Client/Answers/RoundTrip.antt =====
-- server/src/apiclient_utils.cpp and client/src/apiclient_utils.cpp: the client reads in the answers what
-- the server put there. The hypothesis on rapidjson is that its parser reads back what its writer
-- wrote.
use o2chat.Prelude.{
  ℕ, ltb, true, List, [], ◌∷◌, c_str, ◌=?◌, some, ◌>>=◌, u64_mod, map, all, ◌≡◌, refl, ◌∙◌, arith,
}
use o2chat.Json.{uint, Items, cons, External, find_member}
use o2chat.Db.{User}
use o2chat.Responses.{
  ApiMessage, ok_body_user, user_json, ok_body_messages, messages_json, message_items, message_json,
}
use o2chat.Text.Strings.Cstr.{c_str_twice}
use o2chat.Client.Answers.{
  MsgResponse, member_uint, parse_response_aswer, parse_answer_document, parse_answer_members,
  parse_msg_response, parse_msg_document, parse_msgs, parse_items, parse_message,
}

member_small : (n old : ℕ) → ltb n u64_mod ≡ true → member_uint (some (uint n)) old ≡ some n
unfolding member_uint
member_small n old h = rw h refl

-- The answer to a login or to a status request gives the user's identifiers and times.
pub user_answered :
    (lib : External) (now : ℕ) (user : User)
    → lib.parse (c_str (ok_body_user lib now user)) ≡ some (user_json now user)
    → ltb user.id u64_mod ≡ true
    → ltb user.self_chat_id u64_mod ≡ true
    → ltb user.heartbit u64_mod ≡ true
    → ltb now u64_mod ≡ true
    → parse_response_aswer lib (ok_body_user lib now user)
      ≡ some (
        [],
        record {
          uid = user.id;
          chatid = user.self_chat_id;
          heartbit = user.heartbit;
          server_ts = now;
        },
      )
unfolding user_json parse_response_aswer parse_answer_document parse_answer_members find_member ◌=?◌
user_answered lib now user parsed hi hc hb ht =
    rw (parsed, parse_response_aswer)
      (rw (member_small user.id 0 hi) (
        rw (member_small user.self_chat_id 0 hc)
          (rw (member_small user.heartbit 0 hb) (rw (member_small now 0 ht) refl))))

-- What the client makes of a message of the server.
abbrev pub shown : ApiMessage → MsgResponse
shown m = record { ts = m.ts; from = c_str m.from; to = c_str m.to; msg = c_str m.msg }

message_read :
    (m : ApiMessage) (items : Items)
    → ltb m.ts u64_mod ≡ true
    → parse_items (cons (message_json m) items)
      ≡ (do rest ← parse_items items; some (rest.0, shown m ∷ rest.1))
unfolding message_json parse_items parse_message find_member ◌=?◌
message_read m items h =
    rw (member_small m.ts 0 h)
      (rw (c_str_twice m.from) (rw (c_str_twice m.to) (rw (c_str_twice m.msg) refl)))

items_read :
    (msgs : List ApiMessage)
    → all (λ m. ltb m.ts u64_mod) msgs ≡ true
    → parse_items (message_items msgs) ≡ some ([], map shown msgs)
unfolding message_items parse_items
items_read [] h = refl
items_read (m ∷ msgs) h =
    let first : ltb m.ts u64_mod ≡ true = ground (arith, h) in
    let rest : all (λ n. ltb n.ts u64_mod) msgs ≡ true = ground (arith, h) in
    message_read m (message_items msgs) first ∙ rw (items_read msgs rest) refl

-- The answer to a history request or to a poll gives the messages in their order.
pub messages_answered :
    (lib : External) (now : ℕ) (msgs : List ApiMessage)
    → lib.parse (c_str (ok_body_messages lib now msgs)) ≡ some (messages_json now msgs)
    → all (λ m. ltb m.ts u64_mod) msgs ≡ true
    → parse_msg_response lib (ok_body_messages lib now msgs) ≡ some ([], map shown msgs)
unfolding messages_json parse_msg_response parse_msg_document parse_msgs find_member ◌=?◌
messages_answered lib now msgs parsed small =
    rw (parsed, parse_msg_response) (items_read msgs small)

-- ===== src/Client/Answers.antt =====
-- client/src/apiclient_utils.cpp: what the client reads in the bodies of the answers. `none` is a failed
-- assertion of rapidjson, which ends the program: a member of a document that is no object, or the
-- value of a member of another type.
pub mod RoundTrip
use o2chat.Prelude.{
  ℕ, ltb, Bool, true, false, List, [], ◌∷◌, Bytes, codes, c_str, ◌=?◌, if◌then◌else◌, Option, none,
  some, ◌>>=◌, u64_mod, ◌≡◌, refl,
}
use o2chat.Json.{
  Json, uint, string, array, object, other, Items, nil, cons, Members, end, member, External,
  find_member,
}

-- `cli_utils::response_t`
pub record Answer : Type 0 where
  pub uid : ℕ
  pub chatid : ℕ
  pub heartbit : ℕ
  pub server_ts : ℕ

abbrev pub no_answer : Answer
no_answer = record { uid = 0; chatid = 0; heartbit = 0; server_ts = 0 }

-- `cli_utils::msg_response_t`
pub record MsgResponse : Type 0 where
  pub ts : ℕ
  pub from : Bytes
  pub to : Bytes
  pub msg : Bytes

-- `GetUint64` of a member that may be absent: the old value then.
unfoldable pub member_uint : Option Json → ℕ → Option ℕ
member_uint none old = some old
member_uint (some (uint n)) old = if ltb n u64_mod then some n else none
member_uint (some _) old = none

-- `GetString` of a member that may be absent, as a C string.
unfoldable pub member_string : Option Json → Bytes → Option Bytes
member_string none old = some old
member_string (some (string s)) old = some (c_str s)
member_string (some _) old = none

unfoldable pub parse_answer_members : Members → Option Answer
unfolding member_uint find_member
parse_answer_members ms = do
  uid ← member_uint (find_member (codes "id") ms) 0
  chatid ← member_uint (find_member (codes "chatid") ms) 0
  heartbit ← member_uint (find_member (codes "heartbit") ms) 0
  server_ts ← member_uint (find_member (codes "server_ts") ms) 0
  some (record { uid = uid; chatid = chatid; heartbit = heartbit; server_ts = server_ts })

-- The error, empty for success, and the answer.
unfoldable pub parse_answer_document : Option Json → Option (Bytes × Answer)
unfolding parse_answer_members
parse_answer_document none = some (codes "bad request, invalid json", no_answer)
parse_answer_document (some (object ms)) = do answer ← parse_answer_members ms; some ([], answer)
parse_answer_document (some _) = none

-- `parse_response_aswer`
unfoldable pub parse_response_aswer : External → Bytes → Option (Bytes × Answer)
unfolding parse_answer_document
parse_response_aswer lib json = parse_answer_document (lib.parse (c_str json))

unfoldable pub parse_message : Members → Option MsgResponse
unfolding member_uint member_string find_member
parse_message ms = do
  ts ← member_uint (find_member (codes "ts") ms) 0
  from ← member_string (find_member (codes "from") ms) []
  to ← member_string (find_member (codes "to") ms) []
  msg ← member_string (find_member (codes "message") ms) []
  some (record { ts = ts; from = from; to = to; msg = msg })

-- The loop over the array. An element that is no object ends it with an error; what was read stays.
unfoldable pub parse_items : Items → Option (Bytes × List MsgResponse)
unfolding parse_message
parse_items nil = some ([], [])
parse_items (cons (object ms) items) = do
  r ← parse_message ms
  rest ← parse_items items
  some (rest.0, r ∷ rest.1)
parse_items (cons _ items) = some (codes "bad format", [])

unfoldable pub parse_msgs : Option Json → Option (Bytes × List MsgResponse)
unfolding parse_items
parse_msgs none = some (codes "bad message", [])
parse_msgs (some (array items)) = parse_items items
parse_msgs (some _) = some (codes "bad format", [])

unfoldable pub parse_msg_document : Option Json → Option (Bytes × List MsgResponse)
unfolding parse_msgs find_member
parse_msg_document none = some (codes "bad request, invalid json", [])
parse_msg_document (some (object ms)) = parse_msgs (find_member (codes "msgs") ms)
parse_msg_document (some _) = none

-- `parse_msg_response`
unfoldable pub parse_msg_response : External → Bytes → Option (Bytes × List MsgResponse)
unfolding parse_msg_document
parse_msg_response lib json = parse_msg_document (lib.parse (c_str json))

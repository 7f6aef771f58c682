-- ===== src/Responses.antt =====
-- server/src/apiclient_utils.cpp: the password rule and the JSON bodies of the answers. `now` is
-- what `time(NULL)` gives.
use o2chat.Prelude.{
  ℕ, ltb, leb, Bool, false, ◌&&◌, ◌||◌, List, [], ◌∷◌, Bytes, codes, c_str, ◌==◌, all, length,
  if◌then◌else◌,
}
use o2chat.Common.{Cmd, cmd_code, ApiStatusCode, status_code}
use o2chat.Db.{User, Chat}
use o2chat.Json.{Json, uint, string, array, object, Items, nil, cons, end, member, External}

-- `apiclient_utils::Message`
pub record ApiMessage : Type 0 where
  pub ts : ℕ
  pub from : Bytes
  pub to : Bytes
  pub msg : Bytes

-- The character class of the pattern "^[a-zA-Z0-9_]*$".
unfoldable pub is_word : ℕ → Bool
is_word c =
    leb b'a' c && leb c b'z' || leb b'A' c && leb c b'Z' || leb b'0' c && leb c b'9' || c == b'_'

-- `password_check`
unfoldable pub password_check : Bytes → ℕ → Bool
unfolding is_word
password_check password min_len =
    if ltb (length password) min_len then false else all is_word password

-- `make_api_error`
unfoldable pub make_api_error : External → ApiStatusCode → Bytes → Bytes
make_api_error lib code desc = lib.write (
    object (
      member (codes "status") (uint (status_code code))
        (member (codes "error") (string (c_str desc)) end)))

-- The four overloads of `build_api_ok_response_body`.
unfoldable pub ok_body_command : External → ℕ → Cmd → Bytes
ok_body_command lib now command = lib.write (
    object
      (member (codes "cmd") (uint (cmd_code command)) (member (codes "server_ts") (uint now) end)))

unfoldable pub user_json : ℕ → User → Json
user_json now user = object (
    member (codes "id") (uint user.id) (
      member (codes "chatid") (uint user.self_chat_id) (
        member (codes "heartbit") (uint user.heartbit) (
          member (codes "name") (string (c_str user.name))
            (member (codes "server_ts") (uint now) end)))))

unfoldable pub ok_body_user : External → ℕ → User → Bytes
unfolding user_json
ok_body_user lib now user = lib.write (user_json now user)

unfoldable pub ok_body_chat : External → ℕ → Chat → Bytes
ok_body_chat lib now chat = lib.write (
    object (
      member (codes "chatid") (uint chat.id) (
        member (codes "name") (string (c_str chat.name))
          (member (codes "server_ts") (uint now) end))))

unfoldable pub message_json : ApiMessage → Json
message_json m = object (
    member (codes "from") (string (c_str m.from)) (
      member (codes "to") (string (c_str m.to))
        (member (codes "message") (string (c_str m.msg)) (member (codes "ts") (uint m.ts) end))))

unfoldable pub message_items : List ApiMessage → Items
unfolding message_json
message_items [] = nil
message_items (m ∷ ms) = cons (message_json m) (message_items ms)

unfoldable pub messages_json : ℕ → List ApiMessage → Json
unfolding message_items
messages_json now msgs =
    object (
      member (codes "server_ts") (uint now)
        (member (codes "msgs") (array (message_items msgs)) end))

unfoldable pub ok_body_messages : External → ℕ → List ApiMessage → Bytes
unfolding messages_json
ok_body_messages lib now msgs = lib.write (messages_json now msgs)

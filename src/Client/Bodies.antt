-- ===== src/Client/Bodies.antt =====
-- client/src/apiclient_utils.cpp: the requests of the client and their JSON bodies. The numbers are of
-- type `uint64_t`.
use o2chat.Prelude.{ℕ, Bytes, codes, c_str, is_empty, ◌++◌, ◌==◌, length, if◌then◌else◌}
use o2chat.Json.{Json, uint, string, object, end, member, External}
use o2chat.Text.Decimal.{to_string}

-- `build_request`
unfoldable pub build_request : Bytes → Bytes → Bytes → Bytes
build_request resource content_type body =
    codes "POST "
    ++ resource
    ++ codes " HTTP/1.1\r\n"
    ++ (codes "Content-Length: " ++ to_string (length body) ++ codes "\r\n")
    ++ (codes "Content-Type: " ++ content_type ++ codes "\r\n")
    ++ codes "\r\n"
    ++ body

-- `build_user_history_msg_body`
unfoldable pub history_json : ℕ → Bytes → ℕ → Bytes → Json
history_json from name count pass = object (
    member (codes "uid") (uint from) (
      member (codes "user") (string (c_str name)) (
        member (codes "count") (uint count) (member (codes "password") (string (c_str pass)) end))))

unfoldable pub build_user_history_msg_body : External → ℕ → Bytes → ℕ → Bytes → Bytes
unfolding history_json
build_user_history_msg_body lib from name count pass = lib.write (history_json from name count pass)

-- `build_user_pass_body`
unfoldable pub user_pass_json : Bytes → Bytes → Json
user_pass_json user pass = object (
    member (codes "user") (string (c_str user))
      (member (codes "password") (string (c_str pass)) end))

unfoldable pub build_user_pass_body : External → Bytes → Bytes → Bytes
unfolding user_pass_json
build_user_pass_body lib user pass = lib.write (user_pass_json user pass)

-- `build_user_send_msg_body`
unfoldable pub send_msg_json : ℕ → ℕ → Bytes → Bytes → Bytes → Json
send_msg_json from ts to msg pass =
    let tail = member (codes "to") (string (c_str to)) (
      member (codes "message") (string (c_str msg))
        (member (codes "password") (string (c_str pass)) end)) in
    object (
      member (codes "uid") (uint from)
        (if ts == 0 then tail else member (codes "heartbit") (uint ts) tail))

unfoldable pub build_user_send_msg_body : External → ℕ → ℕ → Bytes → Bytes → Bytes → Bytes
unfolding send_msg_json
build_user_send_msg_body lib from ts to msg pass = lib.write (send_msg_json from ts to msg pass)

-- `build_groups_msg_body`
unfoldable pub groups_msg_json : ℕ → Bytes → Bytes → Bytes → Bytes → Json
groups_msg_json from groupname username message pass =
    let tail = member (codes "password") (string (c_str pass)) end in
    let with_message =
      if is_empty message then tail else member (codes "message") (string (c_str message)) tail in
    object (
      member (codes "uid") (uint from) (
        member (codes "chatname") (string (c_str groupname)) (
          if is_empty username
          then with_message
          else member (codes "adduser") (string (c_str username)) with_message)))

unfoldable pub build_groups_msg_body : External → ℕ → Bytes → Bytes → Bytes → Bytes → Bytes
unfolding groups_msg_json
build_groups_msg_body lib from groupname username message pass =
    lib.write (groups_msg_json from groupname username message pass)

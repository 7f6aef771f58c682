-- ===== src/Api/Meta.antt =====
-- server/src/apiclient.cpp: `parse_meta`, which reads the JSON body of a request into the details
-- that the connection keeps. It is read in place, so a request that is refused leaves what was read
-- before the refusal, and a field that a request leaves out keeps the value of the last request.
pub mod Table
pub mod Steps
pub mod Complete
use o2chat.Prelude.{
  ℕ, ltb, ◌^◌, Bool, true, false, not, List, [], ◌∷◌, ◌++◌, Bytes, codes, c_str, is_empty, ◌=?◌,
  if◌then◌else◌, Option, none, some, ◌⊎◌, inl, inr, u32_mod,
}
use o2chat.Common.{Cmd}
use o2chat.Json.{Json, uint, string, array, object, other, Members, External, find_member}
use o2chat.Request.{Params, RequestDetails}
use o2chat.Responses.{password_check}

-- The message of an error, empty for success, and the details as they are then.
abbrev pub Parsed : Type 0
Parsed = Bytes × RequestDetails

-- `find_required_string_param` and the `GetString` behind it: the error, or the value.
string_value : Bytes → Option Json → Bytes ⊎ Bytes
string_value pattern none = inl (codes "bad request, " ++ pattern ++ codes " required")
string_value pattern (some (string s)) =
    if is_empty (c_str s)
    then inl (codes "bad request, " ++ pattern ++ codes " is empty")
    else inr (c_str s)
string_value pattern (some _) = inl (codes "bad request, " ++ pattern ++ codes " is not string")

unfoldable pub find_required_string_param : Members → Bytes → Bytes ⊎ Bytes
unfolding string_value
find_required_string_param ms pattern = string_value pattern (find_member pattern ms)

-- `find_required_uint_param` and the `GetUint` behind it.
uint_value : Bytes → Option Json → Bytes ⊎ ℕ
uint_value pattern none = inl (codes "bad request, " ++ pattern ++ codes " required")
uint_value pattern (some (uint n)) =
    if ltb n u32_mod then inr n else inl (codes "bad request, " ++ pattern ++ codes " is not uint")
uint_value pattern (some _) = inl (codes "bad request, " ++ pattern ++ codes " is not uint")

unfoldable pub find_required_uint_param : Members → Bytes → Bytes ⊎ ℕ
unfolding uint_value
find_required_uint_param ms pattern = uint_value pattern (find_member pattern ms)

-- What follows a field that is required: the error ends the parse, the value goes on.
unfoldable pub require {ℓ} : {A : Type ℓ} → Bytes ⊎ A → RequestDetails → (A → Parsed) → Parsed
require (inl err) d next = (err, d)
require (inr a) d next = next a

-- A field that may be absent or of another type.
unfoldable pub optional {ℓ} :
    {A : Type ℓ} → Bytes ⊎ A → RequestDetails → (A → RequestDetails) → Parsed
optional (inl err) d set = ([], d)
optional (inr a) d set = ([], set a)

abbrev pub set_params : RequestDetails → Params → RequestDetails
set_params d p = record d { params = p }

-- The smallest length of a password, from the option `pass_len` by its bit pattern as an `int`.
unfoldable pub min_len : ℕ → ℕ
min_len pass_len = if ltb pass_len (2 ^ 31) then pass_len else 8

-- The branch of `USER_CREATE` and `USER_LOGIN`.
unfoldable pub parse_account : ℕ → Bool → Members → RequestDetails → Parsed
parse_account pass_len create ms d =
    require (find_required_string_param ms (codes "user")) d (λ user.
      let d' = set_params d (record d.params { user = user }) in
      if not create
      then ([], d')
      else if not (password_check d'.params.password (min_len pass_len))
      then (codes "weak password", d')
      else ([], d'))

-- The branch of `CHAT_CREATE` and `CHAT_ADDUSER`.
unfoldable pub parse_chat : Bool → Members → RequestDetails → Parsed
parse_chat adduser ms d = require (find_required_string_param ms (codes "chatname")) d (λ name.
    let d' = set_params d (record d.params { chat_name = name }) in
    if not adduser
    then ([], d')
    else require (find_required_string_param ms (codes "adduser")) d'
        (λ added. ([], set_params d' (record d'.params { chat_adduser = added }))))

-- The branch of `USER_HISTORY` and `USER_STATUS`.
unfoldable pub parse_about : Members → RequestDetails → Parsed
parse_about ms d = require (find_required_string_param ms (codes "user")) d (λ user.
    let d' = set_params d (record d.params { user = user }) in
    optional (find_required_uint_param ms (codes "count")) d'
      (λ count. set_params d' (record d'.params { count = count })))

-- The branch of `MESSAGE_SEND` and `MESSAGE_SEND_CHAT`.
unfoldable pub parse_send : Bool → Members → RequestDetails → Parsed
parse_send to_user ms d = require (find_required_string_param ms (codes "message")) d (λ text.
    let d' = set_params d (record d.params { message = text }) in
    if to_user
    then require (find_required_string_param ms (codes "to")) d'
        (λ to. ([], set_params d' (record d'.params { to_user = to })))
    else require (find_required_string_param ms (codes "chatname")) d'
        (λ name. ([], set_params d' (record d'.params { chat_name = name }))))

-- What stands behind `uid`.
unfoldable pub parse_own : Cmd → Members → RequestDetails → Parsed
parse_own Cmd.chat_create ms d = parse_chat false ms d
parse_own Cmd.chat_adduser ms d = parse_chat true ms d
parse_own Cmd.idle ms d =
    optional (find_required_uint_param ms (codes "heartbit")) d
      (λ ts. set_params d (record d.params { ts = ts }))
parse_own Cmd.user_history ms d = parse_about ms d
parse_own Cmd.user_status ms d = parse_about ms d
parse_own Cmd.message_send ms d = parse_send true ms d
parse_own Cmd.message_send_chat ms d = parse_send false ms d
parse_own _ ms d = ([], d)

-- `uid`, and what stands behind it.
unfoldable pub parse_uid : Cmd → Members → RequestDetails → Parsed
parse_uid command ms d =
    require (find_required_uint_param ms (codes "uid")) d
      (λ uid. parse_own command ms (set_params d (record d.params { uid = uid })))

-- What stands behind `password`.
unfoldable pub parse_command : ℕ → Cmd → Members → RequestDetails → Parsed
parse_command pass_len Cmd.user_create ms d = parse_account pass_len true ms d
parse_command pass_len Cmd.user_login ms d = parse_account pass_len false ms d
parse_command pass_len command ms d = parse_uid command ms d

unfoldable pub parse_members : ℕ → Cmd → Members → RequestDetails → Parsed
parse_members pass_len command ms d =
    require (find_required_string_param ms (codes "password")) d (λ password.
      parse_command pass_len command ms (set_params d (record d.params { password = password })))

unfoldable pub parse_document : ℕ → Cmd → RequestDetails → Option Json → Option Parsed
parse_document pass_len command d none = some (codes "bad request, invalid json", d)
parse_document pass_len command d (some (object ms)) = some (parse_members pass_len command ms d)
parse_document pass_len command d (some _) = none

-- `parse_meta`. `none` is the failed assertion of `FindMember` on a document that is no object.
unfoldable pub parse_meta : External → ℕ → RequestDetails → Bytes → Cmd → Option Parsed
unfolding parse_document
parse_meta lib pass_len d json command = parse_document pass_len command d (lib.parse (c_str json))

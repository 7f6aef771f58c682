-- ===== src/Api/Meta/Table.antt =====
-- The protocol of server/src/apiclient.cpp as a table: the keys that each command wants in a body,
-- and the parameters that it takes from them.
use o2chat.Prelude.{
  ℕ, ltb, Bool, true, false, not, List, [], ◌∷◌, Bytes, codes, c_str, is_empty, ◌=?◌, ◌&&◌, ◌||◌,
  all, any, if◌then◌else◌, Option, none, some, u32_mod,
}
use o2chat.Common.{Cmd}
use o2chat.Json.{Json, uint, string, Members, find_member}
use o2chat.Request.{Params}
use o2chat.Responses.{password_check}
use o2chat.Api.Meta.{min_len}

-- The text under a key, if there is one that is not empty up to its first NUL.
unfoldable pub text : Option Json → Option Bytes
text (some (string s)) = if is_empty (c_str s) then none else some (c_str s)
text _ = none

-- The number under a key, if it fits in 32 bits.
unfoldable pub number : Option Json → Option ℕ
number (some (uint n)) = if ltb n u32_mod then some n else none
number _ = none

abbrev pub is_some {ℓ} : {A : Type ℓ} → Option A → Bool
is_some none = false
is_some (some a) = true

abbrev pub or_old {ℓ} : {A : Type ℓ} → Option A → A → A
or_old none old = old
or_old (some a) old = a

-- The strings that a command wants behind the password.
abbrev pub wanted : Cmd → List Bytes
wanted Cmd.user_create = codes "user" ∷ []
wanted Cmd.user_login = codes "user" ∷ []
wanted Cmd.user_history = codes "user" ∷ []
wanted Cmd.user_status = codes "user" ∷ []
wanted Cmd.chat_create = codes "chatname" ∷ []
wanted Cmd.chat_adduser = codes "chatname" ∷ codes "adduser" ∷ []
wanted Cmd.message_send = codes "message" ∷ codes "to" ∷ []
wanted Cmd.message_send_chat = codes "message" ∷ codes "chatname" ∷ []
wanted _ = []

-- The commands that name their user by an identifier, and the numbers that they may leave out.
abbrev pub has_uid : Cmd → Bool
has_uid Cmd.user_create = false
has_uid Cmd.user_login = false
has_uid _ = true

abbrev pub allowed : Cmd → List Bytes
allowed Cmd.user_history = codes "count" ∷ []
allowed Cmd.user_status = codes "count" ∷ []
allowed Cmd.idle = codes "heartbit" ∷ []
allowed _ = []

abbrev pub is_create : Cmd → Bool
is_create Cmd.user_create = true
is_create _ = false

-- A field behind an accepted request: what the body has under its key, if the command reads it.
abbrev pub read_text : Cmd → Members → Bytes → Bytes → Bytes
read_text command ms key old =
    if any (λ k. k =? key) (wanted command) then or_old (text (find_member key ms)) old else old

abbrev pub read_number : Cmd → Members → Bytes → ℕ → ℕ
read_number command ms key old =
    if any (λ k. k =? key) (allowed command) then or_old (number (find_member key ms)) old else old

-- The parameters behind an accepted request.
unfoldable pub filled : Cmd → Members → Params → Params
unfolding text number ◌=?◌
filled command ms p = record {
  uid = if has_uid command then or_old (number (find_member (codes "uid") ms)) p.uid else p.uid;
  ts = read_number command ms (codes "heartbit") p.ts;
  count = read_number command ms (codes "count") p.count;
  message = read_text command ms (codes "message") p.message;
  to_user = read_text command ms (codes "to") p.to_user;
  user = read_text command ms (codes "user") p.user;
  password = or_old (text (find_member (codes "password") ms)) p.password;
  chat_name = read_text command ms (codes "chatname") p.chat_name;
  chat_adduser = read_text command ms (codes "adduser") p.chat_adduser;
}

-- Whether a body has what the command wants.
unfoldable pub is_complete : ℕ → Cmd → Members → Bool
unfolding text number min_len
is_complete pass_len command ms =
    is_some (text (find_member (codes "password") ms))
    && ((not (has_uid command) || is_some (number (find_member (codes "uid") ms)))
        && (all (λ key. is_some (text (find_member key ms))) (wanted command)
            && (not (is_create command)
                || password_check (or_old (text (find_member (codes "password") ms)) [])
                    (min_len pass_len))))

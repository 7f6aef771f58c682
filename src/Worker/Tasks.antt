-- ===== src/Worker/Tasks.antt =====
-- server/src/database_worker.cpp: tasks, replies, and the two checks that begin a branch.
use o2chat.Prelude.{ℕ, Bool, not, List, [], ◌∷◌, Bytes, codes, ◌==◌, ◌=?◌, ◌&&◌, if◌then◌else◌}
use o2chat.Common.{Cmd, ApiStatusCode}
use o2chat.Json.{External}
use o2chat.Request.{Params}
use o2chat.Responses.{ApiMessage}
use o2chat.Text.Decimal.{encrypted_pass}
use o2chat.Db.{User, no_user, Storage}
use o2chat.Db.Users.{lookup_user_by_name, lookup_user_by_id}

-- `db::Task`; `client` names the connection that asked.
pub record Task : Type 0 where
  pub ping : Bool
  pub cmd : Cmd
  pub request : Params
  pub client : ℕ
  pub storage : Bytes

-- The methods of `ApiClient` that a worker calls on `task.client`.
pub data Reply : Type 0 where
  error : ℕ → ApiStatusCode → Bytes → Reply
  ok : Bytes → Reply
  messages : List ApiMessage → Reply
  idle_messages : List ApiMessage → Reply

abbrev pub err_no_user : Reply
err_no_user = Reply.error 409 ApiStatusCode.err_constraint (codes "user does not exist")

abbrev pub err_password : Reply
err_password = Reply.error 403 ApiStatusCode.err_constraint (codes "wrong password")

abbrev pub err_unknown_name : Reply
err_unknown_name = Reply.error 404 ApiStatusCode.err_not_found (codes "user does not exist")

abbrev pub err_ambiguous : Reply
err_ambiguous =
    Reply.error 500 ApiStatusCode.err_internal (codes "more than one user with that name")

abbrev pub err_no_chat : Reply
err_no_chat = Reply.error 404 ApiStatusCode.err_not_found (codes "chat does not exist")

abbrev pub status_ok : Reply
status_ok = Reply.ok (codes "{\"status\": 0}")

-- `lookup_check_pass`: the user, or `{}` with the error that was sent.
unfoldable pub lookup_check_pass : External → Task → Storage → User × List Reply
lookup_check_pass lib task s =
    let user = lookup_user_by_id s task.request.uid in
    if user.id == 0
    then (no_user, err_no_user ∷ [])
    else if not (encrypted_pass lib task.request.password =? user.password)
    then (no_user, err_password ∷ [])
    else (user, [])

unfoldable pub check_found : External → List User → Task → Bool → User × List Reply
check_found lib [] task check_pass = (no_user, err_unknown_name ∷ [])
check_found lib (user ∷ []) task check_pass =
    if check_pass && not (encrypted_pass lib task.request.password =? user.password)
    then (no_user, err_password ∷ [])
    else (user, [])
check_found lib (user ∷ other ∷ rest) task check_pass = (no_user, err_ambiguous ∷ [])

-- `lookup_check_pass_by_name`
unfoldable pub lookup_check_pass_by_name :
    External → Bytes → Task → Storage → Bool → User × List Reply
unfolding check_found
lookup_check_pass_by_name lib name task s check_pass =
    check_found lib (lookup_user_by_name s name) task check_pass

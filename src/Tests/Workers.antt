-- ===== src/Tests/Workers.antt =====
-- server/src/database_worker.cpp at small storages, with a checksum that counts the bytes.
use o2chat.Worker.History.{history_lem, IsFalling}
use o2chat.Prelude.{
  ◌≤◌, ◌||◌, All, true, false, [], ◌∷◌, Bytes, codes, ◌≡◌, ◌≢◌, ◌⊎◌, inr, refl, arith, none, length,
  some, =?_false, if◌then◌else◌, inc64, ◌=?◌,
}
use o2chat.Common.{Cmd, ApiStatusCode}
use o2chat.Json.{External}
use o2chat.Request.{Params, no_params}
use o2chat.Responses.{ok_body_user, make_api_error}
use o2chat.Text.Decimal.{encrypted_pass}
use o2chat.Db.{User, Storage, empty_storage}
use o2chat.Db.Chats.{lookup_chat_by_name, create_chat}
use o2chat.Db.Users.{create_user, lookup_user_by_name, lookup_user_by_id}
use o2chat.Db.Messages.{save_message}
use o2chat.Db.Invariant.{IsValid}
use o2chat.Db.Invariant.Preserved.{Op, apply, apply-IsValid, empty-IsValid}
use o2chat.Db.Lookup.{Created}
use o2chat.Worker.{history, is_sent, process, user_create, new_message}
use o2chat.Worker.Tasks.{Task, Reply, err_password, err_no_chat, status_ok, lookup_check_pass}
use o2chat.Worker.Auth.{IsAccepted}
use o2chat.Worker.Refusal.{process_refuses, refusal}
use o2chat.Worker.Replies.{process-answers}
use o2chat.Worker.Keeps.{process-IsValid}
use o2chat.Worker.Accounts.{register_login, err_taken}
use o2chat.Worker.Shadow.{group_shadowed}
use o2chat.Http.Reply.{HttpReply}
use o2chat.Client.Session.Refused.{Arrives, told, refusal_shown}
use o2chat.Client.Session.{Channel}
use o2chat.Client.Session.Http.{Event, handle}
use o2chat.Tests.Parties.{server, session}

abbrev lib : External
lib = record { write = λ j. []; parse = λ s. none; checksum = length }

abbrev task : Cmd → Params → Task
task cmd request = record {
  ping = false;
  cmd = cmd;
  request = request;
  client = 1;
  storage = codes "localhost:3306";
}

abbrev add_alice : Op
add_alice = Op.new_user (codes "alice") (codes "8") (codes "localhost:3306")

abbrev alice_stored : Storage
alice_stored = apply empty_storage add_alice

alice_stored-IsValid : IsValid alice_stored
alice_stored-IsValid =
    apply-IsValid empty_storage add_alice empty-IsValid (omega arith, omega arith)

abbrev group_stored : Storage
group_stored = apply alice_stored (Op.new_chat (codes "friends") 1)

-- A message of alice to the group, with a password of another length.
abbrev wrong_send : Task
wrong_send = task Cmd.message_send_chat (record no_params {
  uid = 1;
  password = codes "short";
  chat_name = codes "friends";
  message = codes "hi";
})

abbrev send : Task
send = record wrong_send { request = record wrong_send.request { password = codes "password" } }

abbrev register : Bytes → Bytes → Task
register name password =
    task Cmd.user_create (record no_params { user = name; password = password })

abbrev login : Bytes → Bytes → Task
login name password = task Cmd.user_login (record no_params { user = name; password = password })

process_refuses_example :
    process lib 50 wrong_send alice_stored ≡ (alice_stored, refusal wrong_send alice_stored ∷ [])
unfolding apply create_user lookup_user_by_id encrypted_pass ◌=?◌ inc64
process_refuses_example =
    process_refuses lib 50 wrong_send alice_stored alice_stored-IsValid refl
      (inr (=?_false _ _ refl))

process-answers_example : length (process lib 50 wrong_send alice_stored).1 ≡ 1
process-answers_example = process-answers lib 50 wrong_send alice_stored alice_stored-IsValid

process-IsValid_example :
    IsValid (process lib 50 (register (codes "bob") (codes "password")) alice_stored).0
unfolding apply create_user inc64
process-IsValid_example =
    process-IsValid lib 50 (register (codes "bob") (codes "password")) alice_stored
      alice_stored-IsValid (record { users_left = omega arith; chats_left = omega arith })

abbrev alice_row : Storage → User
alice_row s = lookup_user_by_id s 1

register_login_example :
    let create = register (codes "bob") (codes "12345678") in
    let again = login (codes "bob") (codes "abcdefgh") in
    let digest = encrypted_pass lib (codes "12345678") in
    ((lookup_user_by_name alice_stored (codes "bob") ≢ [])
      × (process lib 50 create alice_stored ≡ (alice_stored, err_taken ∷ [])))
    ⊎ ((lookup_user_by_name alice_stored (codes "bob") ≡ [])
        × ((u : User) × (t : Storage) × Created alice_stored
              (codes "bob")
              digest
              (codes "localhost:3306")
              u
              t
            × (process lib 50 create alice_stored ≡ (t, Reply.ok (ok_body_user lib 50 u) ∷ []))
            × (process lib 60 again t ≡ (
              t,
              (if encrypted_pass lib (codes "abcdefgh") =? digest
                    then Reply.ok (ok_body_user lib 60 u)
                    else err_password)
                  ∷ [],
            ))))
register_login_example =
    register_login lib 50 60 (register (codes "bob") (codes "12345678"))
      (login (codes "bob") (codes "abcdefgh")) alice_stored alice_stored-IsValid refl refl refl

-- Someone registers under the name of the group.
abbrev squatted : Storage
squatted = (process lib 50 (register (codes "friends") (codes "12345678")) group_stored).0

IsAccepted-before : IsAccepted lib send group_stored (alice_row group_stored)
unfolding apply create_user create_chat lookup_user_by_id encrypted_pass ◌=?◌ inc64
IsAccepted-before = record {
  looked_up = refl;
  numbered = refl;
  positive = omega arith;
  is_stored = refl;
  own_chat = (refl, refl);
  secret = refl;
}

IsAccepted-after : IsAccepted lib send squatted (alice_row squatted)
unfolding apply create_user create_chat lookup_user_by_id encrypted_pass ◌=?◌ inc64 process
    user_create
IsAccepted-after = record {
  looked_up = refl;
  numbered = refl;
  positive = omega arith;
  is_stored = refl;
  own_chat = (refl, refl);
  secret = refl;
}

group_shadowed_example :
    (process lib 60 send group_stored ≡ (
      save_message group_stored (new_message 60 (alice_row group_stored) 2 (codes "hi")),
      status_ok ∷ [],
    ))
    × (process lib 60 send squatted ≡ (squatted, err_no_chat ∷ []))
unfolding apply create_user create_chat lookup_user_by_name lookup_chat_by_name ◌=?◌ inc64
group_shadowed_example =
    group_shadowed lib 50 60 (register (codes "friends") (codes "12345678")) send group_stored
      (record { id = 2; name = codes "friends" }) (alice_row group_stored) (alice_row squatted) refl
      refl refl refl refl IsAccepted-before IsAccepted-after

-- Alice wrote to herself three times.
abbrev alice : User
alice = lookup_user_by_id alice_stored 1

abbrev diary : Storage
diary = record alice_stored {
  messages =
      new_message 41 alice 1 (codes "a")
      ∷ new_message 43 alice 1 (codes "c")
      ∷ new_message 42 alice 1 (codes "b")
      ∷ [];
}

history_lem_example :
    (length (history diary alice alice 2) ≤ 2)
    × IsFalling (history diary alice alice 2)
    × All
        (λ m. (is_sent alice alice m || is_sent alice alice m) ≡ true)
        (history diary alice alice 2)
history_lem_example = history_lem diary alice alice 2

refusal_shown_example :
    let body = make_api_error lib ApiStatusCode.err_constraint (codes "wrong password") in
    (reply : HttpReply) × Arrives lib
      (λ z. none)
      51
      server
      (Reply.error 403 ApiStatusCode.err_constraint (codes "wrong password"))
      reply
      (codes "HTTP")
    × (handle lib session (Event.answered Channel.http false false reply)
        ≡ some (told session Channel.http 403 body))
unfolding make_api_error process lookup_check_pass lookup_user_by_id apply create_user ◌=?◌
    encrypted_pass
refusal_shown_example =
    refusal_shown lib (λ z. none) 51 wrong_send alice_stored server session false 403
      ApiStatusCode.err_constraint (codes "wrong password") (codes "HTTP") refl (omega arith)

-- ===== src/Tests/Pools.antt =====
-- server/src/database_worker.cpp with two workers that take turns.
use o2chat.Prelude.{
  ◌+◌, Bool, false, List, [], ◌∷◌, ◌++◌, codes, none, length, refl, ◌≡◌, arith, inc64, ◌=?◌,
}
use o2chat.Common.{Cmd}
use o2chat.Json.{External}
use o2chat.Request.{no_params}
use o2chat.Queue.{empty}
use o2chat.Db.{Storage, empty_storage}
use o2chat.Db.Users.{create_user, store_user, lookup_user_by_name, lookup_user_by_id}
use o2chat.Db.Messages.{save_message}
use o2chat.Db.Invariant.{IsValid}
use o2chat.Db.Invariant.Preserved.{Op, apply, apply-IsValid, empty-IsValid}
use o2chat.Text.Decimal.{encrypted_pass}
use o2chat.Worker.Tasks.{Task, lookup_check_pass}
use o2chat.Worker.Program.{send_program, check_pass, save_program}
use o2chat.Worker.Program.Acked.{HasSent}
use o2chat.Worker.Pool.{PoolEvent, Output, new_pool, run_pool}
use o2chat.Worker.Pool.Sound.{HasRoomFor, run_pool-IsValid, run_pool_sent}
use o2chat.Worker.Pool.Once.{taken, done, in_work, how_many, run_pool_once}

abbrev lib : External
lib = record { write = λ j. []; parse = λ s. none; checksum = length }

abbrev add_alice : Op
add_alice = Op.new_user (codes "alice") (codes "8") (codes "localhost:3306")

abbrev alice_stored : Storage
alice_stored = apply empty_storage add_alice

alice_stored-IsValid : IsValid alice_stored
alice_stored-IsValid =
    apply-IsValid empty_storage add_alice empty-IsValid (omega arith, omega arith)

abbrev send : Task
send = record {
  ping = false;
  cmd = Cmd.message_send;
  request = record no_params {
    uid = 1;
    password = codes "password";
    to_user = codes "alice";
    message = codes "hi";
  };
  client = 1;
  storage = codes "localhost:3306";
}

abbrev register : Task
register = record send {
  cmd = Cmd.user_create;
  request = record no_params { user = codes "bob"; password = codes "password" };
}

-- The second worker stores a user between two calls of the first.
abbrev events : List PoolEvent
events =
    PoolEvent.puts send
    ∷ PoolEvent.puts register
    ∷ PoolEvent.turns 0 50
    ∷ PoolEvent.turns 1 50
    ∷ PoolEvent.turns 0 51
    ∷ PoolEvent.turns 1 51
    ∷ PoolEvent.turns 0 51
    ∷ PoolEvent.turns 0 52
    ∷ PoolEvent.turns 0 52
    ∷ PoolEvent.stops
    ∷ PoolEvent.turns 0 53
    ∷ []

events-HasRoomFor : HasRoomFor (length events) alice_stored
unfolding apply create_user store_user inc64
events-HasRoomFor = record { users_left = omega arith; chats_left = omega arith }

run_pool-IsValid_example : IsValid (run_pool lib (new_pool 2 alice_stored) events).0.storage
run_pool-IsValid_example =
    run_pool-IsValid lib 2 alice_stored events alice_stored-IsValid events-HasRoomFor

run_pool_once_example :
    let (p, out) = run_pool lib (new_pool 2 alice_stored) events in
    (taken out ++ p.queue.items ≡ send ∷ register ∷ [])
    × ((test : Task → Bool)
        → how_many test (taken out) ≡ how_many test (done out) + how_many test (in_work p.threads))
run_pool_once_example = run_pool_once lib 2 alice_stored events

run_pool_sent_example : HasSent send (run_pool lib (new_pool 2 alice_stored) events).0.storage
unfolding run_pool new_pool empty apply create_user store_user inc64 ◌=?◌ lookup_user_by_id
    lookup_user_by_name encrypted_pass lookup_check_pass send_program check_pass save_program
    save_message
run_pool_sent_example =
    run_pool_sent lib 2 alice_stored events send (Output.took send ∷ Output.took register ∷ []) []
      alice_stored-IsValid events-HasRoomFor refl refl

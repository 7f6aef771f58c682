-- ===== src/Api/Exchange.antt =====
-- server/src/apiclient.cpp: a connection with what it waits for: reads, tasks with the workers, writes and its
-- timer. What ends one of them runs a handler, and what the handler asks for is waited for next.
pub mod Single
use o2chat.Prelude.{
  ℕ, zero, suc, ◌+◌, ◌-◌, ◌==◌, Bool, true, false, Bytes, List, [], ◌∷◌, ◌++◌, if◌then◌else◌,
  Option, none, some,
}
use o2chat.Json.{External}
use o2chat.Http.Reply.{HttpReply, no_reply}
use o2chat.Worker.Tasks.{Task, Reply}
use o2chat.Api.Connection.{
  ApiClient, Action, Step, send_error_response, send_ok_response, send_messages,
  send_messages_to_idle_conn, response_to_client_wrote, idle_written, request_from_client_read,
  timer_wait_task_result,
}

-- A write that is under way, by the handler that waits for its end.
pub data Writing : Type 0 where
  answer acknowledgement : Writing
  news : ℕ → Writing

pub record Exchange : Type 0 where
  pub client : ApiClient
  pub reads : ℕ
  pub tasks : List Task
  pub writes : List Writing
  pub timer : Bool

-- What ends: a read of a request, the work on the n-th task with at most one call on the connection, the
-- n-th write, or the timer. `failed` and `aborted` are the error that the handler gets.
pub data Ending : Type 0 where
  read_ends : (now : ℕ) (failed : Bool) → HttpReply → Ending
  task_ends : (now n : ℕ) → Option Reply → Ending
  write_ends : (n : ℕ) (failed : Bool) → Ending
  timer_ends : (now : ℕ) (aborted : Bool) → Ending

-- What a handler asks for. The pending operations of a cancelled socket end with errors.
unfoldable pub perform : Exchange → Action → Exchange
perform x (Action.write_response text) = record x { writes = x.writes ++ Writing.answer ∷ [] }
perform x (Action.write_idle_response text) = record x {
  writes = x.writes ++ Writing.acknowledgement ∷ [];
}
perform x (Action.write_messages text max_ts) = record x {
  writes = x.writes ++ Writing.news max_ts ∷ [];
}
perform x (Action.put_task task) = record x { tasks = x.tasks ++ task ∷ [] }
perform x Action.start_timer = record x { timer = true }
perform x Action.cancel_timer = record x { timer = false }
perform x Action.read_cmd = record x { reads = x.reads + 1 }
perform x Action.cancel = x

unfoldable pub perform_all : Exchange → List Action → Exchange
unfolding perform
perform_all x [] = x
perform_all x (a ∷ actions) = perform_all (perform x a) actions

-- The client behind a handler, and what it asked for.
unfoldable pub behind : Exchange → Step → Exchange
unfolding perform_all
behind x (c, actions) = perform_all (record x { client = c }) actions

-- The calls of a worker on the connection of a task.
unfoldable pub on_reply : External → ℕ → ApiClient → Reply → Step
on_reply lib now c (Reply.error http_code api_code desc) =
    send_error_response lib c http_code api_code desc
on_reply lib now c (Reply.ok body) = send_ok_response c body
on_reply lib now c (Reply.messages msgs) = send_messages lib now c msgs
on_reply lib now c (Reply.idle_messages msgs) = send_messages_to_idle_conn lib now c msgs

-- The handler of a write.
unfoldable pub on_written : ApiClient → Bool → Writing → Step
on_written c failed Writing.answer = response_to_client_wrote c
on_written c failed Writing.acknowledgement = (c, [])
on_written c failed (Writing.news max_ts) = idle_written c failed max_ts

-- What is under way at a place, and what stays under way behind its end.
unfoldable pub ended {ℓ} : {A : Type ℓ} → List A → ℕ → Option (A × List A)
ended [] n = none
ended (a ∷ xs) zero = some (a, xs)
ended (a ∷ xs) (suc n) = elim (ended xs n) [ none ↦ none | some (b, rest) ↦ some (b, a ∷ rest) ]

unfoldable pub task_ended :
    External → ℕ → Exchange → Option Reply → Option (Task × List Task) → Exchange
unfolding behind on_reply
task_ended lib now x reply none = x
task_ended lib now x none (some (task, tasks)) = record x { tasks = tasks }
task_ended lib now x (some r) (some (task, tasks)) =
    behind (record x { tasks = tasks }) (on_reply lib now x.client r)

unfoldable pub write_ended : Exchange → Bool → Option (Writing × List Writing) → Exchange
unfolding behind on_written
write_ended x failed none = x
write_ended x failed (some (w, writes)) =
    behind (record x { writes = writes }) (on_written x.client failed w)

unfoldable pub read_ended : Exchange → Option Step → Option Exchange
unfolding behind
read_ended x none = none
read_ended x (some step) = some (behind (record x { reads = x.reads - 1 }) step)

-- The end of something that is waited for; `none` is the failed assertion of `parse_meta`.
unfoldable pub exchange_step : External → ℕ → Exchange → Ending → Option Exchange
unfolding read_ended task_ended write_ended ended request_from_client_read timer_wait_task_result
exchange_step lib pass_len x (Ending.read_ends now failed reply) =
    let handled = request_from_client_read lib pass_len now x.client failed reply in
    if x.reads == 0 then some x else read_ended x handled
exchange_step lib pass_len x (Ending.task_ends now n r) =
    some (task_ended lib now x r (ended x.tasks n))
exchange_step lib pass_len x (Ending.write_ends n failed) =
    some (write_ended x failed (ended x.writes n))
exchange_step lib pass_len x (Ending.timer_ends now aborted) =
    if x.timer
    then some (behind (record x { timer = false }) (timer_wait_task_result now x.client aborted))
    else some x

unfoldable pub exchange : External → ℕ → Exchange → List Ending → Option Exchange
unfolding exchange_step
exchange lib pass_len x [] = some x
exchange lib pass_len x (e ∷ endings) = elim (exchange_step lib pass_len x e) [
  | none ↦ none
  | some x' ↦ exchange lib pass_len x' endings
]

-- `processClientRequest`, with the session identifier that was made and the error of the handshake. A read that
-- failed without a reply is what its handler gets then.
unfoldable pub process_client_request : External → ℕ → ℕ → ApiClient → Bytes → Bool → Option Step
unfolding request_from_client_read
process_client_request lib pass_len now c sessid failed =
    let c' = record c { request_details = record c.request_details { sessid = sessid } } in
    if failed
    then request_from_client_read lib pass_len now c' true no_reply
    else some (c', Action.read_cmd ∷ [])

-- A connection whose handshake is the one thing that it waits for.
abbrev pub new_exchange : ApiClient → Exchange
new_exchange c = record { client = c; reads = 0; tasks = []; writes = []; timer = false }

-- A connection from the end of its handshake on.
unfoldable pub serve_client :
    External → ℕ → ℕ → ApiClient → Bytes → Bool → List Ending → Option Exchange
unfolding process_client_request behind exchange
serve_client lib pass_len now c sessid failed endings =
    elim (process_client_request lib pass_len now c sessid failed) [
      | none ↦ none
      | some step ↦ exchange lib pass_len (behind (new_exchange c) step) endings
    ]

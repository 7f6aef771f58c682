-- ===== src/Api/Exchange/Single.antt =====
-- server/src/apiclient.cpp: a connection without idle requests does one thing at a time.
use o2chat.Prelude.{
  ℕ, zero, suc, ◌||◌, Bool, true, false, not, ◌&&◌, List, [], ◌∷◌, Bytes, codes, is_empty, Option,
  none, some, ◌≡◌, ◌≢◌, refl, inl, inr, arith, Bool-cases, ◌=?◌,
}
use mathlib.Core.Path.{subst}
use o2chat.Common.{Cmd}
use o2chat.Json.{External}
use o2chat.Text.Strings.{lowercased, starts_with}
use o2chat.Http.Reply.{HttpReply, get_header}
use o2chat.Worker.Tasks.{Task, Reply}
use o2chat.Api.Meta.{Parsed, parse_meta}
use o2chat.Api.Connection.{
  ApiClient, Action, Step, send_error_response, send_ok_response, send_messages,
  response_to_client_wrote, request_from_client_read, accepted, v1_handler, routed, route, task_of,
  storage_of,
}
use o2chat.Api.Exchange.{
  Writing, Exchange, Ending, perform, perform_all, behind, on_reply, on_written, ended, task_ended,
  write_ended, read_ended, exchange_step, exchange, process_client_request, serve_client,
}

-- The three things that a connection does in turn.
pub data Stage : Type 0 where
  reading answering : Stage
  working : Task → Stage

-- A connection in a stage: nothing else is under way, and the timer does not run.
abbrev pub staged : ApiClient → Stage → Exchange
staged c Stage.reading = record { client = c; reads = 1; tasks = []; writes = []; timer = false }
staged c Stage.answering = record {
  client = c;
  reads = 0;
  tasks = [];
  writes = Writing.answer ∷ [];
  timer = false;
}
staged c (Stage.working task) = record {
  client = c;
  reads = 0;
  tasks = task ∷ [];
  writes = [];
  timer = false;
}

abbrev pub IsSingle : Exchange → Type 0
IsSingle x = (c : ApiClient) × (s : Stage) × (x ≡ staged c s)

-- A read that brings a request, but not one of idle; work with an answer; any end of a write or of the timer.
abbrev pub is_plain : Ending → Bool
is_plain (Ending.read_ends now failed reply) =
    not failed && not (lowercased reply.resource =? codes "/v1/idle")
is_plain (Ending.task_ends now n none) = false
is_plain (Ending.task_ends now n (some (Reply.idle_messages msgs))) = false
is_plain (Ending.task_ends now n (some _)) = true
is_plain _ = true

abbrev pub are_plain : List Ending → Bool
are_plain [] = true
are_plain (e ∷ endings) = is_plain e && are_plain endings

-- A handler that asks for one answer or for one task.
abbrev is_one : List Action → Bool
is_one (Action.write_response text ∷ []) = true
is_one (Action.put_task task ∷ []) = true
is_one _ = false

abbrev AreOne : Option Step → Type 0
AreOne none = Unit
AreOne (some (c, actions)) = is_one actions ≡ true

abbrev AreSingle : Option Exchange → Type 0
AreSingle none = Unit
AreSingle (some x) = IsSingle x

accepted-AreOne :
    (lib : External) (c : ApiClient) (o : Option Parsed) (next : ApiClient → Step)
    → ((c' : ApiClient) → AreOne (some (next c')))
    → AreOne (accepted lib c o next)
unfolding accepted send_error_response
accepted-AreOne lib c none next h = tt
accepted-AreOne lib c (some (err, details)) next h = elim (Bool-cases (is_empty err)) [
  | inl e ↦ rw e (h _)
  | inr e ↦ rw e refl
]

route_lem :
    (resource : Bytes) → (resource =? codes "/v1/idle") ≡ false → route resource ≢ some Cmd.idle
unfolding route
route_lem resource other = grind (arith, other)

module _ (lib : External) (pass_len : ℕ) where
  v1-AreOne :
      (c : ApiClient) (reply : HttpReply) (command : Cmd)
      → AreOne (v1_handler lib pass_len c reply command)
  unfolding v1_handler send_error_response
  v1-AreOne c reply command =
      let content_type = get_header reply (codes "Content-Type") in
      let c' = record c { request_details = record c.request_details { command = command } } in
      elim (Bool-cases (
        starts_with content_type (codes "text/plain")
        || starts_with content_type (codes "application/json"))) [
          | inl e ↦ rw e (
              accepted-AreOne lib c' (parse_meta lib pass_len c'.request_details reply.body command)
                (λ c''. (c'', Action.put_task (task_of c'' false (storage_of command)) ∷ []))
                (λ c''. refl))
          | inr e ↦ rw e refl
        ]

  routed-AreOne :
      (now : ℕ) (c : ApiClient) (reply : HttpReply) (o : Option Cmd)
      → o ≢ some Cmd.idle
      → AreOne (routed lib pass_len now c reply o)
  unfolding routed send_error_response
  routed-AreOne now c reply none h = refl
  routed-AreOne now c reply (some Cmd.idle) h = absurd (h refl)
  routed-AreOne now c reply (some _) h = v1-AreOne c reply _

  request_from_client_read-AreOne :
      (now : ℕ) (c : ApiClient) (failed : Bool) (reply : HttpReply)
      → is_plain (Ending.read_ends now failed reply) ≡ true
      → AreOne (request_from_client_read lib pass_len now c failed reply)
  unfolding request_from_client_read
  request_from_client_read-AreOne now c true reply plain = absurd (cc plain)
  request_from_client_read-AreOne now c false reply plain =
      let c' = record c {
        request_details = record c.request_details {
          remote_address = c.address;
          resource = lowercased reply.resource;
          method = reply.method;
        };
      } in
      routed-AreOne now c' reply (route (lowercased reply.resource))
        (route_lem (lowercased reply.resource) (ground (arith, plain)))

  read-AreSingle :
      (c : ApiClient) (o : Option Step)
      → AreOne o
      → AreSingle (read_ended (staged c Stage.reading) o)
  unfolding read_ended behind perform_all perform
  read-AreSingle c none one = tt
  read-AreSingle c (some (c', Action.write_response text ∷ [])) one = (c', Stage.answering, refl)
  read-AreSingle c (some (c', Action.put_task task ∷ [])) one = (c', Stage.working task, refl)
  read-AreSingle c (some (c', _)) one = absurd (cc one)

  task-IsSingle :
      (now n : ℕ) (c : ApiClient) (task : Task) (reply : Option Reply)
      → is_plain (Ending.task_ends now n reply) ≡ true
      → IsSingle (task_ended lib now (staged c (Stage.working task)) reply (ended (task ∷ []) n))
  unfolding task_ended ended on_reply behind perform_all perform send_error_response
      send_ok_response send_messages
  task-IsSingle now (suc n) c task reply plain = (c, Stage.working task, refl)
  task-IsSingle now zero c task none plain = absurd (cc plain)
  task-IsSingle now zero c task (some (Reply.error http_code api_code desc)) plain =
      (record c { http_code = http_code }, Stage.answering, refl)
  task-IsSingle now zero c task (some (Reply.ok body)) plain = (c, Stage.answering, refl)
  task-IsSingle now zero c task (some (Reply.messages msgs)) plain = (c, Stage.answering, refl)
  task-IsSingle now zero c task (some (Reply.idle_messages msgs)) plain = absurd (cc plain)

  write-IsSingle :
      (n : ℕ) (c : ApiClient) (failed : Bool)
      → IsSingle (write_ended (staged c Stage.answering) failed (ended (Writing.answer ∷ []) n))
  unfolding write_ended ended on_written behind perform_all perform response_to_client_wrote
  write-IsSingle zero c failed = (record c { http_code = 200 }, Stage.reading, refl)
  write-IsSingle (suc n) c failed = (c, Stage.answering, refl)

  step-AreSingle :
      (c : ApiClient) (s : Stage) (e : Ending)
      → is_plain e ≡ true
      → AreSingle (exchange_step lib pass_len (staged c s) e)
  unfolding exchange_step ended
  step-AreSingle c Stage.reading (Ending.read_ends now failed reply) plain =
      read-AreSingle c (request_from_client_read lib pass_len now c failed reply)
        (request_from_client_read-AreOne now c failed reply plain)
  step-AreSingle c Stage.answering (Ending.read_ends now failed reply) plain =
      (c, Stage.answering, refl)
  step-AreSingle c (Stage.working task) (Ending.read_ends now failed reply) plain =
      (c, Stage.working task, refl)
  step-AreSingle c (Stage.working task) (Ending.task_ends now n reply) plain =
      task-IsSingle now n c task reply plain
  step-AreSingle c Stage.answering (Ending.write_ends n failed) plain = write-IsSingle n c failed
  step-AreSingle c s (Ending.timer_ends now aborted) plain = timer s
    where
      timer :
          (s : Stage)
          → AreSingle (exchange_step lib pass_len (staged c s) (Ending.timer_ends now aborted))
      timer Stage.reading = (c, Stage.reading, refl)
      timer Stage.answering = (c, Stage.answering, refl)
      timer (Stage.working task) = (c, Stage.working task, refl)
  step-AreSingle c Stage.reading (Ending.task_ends now n reply) plain = (c, Stage.reading, refl)
  step-AreSingle c Stage.answering (Ending.task_ends now n reply) plain = (c, Stage.answering, refl)
  step-AreSingle c Stage.reading (Ending.write_ends n failed) plain = (c, Stage.reading, refl)
  step-AreSingle c (Stage.working task) (Ending.write_ends n failed) plain =
      (c, Stage.working task, refl)

  -- One end, and then the others.
  continued :
      (endings : List Ending) (o : Option Exchange)
      → AreSingle o
      → ((c : ApiClient) (s : Stage) → AreSingle (exchange lib pass_len (staged c s) endings))
      → AreSingle (elim o [ none ↦ none | some x ↦ exchange lib pass_len x endings ])
  continued endings none single h = tt
  continued endings (some x) (c, s, e) h = rw e (h c s)

  staged-AreSingle :
      (endings : List Ending) (c : ApiClient) (s : Stage)
      → are_plain endings ≡ true
      → AreSingle (exchange lib pass_len (staged c s) endings)
  unfolding exchange
  staged-AreSingle [] c s plain = (c, s, refl)
  staged-AreSingle (e ∷ endings) c s plain =
      continued endings (exchange_step lib pass_len (staged c s) e)
        (step-AreSingle c s e (ground (arith, plain)))
        (λ c' s'. staged-AreSingle endings c' s' (ground (arith, plain)))

  -- On a connection whose handshake succeeded, if no request of idle arrives, no read fails and every task is
  -- answered, exactly one thing is under way after any ends of what the connection waits for, unless an assertion
  -- of `parse_meta` failed: the read of a request, or the work on its one task, or the write of its answer; and
  -- the timer does not run. So the next request is read only behind the write of the answer, no two answers are
  -- written at once, and the connection never waits for nothing.
  pub serve_client-IsSingle :
      (now : ℕ) (c : ApiClient) (sessid : Bytes) (endings : List Ending) (x : Exchange)
      → are_plain endings ≡ true
      → serve_client lib pass_len now c sessid false endings ≡ some x
      → IsSingle x
  unfolding serve_client process_client_request behind perform_all perform
  serve_client-IsSingle now c sessid endings x plain e =
      let c' = record c { request_details = record c.request_details { sessid = sessid } } in
      subst AreSingle e (staged-AreSingle endings c' Stage.reading plain)

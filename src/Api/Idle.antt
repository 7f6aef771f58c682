-- ===== src/Api/Idle.antt =====
-- server/src/apiclient.cpp and server/src/database_worker.cpp: a connection that waits for messages.
use o2chat.Prelude.{
  ℕ, ◌≤◌, ltb, false, List, [], ◌∷◌, ◌≡◌, refl, arith, Bool-cases, inl, inr, All, All-mono,
  if◌then◌else◌,
}
use o2chat.Common.{Cmd}
use o2chat.Json.{External}
use o2chat.Responses.{ApiMessage}
use o2chat.Db.{Storage}
use o2chat.Db.Invariant.{IsValid}
use o2chat.Worker.Tasks.{Task, Reply}
use o2chat.Worker.{process}
use o2chat.Worker.Polls.{IsLater, poll-IsLater}
use o2chat.Api.Connection.{
  ApiClient, Action, max_from, max_timestamp, idle_written, timer_wait_task_result,
}

max_from-le : (ts : ℕ) (msgs : List ApiMessage) → ts ≤ max_from ts msgs
unfolding max_from
max_from-le ts [] = omega arith
max_from-le ts (m ∷ msgs) = elim (Bool-cases (ltb ts m.ts)) [
  | inl e ↦ rw e (let h = max_from-le m.ts msgs in grind arith)
  | inr e ↦ rw e (max_from-le ts msgs)
]

max_from-All : (ts : ℕ) (msgs : List ApiMessage) → All (λ m. m.ts ≤ max_from ts msgs) msgs
unfolding max_from
max_from-All ts [] = tt
max_from-All ts (m ∷ msgs) =
    let next = if ltb ts m.ts then m.ts else ts in
    let below : m.ts ≤ next = ground arith in
    let above = max_from-le next msgs in (omega arith, max_from-All next msgs)

IsLater-mono : (a b : ℕ) → a ≤ b → (r : Reply) → IsLater b r → IsLater a r
unfolding IsLater
IsLater-mono a b h (Reply.idle_messages ms) l = All-mono (λ m k. omega arith) ms l
IsLater-mono a b h (Reply.messages ms) l = tt
IsLater-mono a b h (Reply.ok body) l = tt
IsLater-mono a b h (Reply.error code status text) l = tt

-- When messages were written to a connection that waits, the next task of its timer polls for
-- messages that are later than each of them: whatever was stored meanwhile, a reply to the poll has no
-- message of the second of a delivered one, nor an earlier one.
pub no_repeat :
    (lib : External) (now later : ℕ) (c : ApiClient) (msgs : List ApiMessage) (s : Storage)
    → IsValid s
    → c.request_details.command ≡ Cmd.idle
    → let c' = (idle_written c false (max_timestamp msgs)).0 in
      (task : Task) × ((timer_wait_task_result now c' false).1
        ≡ Action.put_task task ∷ Action.start_timer ∷ [])
      × All (λ m. All (IsLater m.ts) (process lib later task s).1) msgs
unfolding idle_written timer_wait_task_result max_timestamp
no_repeat lib now later c msgs s v is_idle =
    let newest = max_from 0 msgs in
    let old = c.request_details.params.ts in
    let ts = if ltb old newest then newest else old in
    let bound : newest ≤ ts = ground arith in
    (
      _,
      refl,
      All-mono
          (λ m h.
            All-mono (IsLater-mono m.ts ts (omega arith)) _ (poll-IsLater lib later _ s v is_idle))
          msgs (max_from-All 0 msgs),
    )

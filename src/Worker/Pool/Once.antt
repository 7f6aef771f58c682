-- ===== src/Worker/Pool/Once.antt =====
-- server/src/database_worker.cpp: each task is taken once, in the order of the queue, and done once at most.
use o2chat.Prelude.{
  ℕ, zero, suc, ◌+◌, Bool, true, false, List, [], ◌∷◌, ◌++◌, if◌then◌else◌, ◌≡◌, refl, sym, ap, ◌∙◌,
  arith, append_assoc, append-nil,
}
use o2chat.Json.{External}
use o2chat.Queue.{Queue, empty, push, get_task, get_task_items}
use o2chat.Db.{Storage}
use o2chat.Worker.Tasks.{Task}
use o2chat.Worker.Program.{Program, advance}
use o2chat.Worker.Pool.{
  Thread, Pool, PoolEvent, Output, run_threads, new_pool, next_task, take_turn, turn_at, pool_step,
  run_pool,
}

-- The tasks that the threads took, those that they are done with, those that they are in, and those that were put.
abbrev pub taken : List Output → List Task
taken [] = []
taken (Output.took task ∷ out) = task ∷ taken out
taken (Output.replied task replies ∷ out) = taken out

abbrev pub done : List Output → List Task
done [] = []
done (Output.took task ∷ out) = done out
done (Output.replied task replies ∷ out) = task ∷ done out

abbrev pub in_work : List Thread → List Task
in_work [] = []
in_work (Thread.waiting ∷ ths) = in_work ths
in_work (Thread.ended ∷ ths) = in_work ths
in_work (Thread.working task p ∷ ths) = task ∷ in_work ths

abbrev pub put_tasks : List PoolEvent → List Task
put_tasks [] = []
put_tasks (PoolEvent.puts task ∷ events) = task ∷ put_tasks events
put_tasks (PoolEvent.turns i now ∷ events) = put_tasks events
put_tasks (PoolEvent.stops ∷ events) = put_tasks events

-- How many of some tasks pass a test.
abbrev pub how_many : (Task → Bool) → List Task → ℕ
how_many p [] = 0
how_many p (task ∷ tasks) = (if p task then 1 else 0) + how_many p tasks

taken-append : (a b : List Output) → taken (a ++ b) ≡ taken a ++ taken b
taken-append [] b = refl
taken-append (Output.took task ∷ a) b = ap (λ l. task ∷ l) (taken-append a b)
taken-append (Output.replied task replies ∷ a) b = taken-append a b

done-append : (a b : List Output) → done (a ++ b) ≡ done a ++ done b
done-append [] b = refl
done-append (Output.took task ∷ a) b = done-append a b
done-append (Output.replied task replies ∷ a) b = ap (λ l. task ∷ l) (done-append a b)

how_many-append :
    (p : Task → Bool) (a b : List Task) → how_many p (a ++ b) ≡ how_many p a + how_many p b
how_many-append p [] b = omega arith
how_many-append p (task ∷ a) b = let rest = how_many-append p a b in omega (arith, rest)

-- A turn takes from the front of the queue only, and a task that is taken is in work until it is done.
abbrev Turned : List Thread → Queue Task → List Thread × Queue Task × Storage × List Output → Type 0
Turned ths q (ths', q', s', out) =
    (taken out ++ q'.items ≡ q.items)
    × ((p : Task → Bool)
        → how_many p (taken out) + how_many p (in_work ths)
          ≡ how_many p (done out) + how_many p (in_work ths'))

module _ (lib : External) (now : ℕ) where
  next_task_once :
      (stop : Bool) (items : List Task) (s : Storage) (ths : List Thread)
      → let q : Queue Task = record { items = items } in
        let (th, q', s', out) = next_task lib stop (get_task_items items) q s in
        Turned (Thread.waiting ∷ ths) q (th ∷ ths, q', s', out)
  unfolding next_task get_task_items
  next_task_once true items s ths = (refl, λ p. refl)
  next_task_once false [] s ths = (refl, λ p. refl)
  next_task_once false (task ∷ items) s ths = (refl, λ p. omega arith)

  take_turn_once :
      (stop : Bool) (th : Thread) (q : Queue Task) (s : Storage) (ths : List Thread)
      → let (th', q', s', out) = take_turn lib now stop th q s in
        Turned (th ∷ ths) q (th' ∷ ths, q', s', out)
  unfolding take_turn get_task advance
  take_turn_once stop Thread.ended q s ths = (refl, λ p. refl)
  take_turn_once stop Thread.waiting q s ths = next_task_once stop q.items s ths
  take_turn_once stop (Thread.working task (Program.finished replies)) q s ths =
      (refl, λ p. omega arith)
  take_turn_once stop (Thread.working task (Program.looks next)) q s ths = (refl, λ p. refl)
  take_turn_once stop (Thread.working task (Program.changes op next)) q s ths = (refl, λ p. refl)

  skip_once :
      (th : Thread) (ths : List Thread) (q : Queue Task)
      (r : List Thread × Queue Task × Storage × List Output)
      → Turned ths q r
      → let (ths', q', s', out) = r in Turned (th ∷ ths) q (th ∷ ths', q', s', out)
  skip_once Thread.ended ths q r h = h
  skip_once Thread.waiting ths q r h = h
  skip_once (Thread.working task p) ths q r (front, same) =
      (front, λ t. let rest = same t in omega (arith, rest))

  turn_at_once :
      (stop : Bool) (i : ℕ) (ths : List Thread) (q : Queue Task) (s : Storage)
      → Turned ths q (turn_at lib now stop i ths q s)
  unfolding turn_at
  turn_at_once stop i [] q s = (refl, λ p. refl)
  turn_at_once stop zero (th ∷ ths) q s = take_turn_once stop th q s ths
  turn_at_once stop (suc i) (th ∷ ths) q s =
      skip_once th ths q (turn_at lib now stop i ths q s) (turn_at_once stop i ths q s)

-- What a run of the pool takes, answers and leaves.
abbrev Balanced : Pool → List Task → Pool × List Output → Type 0
Balanced p put (p', out) =
    (taken out ++ p'.queue.items ≡ p.queue.items ++ put)
    × ((test : Task → Bool)
        → how_many test (taken out) + how_many test (in_work p.threads)
          ≡ how_many test (done out) + how_many test (in_work p'.threads))

run_once :
    (lib : External) (events : List PoolEvent) (p : Pool)
    → Balanced p (put_tasks events) (run_pool lib p events)
unfolding run_pool pool_step push
run_once lib [] p = (sym (append-nil p.queue.items), λ test. refl)
run_once lib (PoolEvent.puts task ∷ events) p =
    let (order, same) = run_once lib events (record p { queue = push p.queue task }) in
    (order ∙ append_assoc p.queue.items (task ∷ []) (put_tasks events), same)
run_once lib (PoolEvent.stops ∷ events) p = run_once lib events (record p { need_stop = true })
run_once lib (PoolEvent.turns i now ∷ events) p =
    let (front, same) = turn_at_once lib now p.need_stop i p.threads p.queue p.storage in
    let p' = (pool_step lib p (PoolEvent.turns i now)).0 in
    let out = (pool_step lib p (PoolEvent.turns i now)).1 in
    let more = (run_pool lib p' events).1 in
    let (order, later) = run_once lib events p' in
    (
      ap (λ l. l ++ (run_pool lib p' events).0.queue.items) (taken-append out more)
          ∙ append_assoc (taken out) (taken more) (run_pool lib p' events).0.queue.items
          ∙ ap (λ l. taken out ++ l) order
          ∙ sym (append_assoc (taken out) p'.queue.items (put_tasks events))
          ∙ ap (λ l. l ++ put_tasks events) front,
      λ test.
          let before = same test in
          let behind = later test in
          let all_taken =
            ap (how_many test) (taken-append out more)
            ∙ how_many-append test (taken out) (taken more) in
          let all_done =
            ap (how_many test) (done-append out more)
            ∙ how_many-append test (done out) (done more) in
          omega (arith, before, behind, all_taken, all_done),
    )

none_in_work : (workers : ℕ) → in_work (run_threads workers) ≡ []
unfolding run_threads
none_in_work zero = refl
none_in_work (suc workers) = none_in_work workers

-- However the workers take turns, the tasks that were put are those that were taken, in their order, and those
-- that still wait behind them. A task that was taken is done, with the answers of its branch, or a worker is in
-- it: of the tasks that pass any test, as many were taken as are done and in work together.
pub run_pool_once :
    (lib : External) (workers : ℕ) (s : Storage) (events : List PoolEvent)
    → let (p, out) = run_pool lib (new_pool workers s) events in
      (taken out ++ p.queue.items ≡ put_tasks events)
      × ((test : Task → Bool)
          → how_many test (taken out)
            ≡ how_many test (done out) + how_many test (in_work p.threads))
unfolding new_pool empty
run_pool_once lib workers s events =
    let (order, same) = run_once lib events (new_pool workers s) in
    (
      order,
      λ test.
          let before = same test in
          let new : how_many test (in_work (run_threads workers)) ≡ 0 =
            ap (how_many test) (none_in_work workers) in
          omega (arith, before, new),
    )

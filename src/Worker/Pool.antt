-- ===== src/Worker/Pool.antt =====
-- server/src/database_worker.cpp: the threads of `DatabaseWorker` over their queue and the storage. A turn is
-- what one thread does up to the end of its next call of the queue or the storage; both hold a mutex.
pub mod Sound
pub mod Once
use o2chat.Prelude.{ℕ, zero, suc, Bool, true, false, List, [], ◌∷◌, ◌++◌, Option, none, some}
use o2chat.Json.{External}
use o2chat.Queue.{Queue, empty, push, get_task}
use o2chat.Db.{Storage}
use o2chat.Worker.Tasks.{Task, Reply}
use o2chat.Worker.Program.{Program, cmd_program, advance}

-- A thread in front of `getTask`, in a branch, or behind its loop.
pub data Thread : Type 0 where
  waiting ended : Thread
  working : Task → Program → Thread

-- `m_Queue`, the storage behind `m_Db`, `m_Threads` and `g_NeedStop`.
pub record Pool : Type 0 where
  pub queue : Queue Task
  pub storage : Storage
  pub threads : List Thread
  pub need_stop : Bool

-- What happens: `putTask`, a turn of a thread at some time, or a signal that ends the server.
pub data PoolEvent : Type 0 where
  puts : Task → PoolEvent
  turns : ℕ → ℕ → PoolEvent
  stops : PoolEvent

-- What a thread does to others: it takes a task, or answers on the connection of one.
pub data Output : Type 0 where
  took : Task → Output
  replied : Task → List Reply → Output

-- `run`
unfoldable pub run_threads : ℕ → List Thread
run_threads zero = []
run_threads (suc workers) = Thread.waiting ∷ run_threads workers

-- A pool of new threads.
unfoldable pub new_pool : ℕ → Storage → Pool
unfolding run_threads
new_pool workers s = record {
  queue = empty;
  storage = s;
  threads = run_threads workers;
  need_stop = false;
}

-- The front of the loop of `processQueue`: the test of `g_NeedStop` and `getTask`. Without a task the thread
-- sleeps and tries again.
unfoldable pub next_task :
    External
    → Bool
    → Option (Task × Queue Task)
    → Queue Task
    → Storage
    → Thread × Queue Task × Storage × List Output
unfolding cmd_program
next_task lib true found q s = (Thread.ended, q, s, [])
next_task lib false none q s = (Thread.waiting, q, s, [])
next_task lib false (some (task, q')) q s =
    (Thread.working task (cmd_program lib task task.cmd), q', s, Output.took task ∷ [])

-- A turn in the loop: the thread, the queue, the storage and the outputs behind it.
unfoldable pub take_turn :
    External
    → ℕ
    → Bool
    → Thread
    → Queue Task
    → Storage
    → Thread × Queue Task × Storage × List Output
unfolding next_task advance get_task
take_turn lib now need_stop Thread.ended q s = (Thread.ended, q, s, [])
take_turn lib now need_stop Thread.waiting q s = next_task lib need_stop (get_task q) q s
take_turn lib now need_stop (Thread.working task (Program.finished replies)) q s =
    (Thread.waiting, q, s, Output.replied task replies ∷ [])
take_turn lib now need_stop (Thread.working task (Program.looks next)) q s =
    let (p, s') = advance now (Program.looks next) s in (Thread.working task p, q, s', [])
take_turn lib now need_stop (Thread.working task (Program.changes op next)) q s =
    let (p, s') = advance now (Program.changes op next) s in (Thread.working task p, q, s', [])

-- A turn of the thread at an index.
unfoldable pub turn_at :
    External
    → ℕ
    → Bool
    → ℕ
    → List Thread
    → Queue Task
    → Storage
    → List Thread × Queue Task × Storage × List Output
unfolding take_turn
turn_at lib now need_stop i [] q s = ([], q, s, [])
turn_at lib now need_stop zero (th ∷ ths) q s =
    let (th', q', s', out) = take_turn lib now need_stop th q s in (th' ∷ ths, q', s', out)
turn_at lib now need_stop (suc i) (th ∷ ths) q s =
    let (ths', q', s', out) = turn_at lib now need_stop i ths q s in (th ∷ ths', q', s', out)

unfoldable pub pool_step : External → Pool → PoolEvent → Pool × List Output
unfolding turn_at push
pool_step lib p (PoolEvent.puts task) = (record p { queue = push p.queue task }, [])
pool_step lib p (PoolEvent.turns i now) =
    let (threads, queue, storage, out) =
      turn_at lib now p.need_stop i p.threads p.queue p.storage in
    (record p { queue = queue; storage = storage; threads = threads }, out)
pool_step lib p PoolEvent.stops = (record p { need_stop = true }, [])

-- What a sequence of events comes to.
unfoldable pub run_pool : External → Pool → List PoolEvent → Pool × List Output
unfolding pool_step
run_pool lib p [] = (p, [])
run_pool lib p (e ∷ events) =
    let (p', out) = pool_step lib p e in
    let (p'', more) = run_pool lib p' events in (p'', out ++ more)

-- `join` returns.
unfoldable pub joins : List Thread → Bool
joins [] = true
joins (Thread.ended ∷ ths) = joins ths
joins (Thread.waiting ∷ ths) = false
joins (Thread.working task p ∷ ths) = false

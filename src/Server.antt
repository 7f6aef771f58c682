-- ===== src/Server.antt =====
-- server/src/server.cpp and common/io_thread.hpp: how the server starts, takes connections and ends. The
-- handlers of the signals and of the accepts run on the thread of `m_MainIo`, while `run` goes on on the main
-- thread. `rand_r` is a parameter: the number and the next seed.
pub mod Accepts
pub mod Stopping
pub mod Main
use o2chat.Prelude.{
  ℕ, zero, suc, ◌%◌, Bool, true, false, not, ◌&&◌, List, [], ◌∷◌, ◌++◌, map, length, ◌==◌,
  if◌then◌else◌, Option, none, some, all,
}

-- An `IoThread`: made, with its thread running, or with its `io_service` stopped.
pub data IoThread : Type 0 where
  made running stopped : IoThread

-- `start` begins with `m_IoService.reset()`.
unfoldable pub start_thread : IoThread → IoThread
start_thread t = IoThread.running

-- `stop`: the loop of `run` ends.
unfoldable pub stop_thread : IoThread → IoThread
stop_thread t = IoThread.stopped

-- `join` returns.
unfoldable pub is_joined : IoThread → Bool
is_joined IoThread.made = true
is_joined IoThread.running = false
is_joined IoThread.stopped = true

-- `Server` and the two statics `g_NeedStop` and `seedp`. `accepting` is the thread of the socket that waits in
-- `async_accept`; `served` are the threads of the clients that were handed over to `ApiClient`.
pub record Server : Type 0 where
  pub io_pool_size : ℕ
  pub main_io : IoThread
  pub io_threads : List IoThread
  pub db_runs : Bool
  pub need_stop : Bool
  pub seedp : ℕ
  pub accepting : Option ℕ
  pub served : List ℕ

-- The constructor; the pool size is an `int`, here not negative.
unfoldable pub new_server : ℕ → Server
new_server io_thread_pool_size = record {
  io_pool_size = io_thread_pool_size;
  main_io = IoThread.made;
  io_threads = [];
  db_runs = false;
  need_stop = false;
  seedp = 42;
  accepting = none;
  served = [];
}

-- `handleStop`
unfoldable pub handle_stop : Server → Server
unfolding stop_thread
handle_stop s = record s {
  need_stop = true;
  main_io = stop_thread s.main_io;
  io_threads = map stop_thread s.io_threads;
}

-- `handleHUP`
unfoldable pub handle_hup : Server → Server
handle_hup s = s

-- A turn of the loop of `run` over the threads.
unfoldable pub add_thread : Server → Server
unfolding start_thread
add_thread s = record s { io_threads = s.io_threads ++ start_thread IoThread.made ∷ [] }

-- The client of the socket is served.
abbrev pub serve : Option ℕ → List ℕ → List ℕ
serve none served = served
serve (some thread) served = served ++ thread ∷ []

-- The clients that are served behind an accept.
abbrev pub handed_over : Bool → Bool → Option ℕ → List ℕ → List ℕ
handed_over failed unconnected thread served =
    if failed then served else if unconnected then served else serve thread served

module _ (rand_r : ℕ → ℕ × ℕ) where
  -- `startAccept`; `none` is the remainder by an empty pool, which is undefined.
  unfoldable pub start_accept : Server → Option Server
  start_accept s =
      let (value, seedp) = rand_r s.seedp in
      if length s.io_threads == 0
      then none
      else some (record s { seedp = seedp; accepting = some (value % length s.io_threads) })

  -- The handler of an accept: whether it failed, and whether `makeConnected` did.
  unfoldable pub on_accept : Server → Bool → Bool → Option Server
  unfolding start_accept
  on_accept s failed unconnected =
      start_accept (record s {
        accepting = none;
        served = handed_over failed unconnected s.accepting s.served;
      })

  -- A sequence of accepts.
  unfoldable pub on_accepts : Server → List (Bool × Bool) → Option Server
  unfolding on_accept
  on_accepts s [] = some s
  on_accepts s ((failed, unconnected) ∷ results) = elim (on_accept s failed unconnected) [
    | none ↦ none
    | some s' ↦ on_accepts s' results
  ]

-- The loop of `run`.
unfoldable pub add_threads : ℕ → Server → Server
unfolding add_thread
add_threads zero s = s
add_threads (suc n) s = add_threads n (add_thread s)

-- `run` up to the loop, and behind the loop up to `startAccept`.
unfoldable pub begin_run : Server → Server
unfolding start_thread
begin_run s = record s { main_io = start_thread s.main_io; io_threads = [] }

unfoldable pub run_db : Server → Server
run_db s = record s { db_runs = true }

-- `run` up to its joins.
unfoldable pub run_server : (ℕ → ℕ × ℕ) → Server → Option Server
unfolding begin_run add_threads run_db start_accept
run_server rand_r s = start_accept rand_r (run_db (add_threads s.io_pool_size (begin_run s)))

-- The joins at the end of `run` return. A worker of the database ends when it sees `g_NeedStop`.
unfoldable pub returns : Server → Bool
unfolding is_joined
returns s = s.need_stop && is_joined s.main_io && all is_joined s.io_threads

-- `run` up to its joins, with a signal that comes when its loop has made `k` of its threads.
unfoldable pub run_stopped : (ℕ → ℕ × ℕ) → ℕ → ℕ → Server → Option Server
unfolding begin_run add_threads run_db handle_stop start_accept
run_stopped rand_r k later s =
    start_accept rand_r (run_db (add_threads later (handle_stop (add_threads k (begin_run s)))))

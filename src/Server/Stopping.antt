-- ===== src/Server/Stopping.antt =====
-- server/src/server.cpp: a signal that comes while the server starts.
use o2chat.Prelude.{
  ℕ, zero, suc, ◌+◌, ◌%◌, ◌≤◌, none, some, length, length-append, Bool, true, false, ◌&&◌, List, [],
  ◌∷◌, ◌++◌, map, ◌==◌, ◌≡◌, refl, ap, ◌∙◌, arith, all,
}
use o2chat.Server.{
  IoThread, Server, new_server, handle_stop, add_thread, add_threads, begin_run, run_db, returns,
  run_stopped, start_accept, is_joined, stop_thread, start_thread,
}

all_snoc :
    (ts : List IoThread) (t : IoThread)
    → all is_joined (ts ++ t ∷ []) ≡ (all is_joined ts && is_joined t)
all_snoc [] t = ground arith
all_snoc (x ∷ ts) t = let rest = all_snoc ts t in ground (arith, rest)

all-stop_thread : (ts : List IoThread) → all is_joined (map stop_thread ts) ≡ true
unfolding stop_thread is_joined
all-stop_thread [] = refl
all-stop_thread (t ∷ ts) = all-stop_thread ts

joined : (a b : Bool) → ((a && false) && b) ≡ (a && false)
joined true b = refl
joined false b = refl

later_one : (n : ℕ) → false ≡ (suc n == 0)
later_one n = ground arith

-- The threads that are made last run on.
running_lem :
    (n : ℕ) (s : Server)
    → all is_joined (add_threads n s).io_threads ≡ (all is_joined s.io_threads && (n == 0))
unfolding add_threads add_thread start_thread is_joined
running_lem zero s = ground arith
running_lem (suc n) s =
    let rest = running_lem n (add_thread s) in
    let one = all_snoc s.io_threads IoThread.running in
    rest
    ∙ ap (λ b. b && (n == 0)) one
    ∙ joined (all is_joined s.io_threads) (n == 0)
    ∙ ap (λ b. all is_joined s.io_threads && b) (later_one n)

kept_lem :
    (n : ℕ) (s : Server)
    → ((add_threads n s).need_stop ≡ s.need_stop) × ((add_threads n s).main_io ≡ s.main_io)
unfolding add_threads add_thread
kept_lem zero s = (refl, refl)
kept_lem (suc n) s = kept_lem n (add_thread s)

long_lem : (n : ℕ) (s : Server) → length (add_threads n s).io_threads ≡ length s.io_threads + n
unfolding add_threads add_thread start_thread
long_lem zero s = omega arith
long_lem (suc n) s =
    let rest = long_lem n (add_thread s) in
    let one = length-append s.io_threads (IoThread.running ∷ []) in omega (arith, rest, one)

length-stopped : (ts : List IoThread) → length (map stop_thread ts) ≡ length ts
length-stopped [] = refl
length-stopped (t ∷ ts) = let rest = length-stopped ts in omega (arith, rest)

-- `startAccept` on a pool of one thread at least leaves the threads and the mark as they are.
start_accept_lem :
    (rand_r : ℕ → ℕ × ℕ) (s : Server)
    → 1 ≤ length s.io_threads
    → (s' : Server) × (start_accept rand_r s ≡ some s') × (returns s' ≡ returns s)
unfolding start_accept returns
start_accept_lem rand_r s some_threads =
    let (value, seedp) = rand_r s.seedp in
    let filled : (length s.io_threads == 0) ≡ false = ground (arith, some_threads) in
    (
      record s { seedp = seedp; accepting = some (value % length s.io_threads) },
      rw (filled, start_accept) refl,
      refl,
    )

-- The state of `run` in front of `startAccept`, with the signal.
abbrev signalled : ℕ → ℕ → Server
signalled k later =
    run_db (add_threads later (handle_stop (add_threads k (begin_run (new_server (k + later))))))

returns-signalled : (k later : ℕ) → returns (signalled k later) ≡ (later == 0)
unfolding returns run_db handle_stop new_server begin_run is_joined
returns-signalled k later =
    let stopped = handle_stop (add_threads k (begin_run (new_server (k + later)))) in
    let (asked, main) = kept_lem later stopped in
    let threads = running_lem later stopped in
    let before = all-stop_thread (add_threads k (begin_run (new_server (k + later)))).io_threads in
    ap
      (λ b.
        b
        && is_joined (add_threads later stopped).main_io
        && all is_joined (add_threads later stopped).io_threads)
      asked
    ∙ ap (λ t. is_joined t && all is_joined (add_threads later stopped).io_threads) main
    ∙ threads
    ∙ ap (λ b. b && (later == 0)) before

long_signalled : (k later : ℕ) → length (signalled k later).io_threads ≡ k + later
unfolding run_db handle_stop new_server begin_run
long_signalled k later =
    let before = add_threads k (begin_run (new_server (k + later))) in
    let made = long_lem k (begin_run (new_server (k + later))) in
    let stopped = length-stopped before.io_threads in
    let all_made = long_lem later (handle_stop before) in omega (arith, made, stopped, all_made)

-- A server with one thread at least that gets a signal to stop while it starts comes to its joins, and they
-- return exactly if `run` had made all of its threads when the signal came: the threads that it makes behind
-- `handleStop` are not stopped, and `run` waits for them without an end.
pub returns_lem :
    (rand_r : ℕ → ℕ × ℕ) (k later : ℕ)
    → 1 ≤ k + later
    → (s : Server) × (run_stopped rand_r k later (new_server (k + later)) ≡ some s)
      × (returns s ≡ (later == 0))
unfolding run_stopped
returns_lem rand_r k later some_threads =
    let long = long_signalled k later in
    let (s, begun, same) = start_accept_lem rand_r (signalled k later) (omega (arith, long)) in
    (s, begun, same ∙ returns-signalled k later)

-- Without a thread the start of the server has no result.
empty_lem : (rand_r : ℕ → ℕ × ℕ) → run_stopped rand_r 0 0 (new_server 0) ≡ none
unfolding run_stopped start_accept run_db handle_stop begin_run new_server add_threads
empty_lem rand_r = refl

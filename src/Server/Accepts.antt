-- ===== src/Server/Accepts.antt =====
-- server/src/server.cpp: the server goes on taking connections.
use o2chat.Prelude.{
  ℕ, zero, suc, ◌+◌, ◌%◌, ◌<◌, ◌==◌, Bool, true, false, List, [], ◌∷◌, length, if◌then◌else◌, none,
  some, ◌≡◌, refl, ap, ◌∙◌, arith, All, All-append, length-append,
}
use native.Mathlib.Nat.{mod-lt, zero-add}
use o2chat.Server.{
  IoThread, Server, new_server, start_accept, handed_over, on_accept, on_accepts, add_thread,
  add_threads, begin_run, run_db, run_server,
}

add_threads-length :
    (n : ℕ) (s : Server) → length (add_threads n s).io_threads ≡ length s.io_threads + n
unfolding add_threads add_thread
add_threads-length zero s = omega arith
add_threads-length (suc n) s =
    let rest = add_threads-length n (add_thread s) in
    let one = length-append s.io_threads (IoThread.running ∷ []) in omega (arith, rest, one)

add_threads-served : (n : ℕ) (s : Server) → (add_threads n s).served ≡ s.served
unfolding add_threads add_thread
add_threads-served zero s = refl
add_threads-served (suc n) s = add_threads-served n (add_thread s)

-- How many accepts gave a connection.
abbrev pub connected : List (Bool × Bool) → ℕ
connected [] = 0
connected ((failed, unconnected) ∷ results) =
    (if failed then 0 else if unconnected then 0 else 1) + connected results

-- The server waits for a connection on a thread that it has, and those that it serves have theirs.
pub record Serves (n : ℕ) (s : Server) : Type 0 where
  pub threads : length s.io_threads ≡ n
  pub thread : ℕ
  pub waits : s.accepting ≡ some thread
  pub there : thread < n
  pub assigned : All (λ i. i < n) s.served

module _ (rand_r : ℕ → ℕ × ℕ) (n : ℕ) (some_threads : 0 < n) where
  start_accept-Serves :
      (s : Server)
      → length s.io_threads ≡ n
      → All (λ i. i < n) s.served
      → (s' : Server) × (start_accept rand_r s ≡ some s') × (Serves n s') × (s'.served ≡ s.served)
  unfolding start_accept
  start_accept-Serves s long assigned =
      let nonempty : (length s.io_threads == 0) ≡ false = ground (arith, long, some_threads) in
      let chosen = (rand_r s.seedp).0 % length s.io_threads in
      let s' : Server = record s { seedp = (rand_r s.seedp).1; accepting = some chosen } in
      (
        s',
        rw (nonempty, start_accept) refl,
        record {
          threads = long;
          thread = chosen;
          waits = refl;
          there =
              let below =
                mod-lt (rand_r s.seedp).0 {m = length s.io_threads}
                  (omega (arith, long, some_threads)) in
              omega (arith, below, long);
          assigned = assigned;
        },
        refl,
      )

  handed_over_lem :
      (failed unconnected : Bool) (thread : ℕ) (served : List ℕ)
      → thread < n
      → All (λ i. i < n) served
      → let after = handed_over failed unconnected (some thread) served in
        All (λ i. i < n) after
        × (length after ≡ length served + connected ((failed, unconnected) ∷ []))
  handed_over_lem true unconnected thread served h a = (a, omega arith)
  handed_over_lem false true thread served h a = (a, omega arith)
  handed_over_lem false false thread served h a = (
    All-append _ served (thread ∷ []) a (h, tt),
    let long = length-append served (thread ∷ []) in omega (arith, long),
  )

  on_accepts-Serves :
      (results : List (Bool × Bool)) (s : Server)
      → Serves n s
      → (s' : Server) × (on_accepts rand_r s results ≡ some s')
        × (Serves n s')
        × (length s'.served ≡ length s.served + connected results)
  unfolding on_accepts on_accept
  on_accepts-Serves [] s h = (s, refl, h, omega arith)
  on_accepts-Serves ((failed, unconnected) ∷ results) s h =
      let taken = handed_over failed unconnected s.accepting s.served in
      let waiting : Server = record s { accepting = none; served = taken } in
      let (assigned, more) : All (λ i. i < n) taken
          × (length taken ≡ length s.served + connected ((failed, unconnected) ∷ [])) =
        rw h.waits (handed_over_lem failed unconnected h.thread s.served h.there h.assigned) in
      let (s', again, serves, same) = start_accept-Serves waiting h.threads assigned in
      let (last, ends, kept, all_served) = on_accepts-Serves results s' serves in
      (
        last,
        rw (again, on_accepts, on_accept) ends,
        kept,
        let long = ap length same in omega (arith, more, long, all_served),
      )

-- With one thread in the pool at least, the server starts, and whatever comes of its accepts, it waits for the
-- next connection behind each, on one of its threads; it serves as many clients as were accepted and had an
-- address, each on one of its threads.
pub serves_lem :
    (rand_r : ℕ → ℕ × ℕ) (n : ℕ) (results : List (Bool × Bool))
    → 0 < n
    → (s s' : Server) × (run_server rand_r (new_server n) ≡ some s)
      × (on_accepts rand_r s results ≡ some s')
      × (Serves n s')
      × (length s'.served ≡ connected results)
unfolding run_server new_server begin_run run_db
serves_lem rand_r n results h =
    let begun = begin_run (new_server n) in
    let long : length (add_threads n begun).io_threads ≡ n =
      add_threads-length n begun ∙ zero-add n in
    let none_served : (add_threads n begun).served ≡ [] = add_threads-served n begun in
    let (s, started, serves, same) =
      start_accept-Serves rand_r n h (run_db (add_threads n begun)) long (rw none_served tt) in
    let (s', ran, kept, count) = on_accepts-Serves rand_r n h results s serves in
    (
      s,
      s',
      started,
      ran,
      kept,
      count
          ∙ ap (λ l. length l + connected results) (same ∙ none_served)
          ∙ zero-add (connected results),
    )

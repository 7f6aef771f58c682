-- ===== src/Tests/Queues.antt =====
-- common/lock_queue.hpp at concrete schedules.
use o2chat.Prelude.{ℕ, List, [], ◌∷◌, ◌++◌, ◌≡◌}
use o2chat.Queue.{Queue, Access, pushes, gets, gets_many, run}
use o2chat.Queue.Fifo.{run-fifo}

abbrev two_queued : Queue ℕ
two_queued = record { items = 4 ∷ 5 ∷ [] }

abbrev schedule : List (Access ℕ)
schedule = gets ∷ pushes 6 ∷ gets_many 5 ∷ pushes 7 ∷ []

run-fifo_example :
    (run two_queued schedule).1 ++ (run two_queued schedule).0.items ≡ 4 ∷ 5 ∷ 6 ∷ 7 ∷ []
run-fifo_example = run-fifo two_queued schedule

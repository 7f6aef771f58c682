-- ===== src/Queue.antt =====
-- common/lock_queue.hpp: the queue that the producers and the workers share. Every method holds
-- the mutex from its first line to its last, so a method is one step of the model.
pub mod Fifo
use o2chat.Prelude.{
  ℕ, zero, suc, Bool, true, false, List, [], ◌∷◌, ◌++◌, Option, none, some, length,
}

-- `m_Queue`, its front first.
pub record Queue {ℓ} (A : Type ℓ) : Type ℓ where
  pub items : List A

module _ {ℓ} {A : Type ℓ} where
  unfoldable pub empty : Queue A
  empty = record { items = [] }

  unfoldable pub push : Queue A → A → Queue A
  push q t = record { items = q.items ++ t ∷ [] }

  -- `pop` and `front` of an empty `std::queue` are undefined behaviour, which is `none` here.
  pop_items : List A → Option (Queue A)
  pop_items [] = none
  pop_items (x ∷ xs) = some (record { items = xs })

  pub pop : Queue A → Option (Queue A)
  unfolding pop_items
  pop q = pop_items q.items

  front_items : List A → Option A
  front_items [] = none
  front_items (x ∷ xs) = some x

  pub front : Queue A → Option A
  unfolding front_items
  front q = front_items q.items

  pub size : Queue A → ℕ
  size q = length q.items

  unfoldable pub get_task_items : List A → Option (A × Queue A)
  get_task_items [] = none
  get_task_items (x ∷ xs) = some (x, record { items = xs })

  -- `getTask(T &t)`: `none` is the result `false`, which leaves `t` alone.
  unfoldable pub get_task : Queue A → Option (A × Queue A)
  unfolding get_task_items
  get_task q = get_task_items q.items

  -- The loop `while (n--)` of `getTask(std::vector<T> &t, size_t n)`: the vector and the queue
  -- behind it. It returns as soon as the queue is empty, so the first clause on `[]` is not met.
  get_tasks_loop : ℕ → List A → List A → List A × List A
  get_tasks_loop zero t q = (t, q)
  get_tasks_loop (suc n) t [] = (t, [])
  get_tasks_loop (suc n) t (x ∷ []) = (t ++ x ∷ [], [])
  get_tasks_loop (suc n) t (x ∷ y ∷ q) = get_tasks_loop n (t ++ x ∷ []) (y ∷ q)

  get_tasks_items : List A → List A → ℕ → Bool × List A × Queue A
  unfolding get_tasks_loop
  get_tasks_items [] t n = (false, t, record { items = [] })
  get_tasks_items (x ∷ xs) t n =
      let (t', q') = get_tasks_loop n t (x ∷ xs) in (true, t', record { items = q' })

  -- `getTask(std::vector<T> &t, size_t n)`: the result, the vector and the queue.
  pub get_tasks : Queue A → List A → ℕ → Bool × List A × Queue A
  unfolding get_tasks_items
  get_tasks q t n = get_tasks_items q.items t n

-- What the threads do to one queue, in the order in which they get the mutex.
pub data Access {ℓ} (A : Type ℓ) : Type ℓ where
  pushes : A → Access A
  gets : Access A
  gets_many : ℕ → Access A

module _ {ℓ} {A : Type ℓ} where
  -- One access: the queue behind it, and what it handed to a consumer.
  pub access : Queue A → Access A → Queue A × List A
  access q (pushes t) = (push q t, [])
  access q gets = elim (get_task q) [ none ↦ (q, []) | some (t, q') ↦ (q', t ∷ []) ]
  access q (gets_many n) = ((get_tasks q [] n).2, (get_tasks q [] n).1)

  -- A schedule: the queue in the end, and all that was handed out, in order.
  pub run : Queue A → List (Access A) → Queue A × List A
  run q [] = (q, [])
  run q (a ∷ rest) =
      let (q', out) = access q a in let (q'', out') = run q' rest in (q'', out ++ out')

  -- All that a schedule pushes, in order.
  abbrev pub pushed : List (Access A) → List A
  pushed [] = []
  pushed (pushes t ∷ rest) = t ∷ pushed rest
  pushed (gets ∷ rest) = pushed rest
  pushed (gets_many n ∷ rest) = pushed rest

-- ===== src/Queue/Fifo.antt =====
-- The order of common/lock_queue.hpp, for every method and for every schedule of its callers.
use o2chat.Prelude.{
  arith, ltb, length, ℕ, zero, suc, ◌≡◌, refl, sym, ap, ◌∙◌, List, [], ◌∷◌, ◌++◌, append-nil,
  append_assoc, take, drop, take-append-drop,
}
use o2chat.Queue.{
  Queue, Access, pushes, gets, gets_many, push, get_task, get_task_items, get_tasks_loop,
  get_tasks_items, get_tasks, access, run, pushed,
}

module _ {ℓ} {A : Type ℓ} where
  get_tasks_loop_lem : (n : ℕ) (t q : List A) → get_tasks_loop n t q ≡ (t ++ take n q, drop n q)
  unfolding get_tasks_loop
  get_tasks_loop_lem zero t q = rw append-nil
  get_tasks_loop_lem (suc n) t [] = rw append-nil
  get_tasks_loop_lem (suc zero) t (x ∷ []) = refl
  get_tasks_loop_lem (suc (suc n)) t (x ∷ []) = refl
  get_tasks_loop_lem (suc n) t (x ∷ y ∷ q) =
      rw (get_tasks_loop_lem n (t ++ x ∷ []) (y ∷ q), append_assoc)

  get_tasks_items-take :
      (q t : List A) (n : ℕ)
      → ((get_tasks_items q t n).0 ≡ ltb 0 (length q))
        × ((get_tasks_items q t n).1 ≡ t ++ take n q)
        × ((get_tasks_items q t n).2.items ≡ drop n q)
  unfolding get_tasks_items
  get_tasks_items-take [] t zero = (refl, sym (append-nil t), refl)
  get_tasks_items-take [] t (suc n) = (refl, sym (append-nil t), refl)
  get_tasks_items-take (x ∷ xs) t n = (
    ground arith,
    ap (λ p. p.0) (get_tasks_loop_lem n t (x ∷ xs)),
    ap (λ p. p.1) (get_tasks_loop_lem n t (x ∷ xs)),
  )

  -- The batch form of `getTask` returns whether the queue has an entry, appends the first `n`
  -- entries, or all if there are fewer, to the vector in the order of the queue, and leaves the
  -- others queued.
  get_tasks-take :
      (q : Queue A) (t : List A) (n : ℕ)
      → ((get_tasks q t n).0 ≡ ltb 0 (length q.items))
        × ((get_tasks q t n).1 ≡ t ++ take n q.items)
        × ((get_tasks q t n).2.items ≡ drop n q.items)
  unfolding get_tasks
  get_tasks-take q t n = get_tasks_items-take q.items t n

  -- One access hands out a prefix of the queue with the pushed entry behind it.
  access-prefix :
      (q : Queue A) (a : Access A)
      → (access q a).1 ++ (access q a).0.items ≡ q.items ++ pushed (a ∷ [])
  unfolding access push get_task get_task_items get_tasks
  access-prefix q (pushes t) = refl
  access-prefix q gets = gets_case q.items
    where
      gets_case :
          (xs : List A)
          → let q' = access (record { items = xs }) gets in q'.1 ++ q'.0.items ≡ xs ++ []
      gets_case [] = refl
      gets_case (x ∷ xs) = sym (append-nil (x ∷ xs))
  access-prefix q (gets_many n) =
      let (_, taken, left) = get_tasks_items-take q.items [] n in
      rw (taken, left) (take-append-drop n q.items ∙ sym (append-nil q.items))

  pushed-cons :
      (a : Access A) (rest : List (Access A)) → pushed (a ∷ rest) ≡ pushed (a ∷ []) ++ pushed rest
  pushed-cons (pushes t) rest = refl
  pushed-cons gets rest = refl
  pushed-cons (gets_many n) rest = refl

  -- Whatever the interleaving of producers and consumers, what was handed out, followed by what is
  -- still queued, is what was queued at first followed by what was pushed: no entry is lost, handed
  -- out twice or overtaken.
  pub run-fifo :
      (q : Queue A) (accesses : List (Access A))
      → (run q accesses).1 ++ (run q accesses).0.items ≡ q.items ++ pushed accesses
  unfolding run
  run-fifo q [] = sym (append-nil q.items)
  run-fifo q (a ∷ rest) =
      let (q', out) = access q a in
      let (q'', out') = run q' rest in
      cc (
        append_assoc out out' q''.items,
        run-fifo q' rest,
        append_assoc out q'.items (pushed rest),
        access-prefix q a,
        append_assoc q.items (pushed (a ∷ [])) (pushed rest),
        pushed-cons a rest,
      )

-- ===== src/Worker/History.antt =====
-- server/src/database_worker.cpp: the answer to a request for the history of two users.
use o2chat.Prelude.{
  ℕ, zero, suc, ◌≤◌, leb, Bool, true, false, ◌||◌, List, [], ◌∷◌, ◌++◌, ◌≡◌, refl, arith,
  Bool-cases, inl, inr, length, take, length-take, select, All, All-append, All-mono,
}
use mathlib.Core.List.{reverse}
use o2chat.Db.{User, Message, Storage}
use o2chat.Db.Messages.{select_messages}
use o2chat.Db.Messages.Reference.{select_messages_lem}
use o2chat.Worker.Format.{insert_newest, sort_newest, mix_from_and_to_messages}
use o2chat.Worker.Polls.{All-take, All-limited}
use o2chat.Worker.{history, is_sent, history_opt}

-- No entry is later than one in front of it.
abbrev pub IsFalling : List Message → Type 0
IsFalling [] = Unit
IsFalling (m ∷ ms) = All (λ x. x.ts ≤ m.ts) ms × IsFalling ms

insert-All :
    (P : Message → Type 0) (m : Message) (xs : List Message)
    → P m
    → All P xs
    → All P (insert_newest m xs)
unfolding insert_newest
insert-All P m [] p h = (p, tt)
insert-All P m (x ∷ xs) p (q, h) = elim (Bool-cases (leb x.ts m.ts)) [
  | inl e ↦ rw e (p, (q, h))
  | inr e ↦ rw e (q, insert-All P m xs p h)
]

insert-IsFalling : (m : Message) (xs : List Message) → IsFalling xs → IsFalling (insert_newest m xs)
unfolding insert_newest
insert-IsFalling m [] h = (tt, tt)
insert-IsFalling m (x ∷ xs) (top, h) = elim (Bool-cases (leb x.ts m.ts)) [
  | inl e ↦
      let below : x.ts ≤ m.ts = ground (arith, e) in
      rw e ((below, All-mono (λ y k. omega arith) xs top), (top, h))
  | inr e ↦
      let above : m.ts ≤ x.ts = ground (arith, e) in
      rw e (insert-All (λ y. y.ts ≤ x.ts) m xs above top, insert-IsFalling m xs h)
]

sort-All : (P : Message → Type 0) (xs : List Message) → All P xs → All P (sort_newest xs)
unfolding sort_newest
sort-All P [] h = tt
sort-All P (x ∷ xs) (p, h) = insert-All P x (sort_newest xs) p (sort-All P xs h)

sort-IsFalling : (xs : List Message) → IsFalling (sort_newest xs)
unfolding sort_newest
sort-IsFalling [] = tt
sort-IsFalling (x ∷ xs) = insert-IsFalling x (sort_newest xs) (sort-IsFalling xs)

take-IsFalling : (n : ℕ) (xs : List Message) → IsFalling xs → IsFalling (take n xs)
take-IsFalling zero xs h = tt
take-IsFalling (suc n) [] h = tt
take-IsFalling (suc n) (x ∷ xs) (top, h) = (All-take _ n xs top, take-IsFalling n xs h)

select-All : (p : Message → Bool) (xs : List Message) → All (λ m. p m ≡ true) (select p xs)
select-All p [] = tt
select-All p (x ∷ xs) = elim (Bool-cases (p x)) [
  | inl e ↦ rw e (e, select-All p xs)
  | inr e ↦ rw e (select-All p xs)
]

selected-All :
    (s : Storage) (p : Message → Bool) (count : ℕ)
    → All (λ m. p m ≡ true) (select_messages s p (history_opt count))
selected-All s p count =
    rw (select_messages_lem s p (history_opt count))
      (All-limited _ (history_opt count).max_count _ (select-All p (reverse s.messages)))

or_right : (x y : Bool) → y ≡ true → (x || y) ≡ true
or_right true y h = refl
or_right false y h = h

or_left : (x y : Bool) → x ≡ true → (x || y) ≡ true
or_left true y h = refl
or_left false y h = absurd (cc h)

-- The history of two users has at most `count` messages, newest first, and each of them was sent by
-- one of the two to the own chat of the other.
pub history_lem :
    (s : Storage) (a b : User) (count : ℕ)
    → (length (history s a b count) ≤ count)
      × IsFalling (history s a b count)
      × All (λ m. (is_sent a b m || is_sent b a m) ≡ true) (history s a b count)
unfolding history mix_from_and_to_messages
history_lem s a b count =
    let received = select_messages s (is_sent b a) (history_opt count) in
    let sent = select_messages s (is_sent a b) (history_opt count) in
    let all = received ++ sent in
    let between : All (λ m. (is_sent a b m || is_sent b a m) ≡ true) (sort_newest all) =
      sort-All _ all (
        All-append _ received sent
          (All-mono (λ m h. or_right (is_sent a b m) (is_sent b a m) h) received
            (selected-All s (is_sent b a) count))
          (All-mono (λ m h. or_left (is_sent a b m) (is_sent b a m) h) sent
            (selected-All s (is_sent a b) count))) in
    elim (Bool-cases (leb (length (sort_newest all)) count)) [
      | inl e ↦ rw e (ground (arith, e), sort-IsFalling all, between)
      | inr e ↦ rw e (
        omega (arith, length-take count (sort_newest all)),
        take-IsFalling count _ (sort-IsFalling all),
        All-take _ count _ between,
      )
    ]

-- ===== src/Db/Messages/Reference.antt =====
-- What the two message loops of server/src/inmemory_dbconn.cpp compute, without their early exits
-- and their accumulator.
use mathlib.Core.List.{reverse}
use o2chat.Prelude.{
  ℕ, zero, suc, ◌+◌, Bool, true, false, List, [], ◌∷◌, ◌++◌, ◌≡◌, refl, sym, ap, ◌∙◌, inl, inr,
  arith, if◌then◌else◌, Bool-cases, append-nil, append_assoc, length, length-append, take, take_all,
  select,
}
use o2chat.Db.{Message, GetMsgOpt, Storage}
use o2chat.Db.Messages.{
  is_full, is_recent, mark_read, get_messages_loop, get_messages, select_messages_loop,
  select_messages,
}

-- At most `max_count` entries, and all of them where `max_count` is 0.
abbrev pub limited {ℓ} : {A : Type ℓ} → ℕ → List A → List A
limited zero xs = xs
limited (suc n) xs = take (suc n) xs

take-append_exact {ℓ} :
    {A : Type ℓ} (n : ℕ) (xs ys : List A) → length xs ≡ n → take n (xs ++ ys) ≡ xs
take-append_exact zero [] ys h = refl
take-append_exact zero (x ∷ xs) ys h = absurd (omega arith)
take-append_exact (suc n) [] ys h = absurd (omega arith)
take-append_exact (suc n) (x ∷ xs) ys h = ap (◌∷◌ x) (take-append_exact n xs ys (omega arith))

limited_room :
    (opt : GetMsgOpt) (max : ℕ) (xs : List Message)
    → opt.max_count ≡ max
    → is_full opt xs ≡ false
    → limited max xs ≡ xs
limited_room opt zero xs e h = refl
limited_room opt (suc n) xs e h = take_all (suc n) xs (ground arith)

limited_exact :
    (opt : GetMsgOpt) (max : ℕ) (xs ys : List Message) (m : Message)
    → opt.max_count ≡ max
    → is_full opt xs ≡ false
    → is_full opt (xs ++ m ∷ []) ≡ true
    → limited max ((xs ++ m ∷ []) ++ ys) ≡ xs ++ m ∷ []
limited_exact opt zero xs ys m e h full = absurd (ground arith)
limited_exact opt (suc n) xs ys m e h full =
    take-append_exact (suc n) (xs ++ m ∷ []) ys (ground (arith, length-append xs (m ∷ [])))

select_messages_loop_lem :
    (p : Message → Bool) (opt : GetMsgOpt) (ms ret : List Message)
    → is_full opt ret ≡ false
    → select_messages_loop p opt ret ms ≡ limited opt.max_count (ret ++ select p ms)
unfolding select_messages_loop
select_messages_loop_lem p opt [] ret h =
    rw append-nil (sym (limited_room opt opt.max_count ret refl h))
select_messages_loop_lem p opt (m ∷ ms) ret h = elim (Bool-cases (p m)) [
  | inl hit ↦ elim (Bool-cases (is_full opt (ret ++ m ∷ []))) [
    | inl full ↦
        rw (hit, full)
          (sym (limited_exact opt opt.max_count ret (select p ms) m refl h full)
            ∙ ap (limited opt.max_count) (append_assoc ret (m ∷ []) (select p ms)))
    | inr more ↦
        rw (hit, more)
          (select_messages_loop_lem p opt ms (ret ++ m ∷ []) more
            ∙ ap (limited opt.max_count) (append_assoc ret (m ∷ []) (select p ms)))
  ]
  | inr miss ↦ rw (miss, h) (select_messages_loop_lem p opt ms ret h)
]

-- Initially nothing is collected, and the vector is not full.
start_not_full : (opt : GetMsgOpt) → is_full opt [] ≡ false
start_not_full opt = ground arith

-- The answer of `selectMessages` is the newest messages that pass the predicate, newest first: the
-- first `max_count` of them, or all if `max_count` is 0 or there are fewer.
pub select_messages_lem :
    (s : Storage) (p : Message → Bool) (opt : GetMsgOpt)
    → select_messages s p opt ≡ limited opt.max_count (select p (reverse s.messages))
unfolding select_messages
select_messages_lem s p opt =
    select_messages_loop_lem p opt (reverse s.messages) [] (start_not_full opt)

-- The first `n` messages that pass are marked as read.
unfoldable pub mark_first : ℕ → (Message → Bool) → List Message → List Message
mark_first zero p ms = ms
mark_first (suc n) p [] = []
mark_first (suc n) p (m ∷ ms) =
    if p m then mark_read m ∷ mark_first n p ms else m ∷ mark_first (suc n) p ms

mark_first_miss :
    (n : ℕ) (p : Message → Bool) (m : Message) (ms : List Message)
    → p m ≡ false
    → m ∷ mark_first n p ms ≡ mark_first n p (m ∷ ms)
unfolding mark_first
mark_first_miss zero p m ms h = refl
mark_first_miss (suc n) p m ms h = rw h

get_messages_loop-select :
    (p : Message → Bool) (opt : GetMsgOpt) (ms ret : List Message)
    → (get_messages_loop p opt ret ms).0 ≡ select_messages_loop p opt ret ms
unfolding get_messages_loop select_messages_loop
get_messages_loop-select p opt [] ret = refl
get_messages_loop-select p opt (m ∷ ms) ret =
    let ret' = if p m then ret ++ m ∷ [] else ret in
    let ih = get_messages_loop-select p opt ms ret' in
    elim (Bool-cases (is_full opt ret')) [ inl full ↦ rw full | inr more ↦ rw more ih ]

get_messages_loop-mark_first :
    (p : Message → Bool) (opt : GetMsgOpt) (ms ret : List Message)
    → (n : ℕ) × (length (get_messages_loop p opt ret ms).0 ≡ length ret + n)
      × ((get_messages_loop p opt ret ms).1 ≡ mark_first n p ms)
unfolding get_messages_loop mark_first
get_messages_loop-mark_first p opt [] ret = (0, omega arith, refl)
get_messages_loop-mark_first p opt (m ∷ ms) ret = elim (Bool-cases (p m)) [
  | inl hit ↦ elim (Bool-cases (is_full opt (ret ++ m ∷ []))) [
    | inl full ↦ rw (hit, full) (1, length-append ret (m ∷ []), rw hit)
    | inr more ↦
        let (n, count, marks) = get_messages_loop-mark_first p opt ms (ret ++ m ∷ []) in
        rw (hit, more) (suc n, omega (arith, length-append ret (m ∷ [])), rw (hit, marks))
  ]
  | inr miss ↦ elim (Bool-cases (is_full opt ret)) [
    | inl full ↦ rw (miss, full) (0, omega arith, refl)
    | inr more ↦
        let (n, count, marks) = get_messages_loop-mark_first p opt ms ret in
        rw (miss, more) (n, count, rw marks (mark_first_miss n p m ms miss))
  ]
]

-- `getMessages` answers with the newest messages of the chat that are later than `opt.ts`, newest
-- first: the first `max_count` of them, or all if `max_count` is 0 or there are fewer. In the
-- storage these messages, and no others, become read, and nothing else changes.
pub get_messages_lem :
    (s : Storage) (chatid : ℕ) (opt : GetMsgOpt)
    → let p = is_recent chatid opt in
      let newest = reverse s.messages in
      let answer = limited opt.max_count (select p newest) in
      (get_messages s chatid opt).0 ≡ answer
      × (get_messages s chatid opt).1
        ≡ record s { messages = reverse (mark_first (length answer) p newest) }
unfolding get_messages
get_messages_lem s chatid opt =
    let p = is_recent chatid opt in
    let newest = reverse s.messages in
    let answered =
      get_messages_loop-select p opt newest []
      ∙ select_messages_loop_lem p opt newest [] (start_not_full opt) in
    let (n, count, marks) = get_messages_loop-mark_first p opt newest [] in
    let e : n ≡ length (limited opt.max_count (select p newest)) =
      omega (arith, ap length answered) in
    (
      answered,
      ap (λ ms. record s { messages = reverse ms }) (marks ∙ ap (λ k. mark_first k p newest) e),
    )

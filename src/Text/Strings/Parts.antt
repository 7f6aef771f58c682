-- ===== src/Text/Strings/Parts.antt =====
-- common/utils.cpp: `split` undoes `join`, and `join` undoes `split`.
use o2chat.Prelude.{
  ℕ, zero, suc, ◌+◌, ◌-◌, ◌^◌, ◌<◌, ◌≤◌, Bool, true, false, not, ◌&&◌, List, [], ◌∷◌, ◌++◌, Bytes,
  codes, all, ◌==◌, Option, none, some, length, ◌≡◌, refl, sym, ◌∙◌, ap, arith, Bool-cases,
  Option-cases, if◌then◌else◌, inl, inr, ==_refl, length-append, append-nil,
}
use o2chat.Text.Strings.{
  cut, found_or, push_front, strip, split_loop, split_parts, split, join, join_rest,
}

-- `strip` takes off what it found.
strip-none : (x y : ℕ) (d s : Bytes) → (x == y) ≡ false → strip (x ∷ d) (y ∷ s) ≡ none
unfolding strip
strip-none x y d s h = rw h refl

pub strip-append : (d s : Bytes) → strip d (d ++ s) ≡ some s
unfolding strip
strip-append [] s = refl
strip-append (x ∷ d) s = rw (==_refl x) (strip-append d s)

-- No byte of `s` is `x`.
abbrev pub free_of : ℕ → Bytes → Bool
free_of x s = all (λ c. not (x == c)) s

pub free_append : (x : ℕ) (p q : Bytes) → free_of x (p ++ q) ≡ (free_of x p && free_of x q)
free_append x [] q = refl
free_append x (c ∷ p) q = ground (arith, free_append x p q)

free_cons :
    (x c : ℕ) (p : Bytes) → free_of x (c ∷ p) ≡ true → ((x == c) ≡ false) × (free_of x p ≡ true)
free_cons x c p h = elim (Bool-cases (x == c)) [
  | inl e ↦ absurd (ground (arith, e, h))
  | inr e ↦ (e, ground (arith, e, h))
]

-- A text in front of what is cut.
unfoldable pub prepend : Bytes → Option (Bytes × Bytes) → Option (Bytes × Bytes)
unfolding push_front
prepend [] o = o
prepend (c ∷ p) o = push_front c (prepend p o)

pub prepend-some : (p a b : Bytes) → prepend p (some (a, b)) ≡ some (p ++ a, b)
unfolding prepend
prepend-some [] a b = refl
prepend-some (c ∷ p) a b = rw (prepend-some p a b) refl

prepend-none : (p : Bytes) → prepend p none ≡ none
unfolding prepend
prepend-none [] = refl
prepend-none (c ∷ p) = rw (prepend-none p) refl

-- A delimiter does not begin in a text without its first byte.
pub cut_free :
    (x : ℕ) (d p s : Bytes) → free_of x p ≡ true → cut (x ∷ d) (p ++ s) ≡ prepend p (cut (x ∷ d) s)
unfolding cut prepend
cut_free x d [] s h = refl
cut_free x d (c ∷ p) s h =
    let (e, rest) = free_cons x c p h in
    ap (λ o. found_or o (push_front c (cut (x ∷ d) (p ++ s)))) (strip-none x c d (p ++ s) e)
    ∙ ap (push_front c) (cut_free x d p s rest)

cut_here : (x : ℕ) (d s : Bytes) → cut (x ∷ d) ((x ∷ d) ++ s) ≡ some ([], s)
unfolding cut found_or
cut_here x d s = ap (λ o. found_or o (push_front x (cut (x ∷ d) (d ++ s)))) (strip-append (x ∷ d) s)

pub cut_line :
    (x : ℕ) (d p s : Bytes) → free_of x p ≡ true → cut (x ∷ d) (p ++ ((x ∷ d) ++ s)) ≡ some (p, s)
cut_line x d p s h =
    cut_free x d p ((x ∷ d) ++ s) h
    ∙ rw (cut_here x d s) (prepend-some p [] s ∙ ap (λ q. some (q, s)) (append-nil p))

pub cut-none : (x : ℕ) (d p : Bytes) → free_of x p ≡ true → cut (x ∷ d) p ≡ none
unfolding cut strip
cut-none x d p h = ap (cut (x ∷ d)) (sym (append-nil p)) ∙ cut_free x d p [] h ∙ prepend-none p

-- One line break is no blank line.
pub cut_break :
    (c : ℕ) (s : Bytes)
    → (13 == c) ≡ false
    → cut (codes "\r\n\r\n") (13 ∷ 10 ∷ c ∷ s)
      ≡ prepend (codes "\r\n") (cut (codes "\r\n\r\n") (c ∷ s))
unfolding cut found_or push_front strip prepend
cut_break c s h = rw h refl

-- The rounds of `split` on lines that are joined.
split_loop-join :
    (x : ℕ) (d : Bytes) (limit fuel parts : ℕ) (line : Bytes) (lines : List Bytes)
    → all (free_of x) (line ∷ lines) ≡ true
    → length lines < fuel
    → parts + length lines < limit
    → split_loop fuel limit parts (x ∷ d) (line ++ join_rest lines (x ∷ d)) ≡ line ∷ lines
unfolding split_loop join_rest
split_loop-join x d limit zero parts line lines free enough few = absurd (omega arith)
split_loop-join x d limit (suc fuel) parts line [] free enough few =
    let h : free_of x line ≡ true = ground (arith, free) in
    rw (append-nil line) (rw (cut-none x d line h, split_loop) refl)
split_loop-join x d limit (suc fuel) parts line (next ∷ lines) free enough few =
    let h : free_of x line ≡ true = ground (arith, free) in
    let t : all (free_of x) (next ∷ lines) ≡ true = ground (arith, free) in
    let e : (parts + 1 == limit) ≡ false = ground (arith, few) in
    rw (cut_line x d line (next ++ join_rest lines (x ∷ d)) h, split_loop)
      (rw e (
        ap (λ l. line ∷ l)
          (split_loop-join x d limit fuel (parts + 1) next lines t (omega arith) (omega arith))))

length-join_rest :
    (x : ℕ) (d : Bytes) (lines : List Bytes) → length lines ≤ length (join_rest lines (x ∷ d))
unfolding join_rest
length-join_rest x d [] = omega arith
length-join_rest x d (line ∷ lines) =
    let rest = length-join_rest x d lines in
    rw (length-append d (line ++ join_rest lines (x ∷ d)))
      (rw (length-append line (join_rest lines (x ∷ d))) (omega arith))

-- `split` gives back the parts that were joined, if none of them has the first byte of the delimiter
-- and there are less than 2 ^ 32 - 1 of them.
pub split-join :
    (x : ℕ) (d line : Bytes) (lines : List Bytes)
    → all (free_of x) (line ∷ lines) ≡ true
    → length lines < 2 ^ 32 - 2
    → split (join (line ∷ lines) (x ∷ d)) (x ∷ d) ≡ line ∷ lines
unfolding split split_parts join
split-join x d line lines free few =
    let rest = length-join_rest x d lines in
    let whole = length-append line (join_rest lines (x ∷ d)) in
    split_loop-join x d (2 ^ 32 - 2) (suc (length (line ++ join_rest lines (x ∷ d)))) 0 line lines
      free (omega arith) (omega arith)

-- A round of `split` takes a part without the first byte of the delimiter.
pub split_loop_step :
    (x : ℕ) (d : Bytes) (limit fuel parts : ℕ) (line rest : Bytes)
    → free_of x line ≡ true
    → (parts + 1 == limit) ≡ false
    → split_loop (suc fuel) limit parts (x ∷ d) (line ++ ((x ∷ d) ++ rest))
      ≡ line ∷ split_loop fuel limit (parts + 1) (x ∷ d) rest
unfolding split_loop
split_loop_step x d limit fuel parts line rest free e =
    rw (cut_line x d line rest free, split_loop) (rw e refl)

-- With fuel there is a part.
pub split_loop_some :
    (d : Bytes) (limit fuel parts : ℕ) (s : Bytes)
    → (part : Bytes) × (more : List Bytes) × (split_loop (suc fuel) limit parts d s ≡ part ∷ more)
unfolding split_loop
split_loop_some d limit fuel parts s = elim (Option-cases (cut d s)) [
  | inl e ↦ (s, [], rw (e, split_loop) refl)
  | inr ((part, rest), e) ↦
      let more = split_loop fuel limit (parts + 1) d rest in
      (part, if parts + 1 == limit then rest ∷ [] else more, rw (e, split_loop) refl)
]

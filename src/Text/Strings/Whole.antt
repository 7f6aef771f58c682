-- ===== src/Text/Strings/Whole.antt =====
-- common/utils.cpp: `split` loses nothing, and its loop ends.
use o2chat.Prelude.{
  ℕ, zero, suc, ◌+◌, ◌<◌, ◌==◌, [], ◌∷◌, ◌++◌, Bytes, Option, none, some, length, ◌≡◌, refl, sym,
  ap, ◌∙◌, arith, Bool-cases, Option-cases, inl, inr, append-nil, ◌%◌, ◌-◌, u32_mod,
}
use o2chat.Text.Strings.{cut, found_or, push_front, strip, split_loop, split_parts, join, join_rest}
use o2chat.Text.Strings.Shorter.{cut-IsShorter, IsShorter}

abbrev IsRest : Bytes → Bytes → Option Bytes → Type 0
IsRest d s none = Unit
IsRest d s (some rest) = s ≡ d ++ rest

abbrev IsCut : Bytes → Bytes → Option (Bytes × Bytes) → Type 0
IsCut d s none = Unit
IsCut d s (some (part, rest)) = s ≡ part ++ (d ++ rest)

strip-IsRest : (d s : Bytes) → IsRest d s (strip d s)
unfolding strip
strip-IsRest [] s = refl
strip-IsRest (x ∷ d) [] = tt
strip-IsRest (x ∷ d) (y ∷ s) = elim (Bool-cases (x == y)) [
  | inl e ↦ rw e (longer (strip d s) (ground (arith, e)) (strip-IsRest d s))
  | inr e ↦ rw e tt
]
  where
    longer : (o : Option Bytes) → x ≡ y → IsRest d s o → IsRest (x ∷ d) (y ∷ s) o
    longer none same h = tt
    longer (some rest) same h = cc (same, h)

found_or-IsCut :
    (d s : Bytes) (o : Option Bytes) (later : Option (Bytes × Bytes))
    → IsRest d s o
    → IsCut d s later
    → IsCut d s (found_or o later)
unfolding found_or
found_or-IsCut d s none later h k = k
found_or-IsCut d s (some rest) later h k = h

push_front-IsCut :
    (d s : Bytes) (c : ℕ) (o : Option (Bytes × Bytes))
    → IsCut d s o
    → IsCut d (c ∷ s) (push_front c o)
unfolding push_front
push_front-IsCut d s c none h = tt
push_front-IsCut d s c (some (part, rest)) h = ap (◌∷◌ c) h

cut-IsCut : (d s : Bytes) → IsCut d s (cut d s)
unfolding cut
cut-IsCut d [] = found_or-IsCut d [] (strip d []) none (strip-IsRest d []) tt
cut-IsCut d (c ∷ s) =
    found_or-IsCut d (c ∷ s) (strip d (c ∷ s)) _ (strip-IsRest d (c ∷ s))
      (push_front-IsCut d s c (cut d s) (cut-IsCut d s))

at_cut :
    (d : Bytes) {s part rest : Bytes} {o : Option (Bytes × Bytes)}
    → o ≡ some (part, rest)
    → IsCut d s o
    → s ≡ part ++ (d ++ rest)
at_cut d e h = rw e at h

pub cut_whole : (d s part rest : Bytes) → cut d s ≡ some (part, rest) → s ≡ part ++ (d ++ rest)
cut_whole d s part rest e = at_cut d e (cut-IsCut d s)

at_shorter :
    {n : ℕ} {o : Option (Bytes × Bytes)} {part rest : Bytes}
    → o ≡ some (part, rest)
    → IsShorter n o
    → length rest < n
at_shorter e h = rw e at h

-- What the loop makes of a text, joined, is the text.
join_rest-split_loop :
    (x : ℕ) (d : Bytes) (limit fuel parts : ℕ) (s : Bytes)
    → length s < fuel
    → join_rest (split_loop fuel limit parts (x ∷ d) s) (x ∷ d) ≡ (x ∷ d) ++ s
unfolding split_loop join_rest
join_rest-split_loop x d limit zero parts s h = absurd (omega arith)
join_rest-split_loop x d limit (suc fuel) parts s h = elim (Option-cases (cut (x ∷ d) s)) [
  | inl e ↦ rw (e, split_loop) (ap (λ t. (x ∷ d) ++ t) (append-nil s))
  | inr ((part, rest), e) ↦
      let whole = at_cut (x ∷ d) e (cut-IsCut (x ∷ d) s) in
      let less = at_shorter e (cut-IsShorter x d s) in
      let more = join_rest-split_loop x d limit fuel (parts + 1) rest (omega arith) in
      rw (e, split_loop)
        (elim (Bool-cases (parts + 1 == limit)) [
          | inl f ↦ rw f (rw (append-nil rest) (ap (λ t. (x ∷ d) ++ t) (sym whole)))
          | inr f ↦
              rw f (ap (λ t. (x ∷ d) ++ (part ++ t)) more ∙ ap (λ t. (x ∷ d) ++ t) (sym whole))
        ])
]

-- The parts that `split` makes, joined again, are the text, with any delimiter that is not empty and any
-- bound on the parts.
pub join-split_parts :
    (x : ℕ) (d line : Bytes) (max_parts : ℕ)
    → join (split_parts line (x ∷ d) max_parts) (x ∷ d) ≡ line
unfolding split_parts split_loop join
join-split_parts x d line max_parts = elim (Option-cases (cut (x ∷ d) line)) [
  | inl e ↦ rw (e, split_loop) (append-nil line)
  | inr ((part, rest), e) ↦
      let limit = (max_parts + (u32_mod - 1)) % u32_mod in
      let whole = at_cut (x ∷ d) e (cut-IsCut (x ∷ d) line) in
      let less = at_shorter e (cut-IsShorter x d line) in
      let more = join_rest-split_loop x d limit (length line) 1 rest less in
      rw (e, split_loop)
        (elim (Bool-cases (1 == limit)) [
          | inl f ↦ rw f (rw (append-nil rest) (sym whole))
          | inr f ↦ rw f (ap (λ t. part ++ t) more ∙ sym whole)
        ])
]

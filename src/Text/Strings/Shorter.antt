-- ===== src/Text/Strings/Shorter.antt =====
-- common/utils.cpp: what stands behind a delimiter is shorter than the text.
use o2chat.Prelude.{
  ℕ, suc, ◌<◌, ◌==◌, [], ◌∷◌, Bytes, Option, none, some, length, arith, Bool-cases, inl, inr,
}
use o2chat.Text.Strings.{cut, found_or, push_front, strip}

-- The rest, if there is one, has fewer than `n` bytes.
abbrev IsBelow : ℕ → Option Bytes → Type 0
IsBelow n none = Unit
IsBelow n (some rest) = length rest < n

abbrev pub IsShorter : ℕ → Option (Bytes × Bytes) → Type 0
IsShorter n none = Unit
IsShorter n (some (part, rest)) = length rest < n

strip-IsBelow : (d s : Bytes) → IsBelow (suc (length s)) (strip d s)
unfolding strip
strip-IsBelow [] s = omega arith
strip-IsBelow (x ∷ d) [] = tt
strip-IsBelow (x ∷ d) (y ∷ s) = elim (Bool-cases (x == y)) [
  | inl e ↦ rw e (weaken (strip d s) (strip-IsBelow d s))
  | inr e ↦ rw e tt
]
  where
    weaken : (o : Option Bytes) → IsBelow (suc (length s)) o → IsBelow (suc (suc (length s))) o
    weaken none h = tt
    weaken (some r) h = omega arith

strip_cons-IsBelow : (x : ℕ) (d s : Bytes) → IsBelow (length s) (strip (x ∷ d) s)
unfolding strip
strip_cons-IsBelow x d [] = tt
strip_cons-IsBelow x d (y ∷ s) = elim (Bool-cases (x == y)) [
  | inl e ↦ rw e (strip-IsBelow d s)
  | inr e ↦ rw e tt
]

found_or-IsShorter :
    (n : ℕ) (o : Option Bytes) (later : Option (Bytes × Bytes))
    → IsBelow n o
    → IsShorter n later
    → IsShorter n (found_or o later)
unfolding found_or
found_or-IsShorter n none later h k = k
found_or-IsShorter n (some rest) later h k = h

push_front-IsShorter :
    (n c : ℕ) (o : Option (Bytes × Bytes)) → IsShorter n o → IsShorter (suc n) (push_front c o)
unfolding push_front
push_front-IsShorter n c none h = tt
push_front-IsShorter n c (some (part, rest)) h = omega arith

pub cut-IsShorter : (x : ℕ) (d s : Bytes) → IsShorter (length s) (cut (x ∷ d) s)
unfolding cut
cut-IsShorter x d [] = found_or-IsShorter 0 (strip (x ∷ d) []) none (strip_cons-IsBelow x d []) tt
cut-IsShorter x d (c ∷ s) =
    found_or-IsShorter (suc (length s)) (strip (x ∷ d) (c ∷ s)) _ (strip_cons-IsBelow x d (c ∷ s))
      (push_front-IsShorter (length s) c (cut (x ∷ d) s) (cut-IsShorter x d s))

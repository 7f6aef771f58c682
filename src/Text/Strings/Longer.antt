-- ===== src/Text/Strings/Longer.antt =====
-- common/utils.cpp: what is found in a text is found at the same place when more text comes behind it.
use o2chat.Prelude.{
  ℕ, ◌≤◌, [], ◌∷◌, ◌++◌, Bytes, none, some, length, ◌==◌, ◌≡◌, refl, ap, inl, inr, arith,
  Option-cases, Bool-cases, length-append, is_empty, false,
}
use o2chat.Text.Strings.{cut, strip, found_or, push_front}
use o2chat.Text.Strings.Whole.{cut_whole}

strip_longer : (d s x : Bytes) → length d ≤ length s → strip d s ≡ none → strip d (s ++ x) ≡ none
unfolding strip
strip_longer [] s x h e = absurd (cc e)
strip_longer (y ∷ d) [] x h e = absurd (omega arith)
strip_longer (y ∷ d) (z ∷ s) x h e = elim (Bool-cases (y == z)) [
  | inl same ↦ rw same (strip_longer d s x (omega arith) (rw same at e))
  | inr differs ↦ rw differs refl
]

strip-some_longer :
    (d s x rest : Bytes) → strip d s ≡ some rest → strip d (s ++ x) ≡ some (rest ++ x)
unfolding strip
strip-some_longer [] s x rest e = cc e
strip-some_longer (y ∷ d) [] x rest e = absurd (cc e)
strip-some_longer (y ∷ d) (z ∷ s) x rest e = elim (Bool-cases (y == z)) [
  | inl same ↦ rw same (strip-some_longer d s x rest (rw same at e))
  | inr differs ↦ absurd (cc (rw differs at e))
]

delimiter_fits : (d s front rest : Bytes) → cut d s ≡ some (front, rest) → length d ≤ length s
delimiter_fits d s front rest e =
    let whole = ap length (cut_whole d s front rest e) in
    let outer = length-append front (d ++ rest) in let inner = length-append d rest in omega arith

pub cut_longer :
    (y : ℕ) (d s x : Bytes) {front rest : Bytes}
    → cut (y ∷ d) s ≡ some (front, rest)
    → cut (y ∷ d) (s ++ x) ≡ some (front, rest ++ x)
unfolding cut strip found_or push_front
cut_longer y d [] x e = absurd (cc e)
cut_longer y d (c ∷ s) x {front} {rest} e = elim (Option-cases (strip (y ∷ d) (c ∷ s))) [
  | inr (r, found) ↦
      let front_nil : front ≡ [] = cc (rw (found, cut) at e) in
      let same : r ≡ rest = cc (rw (found, cut) at e) in
      rw (strip-some_longer (y ∷ d) (c ∷ s) x r found, cut) (cc (front_nil, same))
  | inl absent ↦ elim (Option-cases (cut (y ∷ d) s)) [
    | inl later ↦ absurd (cc (rw (absent, cut, later) at e))
    | inr ((front', rest'), later) ↦
        let longer =
          strip_longer (y ∷ d) (c ∷ s) x (delimiter_fits (y ∷ d) (c ∷ s) front rest e) absent in
        let shifted = cut_longer y d s x later in
        let front_eq : c ∷ front' ≡ front = cc (rw (absent, cut, later) at e) in
        let rest_eq : rest' ≡ rest = cc (rw (absent, cut, later) at e) in
        rw (longer, cut, shifted) (cc (front_eq, rest_eq))
  ]
]

pub cut-some_filled :
    (y : ℕ) (d s : Bytes) {front rest : Bytes}
    → cut (y ∷ d) s ≡ some (front, rest)
    → is_empty s ≡ false
unfolding cut strip found_or
cut-some_filled y d [] e = absurd (cc e)
cut-some_filled y d (c ∷ s) e = refl

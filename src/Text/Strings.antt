-- ===== src/Text/Strings.antt =====
-- common/utils.cpp: tests, cuts and trims of strings.
pub mod Parts
pub mod Shorter
pub mod Whole
pub mod Longer
pub mod Cstr
use mathlib.Core.List.{reverse}
use o2chat.Prelude.{
  ℕ, zero, suc, ◌+◌, ◌-◌, ◌%◌, leb, ltb, Bool, true, false, ◌&&◌, ◌||◌, List, [], ◌∷◌, ◌++◌, Bytes,
  codes, ◌==◌, if◌then◌else◌, Option, none, some, length, drop, u32_mod, ◌≡◌, refl, map,
}

-- `strncmp(s.data(), predicate.data(), predicate.size()) == 0`; a NUL ends both, and stands behind
-- the last byte of `s`.
unfoldable pub starts_with : Bytes → Bytes → Bool
starts_with s [] = true
starts_with [] (p ∷ ps) = p == 0
starts_with (c ∷ s) (p ∷ ps) = c == p && (p == 0 || starts_with s ps)

unfoldable pub ends_with : Bytes → Bytes → Bool
unfolding starts_with
ends_with s predicate =
    if ltb (length s) (length predicate)
    then false
    else starts_with (drop (length s - length predicate) s) predicate

-- What stands behind `d` at the front of a string.
unfoldable pub strip : Bytes → Bytes → Option Bytes
strip [] s = some s
strip (x ∷ d) [] = none
strip (x ∷ d) (y ∷ s) = let rest = strip d s in if x == y then rest else none

-- A step of `find`: the byte `c`, which begins no delimiter, in front of what is cut behind it.
push_front : ℕ → Option (Bytes × Bytes) → Option (Bytes × Bytes)
push_front c none = none
push_front c (some (part, rest)) = some (c ∷ part, rest)

found_or : Option Bytes → Option (Bytes × Bytes) → Option (Bytes × Bytes)
found_or none later = later
found_or (some rest) later = some ([], rest)

-- `find(d)`: what stands in front of the first `d` and what stands behind it.
unfoldable pub cut : Bytes → Bytes → Option (Bytes × Bytes)
unfolding strip push_front found_or
cut d [] = found_or (strip d []) none
cut d (c ∷ s) = found_or (strip d (c ∷ s)) (push_front c (cut d s))

-- The loop of `split`: `parts` counts the cuts, `limit` is `max_parts - 1` by its bit pattern as an
-- `int`. Every cut with a delimiter takes a byte at least; an empty delimiter is found again and
-- again, so the code does not end.
unfoldable pub split_loop : ℕ → ℕ → ℕ → Bytes → Bytes → List Bytes
unfolding cut
split_loop zero limit parts d s = []
split_loop (suc fuel) limit parts d s = elim (cut d s) [
  | none ↦ s ∷ []
  | some (part, rest) ↦
      let more = split_loop fuel limit (parts + 1) d rest in
      part ∷ (if parts + 1 == limit then rest ∷ [] else more)
]

-- The two overloads of `split`; `max_parts` is an `int` by its bit pattern.
unfoldable pub split_parts : Bytes → Bytes → ℕ → List Bytes
unfolding split_loop
split_parts line delimiter max_parts =
    split_loop (suc (length line)) ((max_parts + (u32_mod - 1)) % u32_mod) 0 delimiter line

unfoldable pub split : Bytes → Bytes → List Bytes
unfolding split_parts
split line delimiter = split_parts line delimiter (u32_mod - 1)

-- `join`; `first` is true for the first part.
unfoldable pub join_rest : List Bytes → Bytes → Bytes
join_rest [] connector = []
join_rest (part ∷ rest) connector = connector ++ (part ++ join_rest rest connector)

unfoldable pub join : List Bytes → Bytes → Bytes
unfolding join_rest
join [] connector = []
join (part ∷ rest) connector = part ++ join_rest rest connector

-- `isspace` in the C locale.
unfoldable pub is_space : ℕ → Bool
is_space c = c == b' ' || leb 9 c && leb c 13

unfoldable pub ltrim : Bytes → Bytes
unfolding is_space
ltrim [] = []
ltrim (c ∷ s) = let rest = ltrim s in if is_space c then rest else c ∷ s

unfoldable pub rtrim : Bytes → Bytes
unfolding ltrim
rtrim s = reverse (ltrim (reverse s))

unfoldable pub trim : Bytes → Bytes
unfolding rtrim
trim s = rtrim (ltrim s)

-- `tolower` in the C locale, and `utils::lowercased`.
unfoldable pub to_lower : ℕ → ℕ
to_lower c = if leb b'A' c && leb c b'Z' then c + 32 else c

unfoldable pub lowercased : Bytes → Bytes
unfolding to_lower
lowercased s = map to_lower s

test_split : split (codes "a::b:c::") (codes "::") ≡ codes "a" ∷ codes "b:c" ∷ [] ∷ []
unfolding split
test_split = refl

test_split_parts : split_parts (codes "a b c") (codes " ") 2 ≡ codes "a" ∷ codes "b c" ∷ []
unfolding split_parts
test_split_parts = refl

-- A bound of one part does not bound.
test_split_one : split_parts (codes "a b c") (codes " ") 1 ≡ split (codes "a b c") (codes " ")
unfolding split_parts split
test_split_one = refl

-- ===== src/Text/Number.antt =====
-- `std::stoul` and `std::stoi` of the standard library, which throw on a text that begins with no
-- number and on a number out of range.
use o2chat.Prelude.{
  ℕ, ◌+◌, ◌-◌, ◌*◌, ◌%◌, ◌^◌, leb, ltb, Bool, true, false, ◌&&◌, [], ◌∷◌, Bytes, codes, ◌==◌,
  if◌then◌else◌, Option, none, some, length, u32_mod, u64_mod, ◌≡◌, refl,
}
use o2chat.Text.Strings.{ltrim, to_lower}

-- The value of a digit in a base up to 36.
digit_value : ℕ → ℕ
digit_value c =
    if leb b'0' c && leb c b'9'
    then c - b'0'
    else if leb b'a' c && leb c b'z'
    then c - b'a' + 10
    else 36

unfoldable pub digit : ℕ → ℕ → Option ℕ
unfolding digit_value to_lower
digit base c = let v = digit_value (to_lower c) in if ltb v base then some v else none

-- The number at the front of a text, and the text behind it.
unfoldable pub read_digits : ℕ → ℕ → Bytes → ℕ × Bytes
unfolding digit
read_digits base acc [] = (acc, [])
read_digits base acc (c ∷ s) = elim (digit base c) [
  | none ↦ (acc, c ∷ s)
  | some v ↦ read_digits base (acc * base + v) s
]

-- The number, if there is a digit.
unfoldable pub read_number : ℕ → Bytes → Option (ℕ × Bytes)
unfolding read_digits
read_number base s =
    let read = read_digits base 0 s in if length read.1 == length s then none else some read

-- A sign in front: whether it is a minus, and what is behind it.
unfoldable pub sign : Bytes → Bool × Bytes
sign [] = (false, [])
sign (c ∷ s) = if c == b'-' then (true, s) else if c == b'+' then (false, s) else (false, c ∷ s)

-- The prefix of base 16, which counts only in front of a digit.
unfoldable pub skip_hex : ℕ → Bytes → Bytes
unfolding digit
skip_hex base (z ∷ x ∷ d ∷ s) = elim (digit base d) [
  | none ↦ z ∷ x ∷ d ∷ s
  | some v ↦ if base == 16 && (z == b'0' && to_lower x == b'x') then d ∷ s else z ∷ x ∷ d ∷ s
]
skip_hex base s = s

with_sign : Bool → Option (ℕ × Bytes) → Option (Bool × (ℕ × Bytes))
with_sign minus none = none
with_sign minus (some read) = some (minus, read)

-- `strtoul` and `strtol` before the range is looked at: a minus, the number, and what is behind it.
unfoldable pub scan : ℕ → Bytes → Option (Bool × (ℕ × Bytes))
unfolding read_number sign skip_hex with_sign
scan base s =
    let signed = sign (ltrim s) in with_sign signed.0 (read_number base (skip_hex base signed.1))

-- `std::stoul`: the value and the number of bytes read; a negative number wraps around.
unfoldable pub stoul : ℕ → Bytes → Option (ℕ × ℕ)
unfolding scan
stoul base s = elim (scan base s) [
  | none ↦ none
  | some (minus, (n, rest)) ↦
      if ltb n u64_mod
      then some (if minus then (u64_mod - n) % u64_mod else n, length s - length rest)
      else none
]

-- `std::stoi`: the bit pattern of the `int`.
unfoldable pub stoi : Bytes → Option ℕ
unfolding scan
stoi s = elim (scan 10 s) [
  | none ↦ none
  | some (minus, (n, rest)) ↦
      if minus
      then if leb n (2 ^ 31) then some ((u32_mod - n) % u32_mod) else none
      else if ltb n (2 ^ 31)
      then some n
      else none
]

test_stoul : stoul 10 (codes " 42x") ≡ some (42, 3)
unfolding stoul ltrim
test_stoul = refl

test_stoul_minus : stoul 10 (codes "-1") ≡ some (u64_mod - 1, 2)
unfolding stoul ltrim
test_stoul_minus = refl

test_stoul_hex : stoul 16 (codes "0x1F") ≡ some (31, 4)
unfolding stoul ltrim to_lower
test_stoul_hex = refl

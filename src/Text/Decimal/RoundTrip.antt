-- ===== src/Text/Decimal/RoundTrip.antt =====
-- `std::to_string` read back by `std::stoul`.
use o2chat.Prelude.{
  ℕ, zero, suc, ◌+◌, ◌^◌, ◌/◌, ◌%◌, ◌<◌, leb, ltb, Bool, true, false, ◌&&◌, [], ◌∷◌, Bytes, all,
  ◌==◌, some, length, u64_mod, ◌≡◌, refl, ◌∙◌, arith, Bool-cases, Option-cases, inl, inr, ap,
}
use o2chat.Text.Strings.{ltrim, is_space, to_lower}
use o2chat.Text.Number.{digit, read_digits, read_number, sign, skip_hex, scan, stoul, stoi}
use o2chat.Text.Decimal.{digits, to_string}

abbrev pub is_dec : ℕ → Bool
is_dec c = leb b'0' c && leb c b'9'

digit_lem : (v : ℕ) → v < 10 → digit 10 (b'0' + v) ≡ some v
unfolding digit to_lower
digit_lem v h = ground arith

-- The digits of `n` are read as `n`.
read_digits-digits :
    (fuel n : ℕ) (out : Bytes)
    → n < fuel
    → read_digits 10 0 (digits fuel n out) ≡ read_digits 10 n out
unfolding digits read_digits
read_digits-digits zero n out h = absurd (omega arith)
read_digits-digits (suc fuel) n out h = elim (Bool-cases (ltb n 10)) [
  | inl e ↦ rw e (
      rw (digit_lem (n % 10) (omega arith), read_digits)
        (ap (λ a. read_digits 10 a out) (grind arith)))
  | inr e ↦ rw e (
      rw (read_digits-digits fuel (n / 10) ((b'0' + n % 10) ∷ out) (grind arith)) (
        rw (digit_lem (n % 10) (omega arith), read_digits)
          (ap (λ a. read_digits 10 a out) (grind arith))))
]

dec_cons :
    (v : ℕ) (out : Bytes) → v < 10 → all is_dec out ≡ true → all is_dec ((b'0' + v) ∷ out) ≡ true
dec_cons v out h e = ground arith

all_dec-digits :
    (fuel n : ℕ) (out : Bytes) → all is_dec out ≡ true → all is_dec (digits fuel n out) ≡ true
unfolding digits
all_dec-digits zero n out h = h
all_dec-digits (suc fuel) n out h =
    let front : all is_dec ((b'0' + n % 10) ∷ out) ≡ true = dec_cons (n % 10) out (omega arith) h in
    elim (Bool-cases (ltb n 10)) [
      | inl e ↦ rw e front
      | inr e ↦ rw e (all_dec-digits fuel (n / 10) _ front)
    ]

-- There is at least one digit.
length-digits : (fuel n : ℕ) (out : Bytes) → n < fuel → length out < length (digits fuel n out)
unfolding digits
length-digits zero n out h = absurd (omega arith)
length-digits (suc fuel) n out h = elim (Bool-cases (ltb n 10)) [
  | inl e ↦ rw e (omega arith)
  | inr e ↦ rw e (
      let longer = length-digits fuel (n / 10) ((b'0' + n % 10) ∷ out) (grind arith) in omega arith)
]

-- Digits are neither space nor sign.
pub ltrim_dec : (s : Bytes) → all is_dec s ≡ true → ltrim s ≡ s
unfolding ltrim is_space
ltrim_dec [] h = refl
ltrim_dec (c ∷ s) h = ground arith

sign_dec : (s : Bytes) → all is_dec s ≡ true → sign s ≡ (false, s)
unfolding sign
sign_dec [] h = refl
sign_dec (c ∷ s) h = ground arith

skip_hex_dec : (s : Bytes) → skip_hex 10 s ≡ s
unfolding skip_hex
skip_hex_dec [] = refl
skip_hex_dec (a ∷ []) = refl
skip_hex_dec (a ∷ b ∷ []) = refl
skip_hex_dec (a ∷ b ∷ d ∷ s) = elim (Option-cases (digit 10 d)) [
  | inl e ↦ rw (e, skip_hex) refl
  | inr (v, e) ↦ rw (e, skip_hex) refl
]

pub all_dec-to_string : (n : ℕ) → all is_dec (to_string n) ≡ true
unfolding to_string
all_dec-to_string n = all_dec-digits (suc n) n [] refl

read_number-to_string : (n : ℕ) → read_number 10 (to_string n) ≡ some (n, [])
unfolding to_string read_number read_digits
read_number-to_string n =
    let longer = length-digits (suc n) n [] (omega arith) in
    rw (read_digits-digits (suc n) n [] (omega arith))
      (elim (Bool-cases (0 == length (digits (suc n) n []))) [
        | inl e ↦ absurd (grind arith)
        | inr e ↦ rw e refl
      ])

scan-to_string : (n : ℕ) → scan 10 (to_string n) ≡ some (false, (n, []))
unfolding scan
scan-to_string n =
    let dec = all_dec-to_string n in
    let unsigned : sign (ltrim (to_string n)) ≡ (false, to_string n) =
      ap sign (ltrim_dec (to_string n) dec) ∙ sign_dec (to_string n) dec in
    rw (unsigned, scan) (rw (skip_hex_dec (to_string n)) (rw (read_number-to_string n) refl))

-- A number of 64 bits that is printed is read back, and its text is read to the end.
pub stoul-to_string :
    (n : ℕ) → n < u64_mod → stoul 10 (to_string n) ≡ some (n, length (to_string n))
unfolding stoul
stoul-to_string n h = elim (Bool-cases (ltb n u64_mod)) [
  | inl e ↦ rw (scan-to_string n, stoul) (rw e (ap (λ k. some (n, k)) (omega arith)))
  | inr e ↦ absurd (grind arith)
]

-- A number that an `int` holds is read back by `stoi`.
pub stoi-to_string : (n : ℕ) → ltb n (2 ^ 31) ≡ true → stoi (to_string n) ≡ some n
unfolding stoi
stoi-to_string n h = rw (scan-to_string n, stoi) (rw h refl)

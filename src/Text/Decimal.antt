-- ===== src/Text/Decimal.antt =====
-- `std::to_string` and the password digest of server/src/database_worker.cpp.
pub mod RoundTrip
use o2chat.Prelude.{
  ℕ, zero, suc, ◌+◌, ◌-◌, ◌/◌, ◌%◌, ◌^◌, ◌∷◌, [], Bytes, ltb, if◌then◌else◌, u32_mod, codes, ◌≡◌,
  refl,
}
use o2chat.Json.{External}

-- The decimal digits of `n` in front of `out`; `n + 1` rounds are enough.
unfoldable pub digits : ℕ → ℕ → Bytes → Bytes
digits zero n out = out
digits (suc fuel) n out =
    let rest = digits fuel (n / 10) ((b'0' + n % 10) ∷ out) in
    if ltb n 10 then (b'0' + n % 10) ∷ out else rest

-- `std::to_string` of an unsigned number.
unfoldable pub to_string : ℕ → Bytes
unfolding digits
to_string n = digits (suc n) n []

-- `std::to_string` of the `int` whose bit pattern is `n`.
unfoldable pub int_to_string : ℕ → Bytes
unfolding to_string
int_to_string n = if ltb n (2 ^ 31) then to_string n else b'-' ∷ to_string (u32_mod - n)

-- `utils::crc32`: the checksum as an `int`, by its bit pattern.
unfoldable pub crc32 : External → Bytes → ℕ
crc32 lib s = lib.checksum s % u32_mod

-- `std::to_string(utils::crc32(password))`
unfoldable pub encrypted_pass : External → Bytes → Bytes
unfolding int_to_string crc32
encrypted_pass lib password = int_to_string (crc32 lib password)

test_to_string : to_string 20480 ≡ codes "20480"
unfolding to_string
test_to_string = refl

test_int_to_string : int_to_string 4294967295 ≡ codes "-1"
unfolding int_to_string
test_int_to_string = refl

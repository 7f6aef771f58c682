-- ===== src/Prelude/Words.antt =====
-- Unsigned machine words: a number below the modulus, with the wrap-around written out.
use Prim.Native.Nat.{ℕ, ◌+◌, ◌%◌, ◌^◌, ◌<◌}
use mathlib.Core.Path.{◌≡◌}
use native.Mathlib.Nat.{mod-eq_of_lt}

abbrev pub u32_mod : ℕ
u32_mod = 2 ^ 32

abbrev pub u64_mod : ℕ
u64_mod = 2 ^ 64

-- `++n` on a `uint64_t`.
unfoldable pub inc64 : ℕ → ℕ
inc64 n = (n + 1) % u64_mod

pub inc64_lem : (n : ℕ) → n + 1 < u64_mod → inc64 n ≡ n + 1
unfolding inc64
inc64_lem n h = mod-eq_of_lt h

-- ===== src/Prelude/Text.antt =====
-- Texts are lists of bytes, as in a `std::string`.
use Prim.Native.Char.{code}
use Prim.Native.String.{String}
use Prim.Native.Nat.{ℕ}
use mathlib.Core.Path.{◌≡◌, refl}
use mathlib.Core.Logic.{◌↔◌, ◌≢◌}
use mathlib.Core.Bool.{Bool, true, false, ◌&&◌}
use mathlib.Core.List.{List, [], ◌∷◌}
use native.Mathlib.Omega.{arith}
use o2chat.Prelude.Tests.{◌==◌, if◌then◌else◌}

abbrev pub Bytes : Type 0
Bytes = List ℕ

-- The code points of a literal: its bytes, since every literal here is ASCII.
abbrev pub codes : String → Bytes
codes String.[] = []
codes (String.◌∷◌ c s) = code c ∷ codes s

abbrev pub is_empty : Bytes → Bool
is_empty [] = true
is_empty (c ∷ s) = false

-- `operator==` of `std::string`.
infix 50 ◌=?◌
unfoldable pub ◌=?◌ : Bytes → Bytes → Bool
[] =? [] = true
(x ∷ xs) =? (y ∷ ys) = x == y && xs =? ys
_ =? _ = false

pub =?_iff : (s t : Bytes) → ((s =? t) ≡ true) ↔ (s ≡ t)
unfolding ◌=?◌
=?_iff (x ∷ s) (y ∷ t) = ground (arith, =?_iff s t)
=?_iff _ _ = ground arith

pub =?_refl : (s : Bytes) → (s =? s) ≡ true
=?_refl s = (=?_iff s s).1 refl

pub =?_eq : (s t : Bytes) → (s =? t) ≡ true → s ≡ t
=?_eq s t = (=?_iff s t).0

pub =?_false : (s t : Bytes) → (s =? t) ≡ false → s ≢ t
=?_false s t h e = cc (h, (=?_iff s t).1 e)

pub =?_ne : (s t : Bytes) → s ≢ t → (s =? t) ≡ false
=?_ne s t h = ground (arith, =?_iff s t)

-- The text that `c_str()` shows a C function: what stands before the first NUL.
abbrev pub c_str : Bytes → Bytes
c_str [] = []
c_str (c ∷ s) = if c == 0 then [] else c ∷ c_str s

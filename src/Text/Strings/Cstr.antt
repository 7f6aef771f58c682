-- ===== src/Text/Strings/Cstr.antt =====
-- `std::string::c_str`: a byte string up to its first zero.
use o2chat.Prelude.{[], ◌∷◌, Bytes, c_str, ◌≡◌, refl, ap, inl, inr, Bool-cases, ◌==◌}

-- A C string is its own C string.
pub c_str_twice : (s : Bytes) → c_str (c_str s) ≡ c_str s
c_str_twice [] = refl
c_str_twice (c ∷ s) = elim (Bool-cases (c == 0)) [
  | inl e ↦ rw e refl
  | inr e ↦ rw e (rw e (ap (λ t. c ∷ t) (c_str_twice s)))
]

-- ===== src/Api/Meta/Steps.antt =====
-- server/src/apiclient.cpp: the steps of `parse_meta`, each against the table.
use o2chat.Prelude.{
  ℕ, ltb, Bool, true, false, [], Bytes, c_str, is_empty, Option, none, some, ◌⊎◌, inl, inr, u32_mod,
  ◌≡◌, refl, ap, Bool-cases,
}
use o2chat.Json.{Json, uint, string, array, object, other, Members, find_member}
use o2chat.Request.{Params, RequestDetails}
use o2chat.Api.Meta.{
  optional, require, find_required_uint_param, find_required_string_param, string_value, uint_value,
  set_params, Parsed,
}
use o2chat.Api.Meta.Table.{text, number}

-- The two results of a search for a string.
string_cases :
    (key : Bytes) (o : Option Json)
    → ((err : Bytes) × (string_value key o ≡ inl err) × (text o ≡ none) × (is_empty err ≡ false))
      ⊎ ((v : Bytes) × (string_value key o ≡ inr v) × (text o ≡ some v))
unfolding string_value text
string_cases key none = inl (_, refl, refl, refl)
string_cases key (some (string s)) = elim (Bool-cases (is_empty (c_str s))) [
  | inl e ↦ rw e (inl (_, refl, refl, refl))
  | inr e ↦ rw e (inr (_, refl, refl))
]
string_cases key (some (uint n)) = inl (_, refl, refl, refl)
string_cases key (some (array items)) = inl (_, refl, refl, refl)
string_cases key (some (object ms)) = inl (_, refl, refl, refl)
string_cases key (some other) = inl (_, refl, refl, refl)

uint_cases :
    (key : Bytes) (o : Option Json)
    → ((err : Bytes) × (uint_value key o ≡ inl err) × (number o ≡ none) × (is_empty err ≡ false))
      ⊎ ((n : ℕ) × (uint_value key o ≡ inr n) × (number o ≡ some n))
unfolding uint_value number
uint_cases key none = inl (_, refl, refl, refl)
uint_cases key (some (uint n)) = elim (Bool-cases (ltb n u32_mod)) [
  | inl e ↦ rw e (inr (_, refl, refl))
  | inr e ↦ rw e (inl (_, refl, refl, refl))
]
uint_cases key (some (string s)) = inl (_, refl, refl, refl)
uint_cases key (some (array items)) = inl (_, refl, refl, refl)
uint_cases key (some (object ms)) = inl (_, refl, refl, refl)
uint_cases key (some other) = inl (_, refl, refl, refl)

-- What is stated of a parse that should accept exactly if `ok`, with the parameters `p`.
unfoldable pub Verdict : Bool → RequestDetails → Params → Parsed → Type 0
Verdict ok d p out =
    ((ok ≡ true) × (out ≡ ([], set_params d p))) ⊎ ((ok ≡ false) × (is_empty out.0 ≡ false))

module _ (ms : Members) (d : RequestDetails) (ok : Bool) (p : Params) where
  -- A string that is required, and a number.
  pub string_step :
      (key : Bytes) (e : RequestDetails) (next : Bytes → Parsed)
      → (text (find_member key ms) ≡ none → ok ≡ false)
      → ((v : Bytes) → text (find_member key ms) ≡ some v → Verdict ok d p (next v))
      → Verdict ok d p (require (find_required_string_param ms key) e next)
  unfolding find_required_string_param require Verdict
  string_step key e next missing found = elim (string_cases key (find_member key ms)) [
    | inl (err, f, t, ne) ↦ rw f (inr (missing t, ne))
    | inr (v, f, t) ↦ rw f (found v t)
  ]

  pub uint_step :
      (key : Bytes) (e : RequestDetails) (next : ℕ → Parsed)
      → (number (find_member key ms) ≡ none → ok ≡ false)
      → ((n : ℕ) → number (find_member key ms) ≡ some n → Verdict ok d p (next n))
      → Verdict ok d p (require (find_required_uint_param ms key) e next)
  unfolding find_required_uint_param require Verdict
  uint_step key e next missing found = elim (uint_cases key (find_member key ms)) [
    | inl (err, f, t, ne) ↦ rw f (inr (missing t, ne))
    | inr (v, f, t) ↦ rw f (found v t)
  ]

  -- A number that may be left out.
  pub optional_step :
      (key : Bytes) (d' : RequestDetails) (set : ℕ → RequestDetails)
      → ok ≡ true
      → (number (find_member key ms) ≡ none → d' ≡ set_params d p)
      → ((n : ℕ) → number (find_member key ms) ≡ some n → set n ≡ set_params d p)
      → Verdict ok d p (optional (find_required_uint_param ms key) d' set)
  unfolding find_required_uint_param optional Verdict
  optional_step key d' set good missing found = elim (uint_cases key (find_member key ms)) [
    | inl (err, f, t, ne) ↦ rw f (rw good (inl (refl, ap (λ x. ([], x)) (missing t))))
    | inr (v, f, t) ↦ rw f (rw good (inl (refl, ap (λ x. ([], x)) (found v t))))
  ]

pub accept : (d : RequestDetails) (p : Params) → Verdict true d p ([], set_params d p)
unfolding Verdict
accept d p = inl (refl, refl)

pub refuse :
    (d : RequestDetails) (p : Params) (out : Parsed)
    → is_empty out.0 ≡ false
    → Verdict false d p out
unfolding Verdict
refuse d p out ne = inr (refl, ne)

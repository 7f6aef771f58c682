-- ===== src/Net/First.antt =====
-- net/async_connect.hpp: which endpoint a connection is made to.
use o2chat.Prelude.{
  ℕ, zero, suc, ◌+◌, ◌<◌, true, false, List, [], ◌∷◌, ◌++◌, length, Option, none, some, ◌≡◌, refl,
  ap, ◌∙◌, inl, inr, arith, Bool-cases,
}
use o2chat.Net.Connect.{
  ErrorCode, is_error, is_final, endpoint_at, Call, RangeConnect, start_connect, on_connect, start,
  drive, async_connect,
}

module _ {ℓ} {A : Type ℓ} (open_socket : A → ErrorCode) (result : ℕ → ErrorCode) where
  -- The endpoints from a position on are tried in vain: each socket can be opened, and each connect ends
  -- with an error that is no cancellation.
  abbrev pub Refused : ℕ → List A → Type ℓ
  Refused n [] = Unit
  Refused n (e ∷ endpoints) =
      (is_error (open_socket e) ≡ false) × (is_final (result n) ≡ false) × Refused (n + 1) endpoints

  -- What the handler gets, for the endpoints from a position on.
  pub data Ends : ℕ → List A → ErrorCode → Option A → Type ℓ where
    -- The first endpoint that accepts.
    accepted :
        {n : ℕ} (before : List A) (e : A) (after : List A)
        → Refused n before
        → is_error (open_socket e) ≡ false
        → result (n + length before) ≡ ErrorCode.success
        → Ends n (before ++ (e ∷ after)) ErrorCode.success (some e)
    -- A cancellation.
    cancelled :
        {n : ℕ} (before : List A) (e : A) (after : List A)
        → Refused n before
        → is_error (open_socket e) ≡ false
        → result (n + length before) ≡ ErrorCode.operation_aborted
        → Ends n (before ++ (e ∷ after)) ErrorCode.operation_aborted none
    -- An endpoint for which no socket can be opened: those behind it are not tried.
    unopened :
        {n : ℕ} {ec : ErrorCode} (before : List A) (e : A) (after : List A)
        → Refused n before
        → open_socket e ≡ ec
        → is_error ec ≡ true
        → Ends n (before ++ (e ∷ after)) ec none
    -- All endpoints in vain: the error of the last.
    exhausted :
        {n : ℕ} {ec : ErrorCode} (before : List A) (e : A)
        → Refused n (before ++ (e ∷ []))
        → result (n + length before) ≡ ec
        → Ends n (before ++ (e ∷ [])) ec none

  -- An endpoint in vain in front.
  later_Ends :
      (n : ℕ) (e : A) {rest : List A} {ec : ErrorCode} {o : Option A}
      → is_error (open_socket e) ≡ false
      → is_final (result n) ≡ false
      → Ends (n + 1) rest ec o
      → Ends n (e ∷ rest) ec o
  later_Ends n e opens vain (accepted before x after r h k) =
      accepted (e ∷ before) x after (opens, vain, r) h (ap result (omega arith) ∙ k)
  later_Ends n e opens vain (cancelled before x after r h k) =
      cancelled (e ∷ before) x after (opens, vain, r) h (ap result (omega arith) ∙ k)
  later_Ends n e opens vain (unopened before x after r h k) =
      unopened (e ∷ before) x after (opens, vain, r) h k
  later_Ends n e opens vain (exhausted before x r k) =
      exhausted (e ∷ before) x (opens, vain, r) (ap result (omega arith) ∙ k)

  -- The operation at a position, and what it comes to.
  abbrev at_position : List A → ℕ → RangeConnect A
  at_position all n = record { endpoints = all; index = n }

  abbrev Reaches : List A → ℕ → ℕ → List A → RangeConnect A × Call A → Type ℓ
  Reaches all n fuel rest next =
      (ec : ErrorCode) × (o : Option A) × (drive open_socket result fuel next.0 next.1
        ≡ some (ec, o))
      × Ends n rest ec o

  -- A connect that ends the operation.
  final_Reaches :
      (all : List A) (n fuel : ℕ) (e : A) (rest : List A) (code : ErrorCode)
      → endpoint_at n all ≡ some e
      → is_error (open_socket e) ≡ false
      → result n ≡ code
      → is_final code ≡ true
      → Reaches all n fuel (e ∷ rest) (on_connect open_socket (at_position all n) code)
  unfolding on_connect drive
  final_Reaches all n fuel e rest ErrorCode.success at opens h f = (
    ErrorCode.success,
    some e,
    rw at refl,
    accepted [] e rest tt opens (ap result (omega arith) ∙ h),
  )
  final_Reaches all n fuel e rest ErrorCode.operation_aborted at opens h f = (
    ErrorCode.operation_aborted,
    none,
    refl,
    cancelled [] e rest tt opens (ap result (omega arith) ∙ h),
  )
  final_Reaches all n fuel e rest ErrorCode.no_recovery at opens h f = absurd (cc f)
  final_Reaches all n fuel e rest ErrorCode.not_found at opens h f = absurd (cc f)
  final_Reaches all n fuel e rest ErrorCode.timed_out at opens h f = absurd (cc f)
  final_Reaches all n fuel e rest (ErrorCode.failed code) at opens h f = absurd (cc f)

  -- A connect in vain goes on with the next endpoint.
  next_connect :
      (all : List A) (n : ℕ) (code : ErrorCode) (e : A)
      → is_final code ≡ false
      → endpoint_at (n + 1) all ≡ some e
      → on_connect open_socket (at_position all n) code
        ≡ (at_position all (n + 1), start_connect open_socket e)
  unfolding on_connect
  next_connect all n code e vain behind = rw (vain, on_connect) (rw behind refl)

  -- The operation from an endpoint on.
  from_Reaches :
      (all : List A) (n fuel : ℕ) (e : A) (rest : List A)
      → ((k : ℕ) → endpoint_at (n + k) all ≡ endpoint_at k (e ∷ rest))
      → length rest < fuel
      → Reaches all n fuel (e ∷ rest) (at_position all n, start_connect open_socket e)
  unfolding start_connect drive on_connect endpoint_at
  from_Reaches all n zero e rest at enough = absurd (omega arith)
  from_Reaches all n (suc fuel) e [] at enough =
      let here : endpoint_at n all ≡ some e = ap (λ k. endpoint_at k all) (omega arith) ∙ at 0 in
      let behind : endpoint_at (n + 1) all ≡ none = at 1 in
      elim (Bool-cases (is_error (open_socket e))) [
        | inl bad ↦
            (open_socket e, none, rw (bad, start_connect) refl, unopened [] e [] tt refl bad)
        | inr opens ↦ elim (Bool-cases (is_final (result n))) [
          | inl final ↦
              let (ec, o, run, ends) =
                final_Reaches all n fuel e [] (result n) here opens refl final in
              (ec, o, rw (opens, start_connect) run, ends)
          | inr vain ↦ (
            result n,
            none,
            rw (opens, start_connect) (rw (vain, drive, on_connect) (rw behind refl)),
            exhausted [] e (opens, vain, tt) (ap result (omega arith)),
          )
        ]
      ]
  from_Reaches all n (suc fuel) e (e' ∷ rest) at enough =
      let here : endpoint_at n all ≡ some e = ap (λ k. endpoint_at k all) (omega arith) ∙ at 0 in
      let behind : endpoint_at (n + 1) all ≡ some e' = at 1 in
      let (ec', o', run', ends') =
        from_Reaches all (n + 1) fuel e' rest
          (λ k. ap (λ m. endpoint_at m all) (omega arith) ∙ at (suc k)) (omega arith) in
      elim (Bool-cases (is_error (open_socket e))) [
        | inl bad ↦ (
          open_socket e,
          none,
          rw (bad, start_connect) refl,
          unopened [] e (e' ∷ rest) tt refl bad,
        )
        | inr opens ↦ elim (Bool-cases (is_final (result n))) [
          | inl final ↦
              let (ec, o, run, ends) =
                final_Reaches all n fuel e (e' ∷ rest) (result n) here opens refl final in
              (ec, o, rw (opens, start_connect) run, ends)
          | inr vain ↦ (
            ec',
            o',
            rw (opens, start_connect)
                (ap (λ next. drive open_socket result fuel next.0 next.1)
                    (next_connect all n (result n) e' vain behind)
                  ∙ run'),
            later_Ends n e opens vain ends',
          )
        ]
      ]

-- For endpoints, one at least, the handler of a connect is called: with the first endpoint that accepts,
-- if those before it were tried in vain; with the cancellation or the error of a socket that cannot be
-- opened, if one comes before; and else with the error of the last endpoint.
pub async_connect_lem {ℓ} :
    {A : Type ℓ} (open_socket : A → ErrorCode) (result : ℕ → ErrorCode) (e : A) (rest : List A)
    → (ec : ErrorCode) × (o : Option A) × (async_connect open_socket result (e ∷ rest)
        ≡ some (ec, o))
      × Ends open_socket result 0 (e ∷ rest) ec o
unfolding async_connect start endpoint_at
async_connect_lem open_socket result e rest =
    from_Reaches open_socket result (e ∷ rest) 0 (suc (length rest)) e rest
      (λ k. ap (λ m. endpoint_at m (e ∷ rest)) (omega arith)) (omega arith)

-- ===== src/Net/Connect.antt =====
-- net/async_connect.hpp and net/client.cpp: setting up a connection. `open` is what `socket.open` gives for
-- an endpoint, and `result` with which code the asynchronous connect to the endpoint at a position
-- ends: both are the system's.
use o2chat.Prelude.{
  ℕ, zero, suc, ◌+◌, Bool, true, false, List, [], ◌∷◌, length, if◌then◌else◌, Option, none, some,
}

-- `boost::system::error_code`, as far as the code tells the codes apart.
pub data ErrorCode : Type 0 where
  success operation_aborted no_recovery not_found timed_out : ErrorCode
  failed : ℕ → ErrorCode

-- The test `if (ec)`.
abbrev pub is_error : ErrorCode → Bool
is_error ErrorCode.success = false
is_error ErrorCode.operation_aborted = true
is_error ErrorCode.no_recovery = true
is_error ErrorCode.not_found = true
is_error ErrorCode.timed_out = true
is_error (ErrorCode.failed n) = true

-- `!ec || ec == boost::asio::error::operation_aborted`
abbrev pub is_final : ErrorCode → Bool
is_final ErrorCode.success = true
is_final ErrorCode.operation_aborted = true
is_final ErrorCode.no_recovery = false
is_final ErrorCode.not_found = false
is_final ErrorCode.timed_out = false
is_final (ErrorCode.failed n) = false

module _ {ℓ} {A : Type ℓ} where
  -- The endpoint at a position.
  unfoldable pub endpoint_at : ℕ → List A → Option A
  endpoint_at n [] = none
  endpoint_at zero (e ∷ endpoints) = some e
  endpoint_at (suc n) (e ∷ endpoints) = endpoint_at n endpoints

-- What `RangeConnectOp` leads to: a connect that is begun, or the call of its handler. The endpoint of a
-- call that reports an error is the empty one, which is `none`.
pub data Call {ℓ} (A : Type ℓ) : Type ℓ where
  connects : A → Call A
  handled : ErrorCode → Option A → Call A

-- `RangeConnectOp`
pub record RangeConnect {ℓ} (A : Type ℓ) : Type ℓ where
  pub endpoints : List A
  pub index : ℕ

module _ {ℓ} {A : Type ℓ} (open_socket : A → ErrorCode) where
  -- `start_connect`
  unfoldable pub start_connect : A → Call A
  start_connect endpoint =
      if is_error (open_socket endpoint)
      then Call.handled (open_socket endpoint) none
      else Call.connects endpoint

  -- `operator()`, the handler of a connect.
  unfoldable pub on_connect : RangeConnect A → ErrorCode → RangeConnect A × Call A
  unfolding start_connect endpoint_at
  on_connect op ec =
      let here = endpoint_at op.index op.endpoints in
      let next = record op { index = op.index + 1 } in
      let later : Call A = elim (endpoint_at next.index op.endpoints) [
        | none ↦ Call.handled ec none
        | some endpoint ↦ start_connect endpoint
      ] in
      if is_final ec
      then (op, Call.handled ec (if is_error ec then none else here))
      else (next, later)

  -- `start`. `none` is the failed assertion on an empty range.
  unfoldable pub start : RangeConnect A → Option (Call A)
  unfolding start_connect endpoint_at
  start op = elim (endpoint_at 0 op.endpoints) [
    | none ↦ none
    | some endpoint ↦ some (start_connect endpoint)
  ]

  -- The operation to its end: every connect that is begun ends with its result. `none` is for fuel that
  -- runs out.
  unfoldable pub drive :
      (ℕ → ErrorCode) → ℕ → RangeConnect A → Call A → Option (ErrorCode × Option A)
  unfolding on_connect
  drive result fuel op (Call.handled ec endpoint) = some (ec, endpoint)
  drive result zero op (Call.connects endpoint) = none
  drive result (suc fuel) op (Call.connects endpoint) =
      let next = on_connect op (result op.index) in drive result fuel next.0 next.1

-- `asyncConnect`: the code and the endpoint that the handler gets. A round for each endpoint is enough.
unfoldable pub async_connect {ℓ} :
    {A : Type ℓ} → (A → ErrorCode) → (ℕ → ErrorCode) → List A → Option (ErrorCode × Option A)
unfolding start drive
async_connect {A = A} open_socket result endpoints =
    let op : RangeConnect A = record { endpoints = endpoints; index = 0 } in
    elim (start open_socket op) [
      | none ↦ none
      | some call ↦ drive open_socket result (length endpoints) op call
    ]

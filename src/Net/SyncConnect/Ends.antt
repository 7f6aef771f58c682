-- ===== src/Net/SyncConnect/Ends.antt =====
-- net/sync_connect.hpp: the wait of the blocking connect has an end.
use o2chat.Prelude.{
  ℕ, zero, suc, ◌+◌, ◌<◌, ◌≤◌, Bool, true, false, not, ◌||◌, List, [], ◌∷◌, length, if◌then◌else◌,
  some, ◌≡◌, refl, ◌⊎◌, inl, inr, arith, Bool-cases, Option-cases, ap, ◌∙◌,
}
use o2chat.Net.Connect.{ErrorCode, is_error, endpoint_at}
use o2chat.Net.SyncConnect.{
  SyncContext, SyncEvent, connect_ends, timer_ends, sync_start_connect, async_connect_handler,
  sync_step, sync_run, sync_start, waits, new_context,
}

module _ {ℓ} {A : Type ℓ} (open_socket : A → ErrorCode) where
  -- Connects that end, and whether the timer does.
  abbrev pub connects_in : List SyncEvent → ℕ
  connects_in [] = 0
  connects_in (connect_ends ec ∷ events) = suc (connects_in events)
  connects_in (timer_ends ∷ events) = connects_in events

  abbrev pub has_timer : List SyncEvent → Bool
  has_timer [] = false
  has_timer (connect_ends ec ∷ events) = has_timer events
  has_timer (timer_ends ∷ events) = true

  -- It is finished, or a connect to an endpoint is under way and `k` more are enough.
  Nears : SyncContext A → ℕ → Type 0
  Nears c k =
      (c.connect_finished ≡ true)
      ⊎ ((c.connecting ≡ true)
          × (c.next_endpoint < length c.endpoints)
          × (length c.endpoints ≤ c.next_endpoint + k))

  endpoint_at-lt : (n : ℕ) (xs : List A) {x : A} → endpoint_at n xs ≡ some x → n < length xs
  unfolding endpoint_at
  endpoint_at-lt n [] h = absurd (cc h)
  endpoint_at-lt zero (y ∷ xs) h = omega arith
  endpoint_at-lt (suc n) (y ∷ xs) h = let rest = endpoint_at-lt n xs h in omega arith

  start-Nears :
      (c : SyncContext A) (ec : ErrorCode) (k : ℕ)
      → length c.endpoints ≤ c.next_endpoint + k
      → Nears (sync_start_connect open_socket c ec) k
  unfolding sync_start_connect Nears
  start-Nears c ec k few = elim (Option-cases (endpoint_at c.next_endpoint c.endpoints)) [
    | inl e ↦ rw (e, sync_start_connect) (inl refl)
    | inr (endpoint, e) ↦ elim (Bool-cases (is_error (open_socket endpoint))) [
      | inl bad ↦ rw (e, sync_start_connect) (rw bad (inl refl))
      | inr good ↦
          rw (e, sync_start_connect)
            (rw good (inr (refl, endpoint_at-lt c.next_endpoint c.endpoints e, few)))
    ]
  ]

  branch-Nears :
      (b : Bool) (x y : SyncContext A) (k : ℕ)
      → Nears x k
      → Nears y k
      → Nears (if b then x else y) k
  branch-Nears true x y k hx hy = hx
  branch-Nears false x y k hx hy = hy

  handler-Nears :
      (c : SyncContext A) (ec : ErrorCode) (k : ℕ)
      → length c.endpoints ≤ c.next_endpoint + suc k
      → Nears (async_connect_handler open_socket c ec) k
  unfolding async_connect_handler Nears
  handler-Nears c ec k few = branch-Nears (not (is_error ec)) _ _ k (inl refl) (
      branch-Nears c.timer_finished _ _ k (inl refl)
        (start-Nears (record c { next_endpoint = c.next_endpoint + 1 }) ec k (omega arith)))

  -- What a connect that ends does not undo: that it is finished, and that the timer is.
  abbrev Kept : SyncContext A → SyncContext A → Type 0
  Kept c d =
      (c.connect_finished ≡ true → d.connect_finished ≡ true)
      × (d.timer_finished ≡ c.timer_finished)

  branch-Kept :
      (b : Bool) (c x y : SyncContext A) → Kept c x → Kept c y → Kept c (if b then x else y)
  branch-Kept true c x y hx hy = hx
  branch-Kept false c x y hx hy = hy

  start-Kept : (c : SyncContext A) (ec : ErrorCode) → Kept c (sync_start_connect open_socket c ec)
  unfolding sync_start_connect
  start-Kept c ec = elim (Option-cases (endpoint_at c.next_endpoint c.endpoints)) [
    | inl e ↦ rw (e, sync_start_connect) (λ h. refl, refl)
    | inr (endpoint, e) ↦
        rw (e, sync_start_connect)
          (branch-Kept (is_error (open_socket endpoint)) c _ _ (λ h. refl, refl) (λ h. h, refl))
  ]

  step-Kept :
      (c : SyncContext A) (ec : ErrorCode) → Kept c (sync_step open_socket c (connect_ends ec))
  unfolding sync_step async_connect_handler
  step-Kept c ec =
      branch-Kept c.connecting c _ _
        (branch-Kept (not (is_error ec)) c _ _ (λ h. refl, refl)
          (branch-Kept c.timer_finished c _ _ (λ h. refl, refl)
            (start-Kept (record c { connecting = false; next_endpoint = c.next_endpoint + 1 }) ec)))
        (λ h. h, refl)

  step-Nears :
      (c : SyncContext A) (ec : ErrorCode) (k : ℕ)
      → Nears c (suc k)
      → Nears (sync_step open_socket c (connect_ends ec)) k
  unfolding Nears sync_step
  step-Nears c ec k (inl finished) = inl ((step-Kept c ec).0 finished)
  step-Nears c ec k (inr (on, _, few)) =
      rw (on, sync_step) (handler-Nears (record c { connecting = false }) ec k few)

  run_ends :
      (events : List SyncEvent) (c : SyncContext A)
      → Nears c (connects_in events)
      → (c.timer_finished || has_timer events) ≡ true
      → waits (sync_run open_socket c events) ≡ false
  unfolding Nears sync_step
  run_ends [] c (inl finished) timer = ground (arith, finished, timer)
  run_ends [] c (inr (_, there, few)) timer = absurd (omega arith)
  run_ends (connect_ends ec ∷ events) c near timer =
      let kept = (step-Kept c ec).1 in
      run_ends events (sync_step open_socket c (connect_ends ec))
        (step-Nears c ec (connects_in events) near) (ap (λ t. t || has_timer events) kept ∙ timer)
  run_ends (timer_ends ∷ events) c near timer =
      run_ends events (record c { timer_finished = true }) near refl

  -- The wait of `sync_connect` is over when the timer has ended and as many connects as there are endpoints,
  -- in whatever order, and whatever their results.
  sync_connect_ends :
      (endpoints : List A) (events : List SyncEvent)
      → length endpoints ≤ connects_in events
      → has_timer events ≡ true
      → waits (sync_run open_socket (sync_start open_socket endpoints) events) ≡ false
  unfolding sync_start
  sync_connect_ends endpoints events few timer =
      let c = new_context endpoints in
      run_ends events (sync_start open_socket endpoints)
        (start-Nears c ErrorCode.success (connects_in events) (omega arith))
        (ap (λ t. t || has_timer events) (start-Kept c ErrorCode.success).1 ∙ timer)

-- ===== src/Net/SyncConnect.antt =====
-- net/sync_connect.hpp and `sync_connect` of net/client.cpp: the blocking connect with its timer. The handlers
-- run under one mutex, so each is one step. `open_socket` is what `socket.open` gives for an endpoint.
pub mod Ends
use o2chat.Prelude.{
  ℕ, zero, suc, ◌+◌, ◌<◌, ◌≤◌, Bool, true, false, not, ◌&&◌, ◌||◌, List, [], ◌∷◌, length,
  if◌then◌else◌, Option, none, some, ◌≡◌, refl, ◌⊎◌, inl, inr, arith, Bool-cases, Option-cases,
}
use o2chat.Net.Connect.{ErrorCode, is_error, endpoint_at}

-- `SyncConnectContext`, and whether a connect of the socket is under way.
pub record SyncContext {ℓ} (A : Type ℓ) : Type ℓ where
  pub endpoints : List A
  pub next_endpoint : ℕ
  pub timer_finished : Bool
  pub connect_finished : Bool
  pub connect_result : ErrorCode
  pub connecting : Bool

-- What ends: the connect that is under way, with its code, or the timer, by its time or a cancellation.
pub data SyncEvent : Type 0 where
  connect_ends : ErrorCode → SyncEvent
  timer_ends : SyncEvent

module _ {ℓ} {A : Type ℓ} where
  -- `finish_connect`
  abbrev pub finish_connect : SyncContext A → ErrorCode → SyncContext A
  finish_connect c ec = record c { connect_result = ec; connect_finished = true }

  -- The condition of the loop in which `sync_connect` waits.
  abbrev pub waits : SyncContext A → Bool
  waits c = not c.timer_finished || not c.connect_finished

  -- The context that `sync_connect` builds.
  abbrev pub new_context : List A → SyncContext A
  new_context endpoints = record {
    endpoints = endpoints;
    next_endpoint = 0;
    timer_finished = false;
    connect_finished = false;
    connect_result = ErrorCode.success;
    connecting = false;
  }

module _ {ℓ} {A : Type ℓ} (open_socket : A → ErrorCode) where
  -- `startConnect`; `next_endpoint >= endpoints.size()` is that there is no endpoint at that position.
  unfoldable pub sync_start_connect : SyncContext A → ErrorCode → SyncContext A
  sync_start_connect c last_error = elim (endpoint_at c.next_endpoint c.endpoints) [
    | none ↦ finish_connect c (if is_error last_error then last_error else ErrorCode.not_found)
    | some endpoint ↦
        if is_error (open_socket endpoint)
        then finish_connect c (open_socket endpoint)
        else record c { connecting = true }
  ]

  -- `async_connect_handler`
  unfoldable pub async_connect_handler : SyncContext A → ErrorCode → SyncContext A
  unfolding sync_start_connect
  async_connect_handler c ec =
      let later = sync_start_connect (record c { next_endpoint = c.next_endpoint + 1 }) ec in
      if not (is_error ec)
      then finish_connect c ErrorCode.success
      else if c.timer_finished
      then finish_connect c ErrorCode.timed_out
      else later

  -- A step. A connect can end only while one is under way.
  unfoldable pub sync_step : SyncContext A → SyncEvent → SyncContext A
  unfolding async_connect_handler
  sync_step c (connect_ends ec) =
      let ended = async_connect_handler (record c { connecting = false }) ec in
      if c.connecting then ended else c
  sync_step c timer_ends = record c { timer_finished = true }

  abbrev pub sync_run : SyncContext A → List SyncEvent → SyncContext A
  sync_run c [] = c
  sync_run c (e ∷ events) = sync_run (sync_step c e) events

  -- `start`
  unfoldable pub sync_start : List A → SyncContext A
  unfolding sync_start_connect
  sync_start endpoints = sync_start_connect (new_context endpoints) ErrorCode.success

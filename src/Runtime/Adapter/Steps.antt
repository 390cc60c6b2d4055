-- ===== src/Runtime/Adapter/Steps.antt =====
-- The steps of `AdapterRuntime`, in every interleaving, against the state machine of lifecycle.py.
use tactical_core.Base.{ℕ, ◌≡◌, Bool, true, false, not, ◌||◌, String, some, ◌⊎◌}
use tactical_core.Base.Result.{ok}
use tactical_core.Runtime.Lifecycle.{AdapterState, state_eq, can_transition}
use tactical_core.Runtime.Adapter
use tactical_core.Runtime.Adapter.{Runtime, set_state, is_active}

-- What one thread does to the runtime while it holds the lock, or to its counters and its policy
-- without the lock. A failure is counted and a thread is restarted at any time, since other threads
-- may have come between the test for it and these steps. A call that raises leaves the state as it
-- is and is no step.
pub data Move (r : Runtime) : Runtime → Type 0 where
  start : {s : Runtime} (now : ℕ) → Adapter.start now r ≡ ok s → Move r s
  stop_request : {s : Runtime} → Adapter.stop_request r ≡ ok (some s) → Move r s
  stop_finish : {s : Runtime} → Adapter.stop_finish r ≡ ok s → Move r s
  restart : {s : Runtime} (now : ℕ) → Adapter.restart now r ≡ ok s → Move r s
  thread_started : {s : Runtime} (now : ℕ) → Adapter.thread_started now r ≡ ok s → Move r s
  record_error : {s : Runtime} (message : String) → Adapter.record_error message r ≡ s → Move r s
  mark_degraded : {s : Runtime} → Adapter.mark_degraded r ≡ ok s → Move r s
  read_returned : {s : Runtime} (tick : ℕ) → Adapter.read_returned tick r ≡ s → Move r s
  mark_running : {s : Runtime} (now : ℕ) → Adapter.mark_running now r ≡ ok s → Move r s
  process_raw :
      {s : Runtime} (created processed : Bool)
      → Adapter.process_raw created processed r ≡ s
      → Move r s
  failure_recorded :
      {s : Runtime} (message : String) → Adapter.failure_recorded message r ≡ ok s → Move r s
  failure_counted : {s : Runtime} → Adapter.failure_counted r ≡ s → Move r s
  failure_restarted : {s : Runtime} (now : ℕ) → Adapter.failure_restarted now r ≡ ok s → Move r s

-- Any number of such steps, in any order.
pub data Reach (r : Runtime) : Runtime → Type 0 where
  here : Reach r r
  step : {s t : Runtime} → Reach r s → Move s t → Reach r t

-- The changes of the state that a step may make: none; along one allowed transition; or from RUNNING
-- or DEGRADED to STOPPED, through STOPPING.
abbrev pub IsLegal : AdapterState → AdapterState → Type 0
IsLegal a b =
    (a ≡ b)
    ⊎ ((can_transition a b ≡ true)
        ⊎ ((can_transition a AdapterState.stopping ≡ true) × (b ≡ AdapterState.stopped)))

-- The steps of `start`, `stop` and `restart`, which other threads call; the runtime thread makes the
-- other steps.
abbrev pub is_called : {r s : Runtime} → Move r s → Bool
is_called (Move.start now eq) = true
is_called (Move.stop_request eq) = true
is_called (Move.stop_finish eq) = true
is_called (Move.restart now eq) = true
is_called _ = false

-- The states that they may set, and those that the runtime thread may.
abbrev pub may_set : Bool → AdapterState → Bool
may_set true a = not (is_active a || state_eq a AdapterState.failed)
may_set false a = not (state_eq a AdapterState.stopping || state_eq a AdapterState.stopped)

-- Every step of a run makes such a change, and sets a state that its thread may set.
abbrev pub AllLegal : {r s : Runtime} → Reach r s → Type 0
AllLegal Reach.here = Unit
AllLegal (Reach.step {s} {t} reach m) =
    AllLegal reach
    × IsLegal s.state t.state
    × ((s.state ≡ t.state) ⊎ (may_set (is_called m) t.state ≡ true))

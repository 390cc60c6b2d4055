-- ===== src/Runtime/Adapter/Budget.antt =====
-- The restart budget of `AdapterRuntime`: automatic restarts against `max_restarts`.
use tactical_core.Base.{
  ℕ, zero, suc, ◌+◌, ◌<◌, ◌≡◌, refl, Bool, true, false, String, none, some, arith, ◌∙◌, ap,
}
use tactical_core.Base.Result.{Result, ok, ◌>>=◌}
use tactical_core.Runtime.Lifecycle.{AdapterState, LifecycleError}
use tactical_core.Runtime.Adapter.{Runtime, handle_runtime_failure}

-- `n` runtime-level failures in a row, each as soon as the last one's thread runs.
pub crash_loop : String → ℕ → ℕ → Runtime → Result LifecycleError Runtime
crash_loop message now zero r = ok r
crash_loop message now (suc n) r =
    handle_runtime_failure message now r >>= λ decided. crash_loop message now n decided.1

last_failure :
    (message : String) (now : ℕ) (r : Runtime)
    → r.state ≡ AdapterState.starting
    → r.stop_set ≡ false
    → r.policy.restart_count ≡ r.policy.max_restarts
    → handle_runtime_failure message now r
      ≡ ok (false, record r { state = AdapterState.failed; last_error = some message })
unfolding handle_runtime_failure
last_failure message now r starting going full = ground arith

-- the runtime after a failure with budget left
abbrev restarted : String → ℕ → Runtime → Runtime
restarted message now r = record r {
  state = AdapterState.starting;
  policy = record r.policy { restart_count = r.policy.restart_count + 1; last_healthy_at = none };
  threads_spawned = r.threads_spawned + 1;
  restarts = r.restarts + 1;
  last_error = some message;
  started_at = some now;
}

next_failure :
    (message : String) (now : ℕ) (r : Runtime)
    → r.state ≡ AdapterState.starting
    → r.stop_set ≡ false
    → r.policy.restart_count < r.policy.max_restarts
    → handle_runtime_failure message now r ≡ ok (true, restarted message now r)
unfolding handle_runtime_failure
next_failure message now r starting going room = ground arith

-- A STARTING runtime that is not being stopped and has `left` restarts left survives that many
-- failures in a row, each with a new thread, and the next one leaves it FAILED with the budget
-- used up.
pub crash_loop_bounded :
    (message : String) (now left : ℕ) (r : Runtime)
    → r.state ≡ AdapterState.starting
    → r.stop_set ≡ false
    → r.policy.restart_count + left ≡ r.policy.max_restarts
    → (s : Runtime) × (crash_loop message now (suc left) r ≡ ok s)
      × (s.state ≡ AdapterState.failed)
      × (s.restarts ≡ r.restarts + left)
      × (s.threads_spawned ≡ r.threads_spawned + left)
      × (s.policy.restart_count ≡ s.policy.max_restarts)
unfolding crash_loop
crash_loop_bounded message now zero r starting going full = (
  record r { state = AdapterState.failed; last_error = some message },
  ap (λ d. d >>= λ (decided : Bool × Runtime). ok decided.1)
      (last_failure message now r starting going (omega arith)),
  refl,
  omega arith,
  omega arith,
  omega arith,
)
crash_loop_bounded message now (suc left) r starting going room =
    let r' = restarted message now r in
    let (s, eq, failed, restarts, threads, full) =
      crash_loop_bounded message now left r' refl going (omega arith) in
    (
      s,
      ap (λ d. d >>= λ (decided : Bool × Runtime). crash_loop message now (suc left) decided.1)
            (next_failure message now r starting going (omega arith))
          ∙ eq,
      failed,
      omega (arith, restarts),
      omega (arith, threads),
      full,
    )

-- ===== src/Runtime/Adapter.antt =====
-- backend/app/event_sources/runtime/adapter_runtime.py: `AdapterRuntime`. Each function below is
-- what one holder of the lock does, or one unlocked step of the runtime thread between two of
-- them; a method is their composition. A function returns the new runtime, or the
-- `LifecycleTransitionError` that it raises. Clock readings are arguments.
pub mod Steps
pub mod Budget
pub mod Stop
pub mod Polling
use tactical_core.Base.{ℕ, ◌+◌, Bool, true, false, ◌||◌, Option, none, some, String, if◌then◌else◌}
use tactical_core.Base.Result.{Result, ok, err, ◌>>=◌}
use tactical_core.Runtime.Lifecycle.{
  AdapterState, state_eq, LifecycleError, not_restartable, use_restart, transition,
}
use tactical_core.Runtime.RestartPolicy.{
  RestartPolicy, exhausted, record_failure, record_health, reset,
}

pub record Runtime : Type 0 where
  pub state : AdapterState
  pub policy : RestartPolicy
  pub stop_set : Bool
  pub threads_spawned : ℕ
  pub restarts : ℕ
  pub last_error : Option String
  pub last_success_at : Option ℕ
  pub started_at : Option ℕ
  pub events_processed : ℕ
  pub consecutive_failures : ℕ

abbrev pub Step : Type 0
Step = Result LifecycleError Runtime

-- `AdapterRuntime.__init__`
abbrev pub new_runtime : RestartPolicy → Runtime
new_runtime policy = record {
  state = AdapterState.stopped;
  policy = policy;
  stop_set = false;
  threads_spawned = 0;
  restarts = 0;
  last_error = none;
  last_success_at = none;
  started_at = none;
  events_processed = 0;
  consecutive_failures = 0;
}

-- `_set_state`
unfoldable pub set_state : AdapterState → Runtime → Step
unfolding transition
set_state target r = transition r.state target >>= λ s. ok (record r { state = s })

-- `_spawn_thread`
abbrev pub spawn_thread : ℕ → Runtime → Runtime
spawn_thread now r = record r { started_at = some now; threads_spawned = r.threads_spawned + 1 }

-- the active states, in which `stop` passes through STOPPING
abbrev pub is_active : AdapterState → Bool
is_active s = state_eq s AdapterState.running || state_eq s AdapterState.degraded

unfoldable pub start : ℕ → Runtime → Step
unfolding set_state reset
start now r =
    if state_eq r.state AdapterState.starting || is_active r.state
    then ok r
    else if state_eq r.state AdapterState.stopping
    then ok r
    else if state_eq r.state AdapterState.failed
    then err use_restart
    else (set_state AdapterState.starting r >>= λ r'.
        ok (spawn_thread now (record r' { policy = reset r'.policy; stop_set = false })))

-- the first locked part of `stop`: `none` if it returns at once
unfoldable pub stop_request : Runtime → Result LifecycleError (Option Runtime)
unfolding set_state
stop_request r =
    if state_eq r.state AdapterState.stopped
    then ok none
    else if is_active r.state
    then (set_state AdapterState.stopping r >>= λ r'. ok (some (record r' { stop_set = true })))
    else ok (some (record r { stop_set = true }))

-- the second locked part, after the join
unfoldable pub stop_finish : Runtime → Step
unfolding set_state
stop_finish r =
    (if is_active r.state then set_state AdapterState.stopping r else ok r)
    >>= set_state AdapterState.stopped

-- `stop`, where the runtime thread `meanwhile` does what it does until it ends
unfoldable pub stop : (Runtime → Runtime) → Runtime → Step
unfolding stop_request stop_finish
stop meanwhile r =
    stop_request r >>= λ o. elim o [ none ↦ ok r | some r' ↦ stop_finish (meanwhile r') ]

unfoldable pub restart : ℕ → Runtime → Step
unfolding set_state reset
restart now r =
    if state_eq r.state AdapterState.failed
    then (set_state AdapterState.starting (record r { policy = reset r.policy }) >>= λ r'.
        ok (spawn_thread now (record r' { stop_set = false })))
    else err not_restartable

-- `_run_loop` after `adapter.start` has returned
unfoldable pub thread_started : ℕ → Runtime → Step
unfolding set_state
thread_started now r =
    (if state_eq r.state AdapterState.starting then set_state AdapterState.running r else ok r)
    >>= λ r'. ok (record r' { last_success_at = some now })

-- `_record_error`
unfoldable pub record_error : String → Runtime → Runtime
record_error message r = record r {
  consecutive_failures = r.consecutive_failures + 1;
  last_error = some message;
}

-- `_mark_degraded`
unfoldable pub mark_degraded : Runtime → Step
unfolding set_state
mark_degraded r =
    if state_eq r.state AdapterState.running then set_state AdapterState.degraded r else ok r

-- `_poll_forever`, a read that raises, where no other thread comes between its two parts
unfoldable pub read_failed : String → Runtime → Step
unfolding record_error mark_degraded
read_failed message r = mark_degraded (record_error message r)

-- `_poll_forever`, a read that returns: what is done without the lock
unfoldable pub read_returned : ℕ → Runtime → Runtime
unfolding record_health
read_returned tick r = record r { consecutive_failures = 0; policy = record_health tick r.policy }

-- and its locked part
unfoldable pub mark_running : ℕ → Runtime → Step
unfolding set_state
mark_running now r =
    (if state_eq r.state AdapterState.degraded then set_state AdapterState.running r else ok r)
    >>= λ r'. ok (record r' { last_success_at = some now })

-- both, where no other thread comes between them
unfoldable pub read_succeeded : ℕ → ℕ → Runtime → Step
unfolding read_returned mark_running
read_succeeded tick now r = mark_running now (read_returned tick r)

-- `_process_raw`: the factory and the pipeline return, or one of them raises and the event is dropped
unfoldable pub process_raw : Bool → Bool → Runtime → Runtime
process_raw created processed r =
    if created
    then (if processed then record r { events_processed = r.events_processed + 1 } else r)
    else r

-- `_handle_runtime_failure`, its first locked part
unfoldable pub failure_recorded : String → Runtime → Step
unfolding set_state
failure_recorded message r = set_state AdapterState.failed (record r { last_error = some message })

-- the test without the lock
unfoldable pub gives_up : Runtime → Bool
unfolding exhausted
gives_up r = exhausted r.policy || r.stop_set

-- `record_failure` of the policy, without the lock
unfoldable pub failure_counted : Runtime → Runtime
unfolding record_failure
failure_counted r = record r { policy = record_failure r.policy }

-- the second locked part
unfoldable pub failure_restarted : ℕ → Runtime → Step
unfolding set_state
failure_restarted now r =
    set_state AdapterState.starting (record r { restarts = r.restarts + 1 }) >>= λ r'.
    ok (spawn_thread now r')

-- what follows the first locked part, where no other thread comes between: whether a new thread was
-- spawned
unfoldable pub failure_decided : ℕ → Runtime → Result LifecycleError (Bool × Runtime)
unfolding gives_up failure_counted failure_restarted
failure_decided now r =
    if gives_up r
    then ok (false, r)
    else (failure_restarted now (failure_counted r) >>= λ r'. ok (true, r'))

unfoldable pub handle_runtime_failure :
    String → ℕ → Runtime → Result LifecycleError (Bool × Runtime)
unfolding failure_recorded failure_decided
handle_runtime_failure message now r = failure_recorded message r >>= failure_decided now

-- ===== src/Runtime/Lifecycle.antt =====
-- backend/app/event_sources/runtime/lifecycle.py
use tactical_core.Base.{Bool, true, false, if◌then◌else◌, List, [], ◌∷◌, any}
use tactical_core.Base.Result.{Result, ok, err}

pub data AdapterState : Type 0 where
  stopped starting running degraded stopping failed : AdapterState

abbrev pub state_eq : AdapterState → AdapterState → Bool
state_eq AdapterState.stopped AdapterState.stopped = true
state_eq AdapterState.starting AdapterState.starting = true
state_eq AdapterState.running AdapterState.running = true
state_eq AdapterState.degraded AdapterState.degraded = true
state_eq AdapterState.stopping AdapterState.stopping = true
state_eq AdapterState.failed AdapterState.failed = true
state_eq _ _ = false

-- `_ALLOWED`
abbrev pub allowed : AdapterState → List AdapterState
allowed AdapterState.stopped = AdapterState.starting ∷ []
allowed AdapterState.starting =
    AdapterState.running ∷ AdapterState.failed ∷ AdapterState.stopped ∷ []
allowed AdapterState.running =
    AdapterState.degraded ∷ AdapterState.stopping ∷ AdapterState.failed ∷ []
allowed AdapterState.degraded =
    AdapterState.running ∷ AdapterState.stopping ∷ AdapterState.failed ∷ []
allowed AdapterState.stopping = AdapterState.stopped ∷ AdapterState.failed ∷ []
allowed AdapterState.failed = AdapterState.starting ∷ AdapterState.stopped ∷ []

-- `LifecycleTransitionError`
pub data LifecycleError : Type 0 where
  illegal_transition : AdapterState → AdapterState → LifecycleError
  not_restartable use_restart : LifecycleError

unfoldable pub can_transition : AdapterState → AdapterState → Bool
can_transition current target = any (state_eq target) (allowed current)

unfoldable pub transition : AdapterState → AdapterState → Result LifecycleError AdapterState
unfolding can_transition
transition current target =
    if can_transition current target then ok target else err (illegal_transition current target)

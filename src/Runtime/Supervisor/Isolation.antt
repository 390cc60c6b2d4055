-- ===== src/Runtime/Supervisor/Isolation.antt =====
-- `start_all`, `stop_all` and `shutdown` of adapter_supervisor.py: no runtime keeps another from
-- being started or stopped.
use tactical_core.Base.{String, ◌≡◌, refl, ap, ◌∙◌, false, Option, List, [], ◌∷◌, All, map}
use mathlib.Core.Option
use tactical_core.Base.Result.{Result, ok, err}
use tactical_core.Base.Dict.{Dict, lookup}
use tactical_core.Runtime.Lifecycle.{AdapterState, state_eq, LifecycleError}
use tactical_core.Runtime.Adapter.{Runtime}
use tactical_core.Runtime.Adapter as Adapter
use tactical_core.Runtime.Adapter.Stop.{stop_reaches_stopped}
use tactical_core.Runtime.Supervisor.{Supervisor, Failure, or_same, each, stop, stop_all, shutdown}

abbrev pub names : Dict Runtime → List String
names = map (λ e. e.0)

names-each :
    (method : String → Runtime → Result LifecycleError Runtime) (d : Dict Runtime)
    → names (each method d) ≡ names d
unfolding each
names-each method [] = refl
names-each method ((j, r) ∷ d) = ap (◌∷◌ j) (names-each method d)

-- The runtime with a name, after a method that was called for this name alone.
abbrev pub alone :
    {A : Type 0} → String → Supervisor A → Result Failure (Supervisor A) → Option Runtime
alone name s (ok s') = lookup name s'.runtimes
alone name s (err e) = lookup name s.runtimes

stops :
    (meanwhile : String → Runtime → Runtime) (d : Dict Runtime)
    → ((name : String) (q : Runtime)
        → state_eq q.state AdapterState.stopped ≡ false
        → state_eq (meanwhile name q).state AdapterState.stopped ≡ false)
    → All
        (λ (e : String × Runtime). e.1.state ≡ AdapterState.stopped)
        (each (λ name. Adapter.stop (meanwhile name)) d)
unfolding each
stops meanwhile [] thread = tt
stops meanwhile ((name, r) ∷ d) thread =
    let (r', stopped, state) = stop_reaches_stopped (meanwhile name) r (thread name) in
    (ap (λ o. (or_same r o).state) stopped ∙ state, stops meanwhile d thread)

-- `shutdown` leaves every runtime of the supervisor in STOPPED, under its name, and none in the
-- supervisor, whatever the runtimes' threads do until they end, if no thread itself sets STOPPED.
pub shutdown_stops :
    {A : Type 0} (meanwhile : String → Runtime → Runtime) (s : Supervisor A)
    → ((name : String) (q : Runtime)
        → state_eq q.state AdapterState.stopped ≡ false
        → state_eq (meanwhile name q).state AdapterState.stopped ≡ false)
    → All (λ (e : String × Runtime). e.1.state ≡ AdapterState.stopped) (shutdown meanwhile s).0
      × (names (shutdown meanwhile s).0 ≡ names s.runtimes)
      × ((shutdown meanwhile s).1.runtimes ≡ [])
unfolding shutdown stop_all
shutdown_stops meanwhile s thread = (
  stops meanwhile s.runtimes thread,
  names-each (λ name. Adapter.stop (meanwhile name)) s.runtimes,
  refl,
)

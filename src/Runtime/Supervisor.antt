-- ===== src/Runtime/Supervisor.antt =====
-- backend/app/event_sources/runtime/adapter_supervisor.py and registry/source_registry.py of the
-- same folder: the runtimes and the adapters under their names. `A` is an adapter. The values of
-- the clock and the steps of a runtime's thread until it ends are arguments, by the runtime's name;
-- an adapter's own `start` and `stop` act on the world `W` and return or raise.
pub mod Isolation
use tactical_core.Base.{
  ℕ, ◌+◌, String, str_eq, Bool, true, false, Option, none, some, List, [], ◌∷◌, length,
  if◌then◌else◌,
}
use tactical_core.Base.Result.{Result, ok, err}
use tactical_core.Base.Dict.{Dict, lookup, has_key, insert, remove}
use tactical_core.Runtime.Lifecycle.{LifecycleError}
use tactical_core.Runtime.RestartPolicy.{RestartPolicy}
use tactical_core.Runtime.Adapter.{Runtime, new_runtime, is_active}
use tactical_core.Runtime.Adapter as Adapter

pub data Failure : Type 0 where
  value_error key_error : Failure
  lifecycle : LifecycleError → Failure

-- `SourceRegistry`, a dict of adapters
module _ {A : Type 0} where
  unfoldable pub register : String → A → Dict A → Result Failure (Dict A)
  unfolding has_key insert
  register name adapter adapters =
      if has_key name adapters then err value_error else ok (insert name adapter adapters)

  unfoldable pub unregister :
      {W : Type 0} → (A → W → Bool × W) → String → Dict A → W → Result Failure (Dict A) × W
  unfolding lookup remove
  unregister stop_adapter name adapters w = elim (lookup name adapters) [
    | none ↦ (err key_error, w)
    | some adapter ↦ (ok (remove name adapters), (stop_adapter adapter w).1)
  ]

  -- `start_all` and `stop_all` call each adapter, whichever of them raise, in the order of the
  -- sorted names
  unfoldable pub call_adapters : {W : Type 0} → (A → W → Bool × W) → List String → Dict A → W → W
  unfolding lookup
  call_adapters call [] adapters w = w
  call_adapters call (name ∷ names) adapters w =
      call_adapters call names adapters
        (elim (lookup name adapters) [ none ↦ w | some adapter ↦ (call adapter w).1 ])

pub record Supervisor (A : Type 0) : Type 0 where
  pub runtimes : Dict Runtime
  pub registry : Option (Dict A)

-- The call of a method that raises leaves the runtime.
abbrev pub or_same : Runtime → Result LifecycleError Runtime → Runtime
or_same r (ok r') = r'
or_same r (err e) = r

-- `for runtime in runtimes: try: ... except: log`
unfoldable pub each :
    (String → Runtime → Result LifecycleError Runtime) → Dict Runtime → Dict Runtime
each method [] = []
each method ((name, r) ∷ runtimes) = (name, or_same r (method name r)) ∷ each method runtimes

module _ {A : Type 0} where
  -- the registry after a `register` whose ValueError is caught
  abbrev pub register_too : String → A → Option (Dict A) → Option (Dict A)
  register_too name adapter none = none
  register_too name adapter (some adapters) =
      some (elim (register name adapter adapters) [ ok adapters' ↦ adapters' | err e ↦ adapters ])

  unfoldable pub add_adapter :
      String → A → RestartPolicy → Supervisor A → Result Failure (Runtime × Supervisor A)
  unfolding has_key insert register
  add_adapter name adapter policy s =
      if has_key name s.runtimes
      then err value_error
      else ok (
        new_runtime policy,
        record {
          runtimes = insert name (new_runtime policy) s.runtimes;
          registry = register_too name adapter s.registry;
        },
      )

  unfoldable pub add_runtime : String → Runtime → Supervisor A → Result Failure (Supervisor A)
  unfolding has_key insert
  add_runtime name r s =
      if has_key name s.runtimes
      then err value_error
      else ok (record s { runtimes = insert name r s.runtimes })

  -- a method of the runtime with this name
  unfoldable pub on_runtime :
      (Runtime → Result LifecycleError Runtime)
      → String
      → Supervisor A
      → Result Failure (Supervisor A)
  unfolding lookup insert
  on_runtime method name s = elim (lookup name s.runtimes) [
    | none ↦ err key_error
    | some r ↦ elim (method r) [
      | ok r' ↦ ok (record s { runtimes = insert name r' s.runtimes })
      | err e ↦ err (lifecycle e)
    ]
  ]

  unfoldable pub start : ℕ → String → Supervisor A → Result Failure (Supervisor A)
  unfolding on_runtime Adapter.start
  start now name s = on_runtime (Adapter.start now) name s

  unfoldable pub stop : (Runtime → Runtime) → String → Supervisor A → Result Failure (Supervisor A)
  unfolding on_runtime Adapter.stop
  stop meanwhile name s = on_runtime (Adapter.stop meanwhile) name s

  unfoldable pub restart : ℕ → String → Supervisor A → Result Failure (Supervisor A)
  unfolding on_runtime Adapter.restart
  restart now name s = on_runtime (Adapter.restart now) name s

  -- the registry after an `unregister` whose KeyError is caught
  abbrev pub unregister_too :
      {W : Type 0} → (A → W → Bool × W) → String → Option (Dict A) → W → Option (Dict A) × W
  unregister_too stop_adapter name none w = (none, w)
  unregister_too stop_adapter name (some adapters) w =
      let (r, w') = unregister stop_adapter name adapters w in
      (some (elim r [ ok adapters' ↦ adapters' | err e ↦ adapters ]), w')

  -- the runtime is taken out before it is stopped: if its `stop` raises, the registry keeps the name
  unfoldable pub remove_adapter :
      {W : Type 0}
      → (A → W → Bool × W)
      → (Runtime → Runtime)
      → String
      → Supervisor A
      → W
      → Result Failure Unit × Supervisor A × W
  unfolding lookup remove Adapter.stop unregister
  remove_adapter stop_adapter meanwhile name s w = elim (lookup name s.runtimes) [
    | none ↦ (err key_error, s, w)
    | some r ↦
        let left = remove name s.runtimes in
        elim (Adapter.stop meanwhile r) [
          | err e ↦ (err (lifecycle e), record s { runtimes = left }, w)
          | ok r' ↦
              let (registry, w') = unregister_too stop_adapter name s.registry w in
              (ok tt, record { runtimes = left; registry = registry }, w')
        ]
  ]

  unfoldable pub start_all : (String → ℕ) → Supervisor A → Supervisor A
  unfolding each Adapter.start
  start_all clock s = record s { runtimes = each (λ name. Adapter.start (clock name)) s.runtimes }

  unfoldable pub stop_all : (String → Runtime → Runtime) → Supervisor A → Supervisor A
  unfolding each Adapter.stop
  stop_all meanwhile s = record s {
    runtimes = each (λ name. Adapter.stop (meanwhile name)) s.runtimes;
  }

  -- the runtimes as they are left, and the supervisor without them
  unfoldable pub shutdown :
      (String → Runtime → Runtime) → Supervisor A → Dict Runtime × Supervisor A
  unfolding stop_all
  shutdown meanwhile s =
      let stopped = stop_all meanwhile s in (stopped.runtimes, record stopped { runtimes = [] })

unfoldable pub healthy_count : Dict Runtime → ℕ
healthy_count [] = 0
healthy_count ((name, r) ∷ runtimes) = (if is_active r.state then 1 else 0) + healthy_count runtimes

-- ===== src/Runtime/Health.antt =====
-- backend/app/event_sources/runtime/runtime_health.py: the aggregate health of the registered
-- runtimes, given with their names in the order of `sorted(supervisor.list_runtimes())`.
pub mod Counts
use tactical_core.Base.{
  ℕ, ◌+◌, String, Bool, true, false, not, ◌&&◌, ◌||◌, Option, List, [], ◌∷◌, any, all, map, length,
  if◌then◌else◌,
}
use tactical_core.Runtime.Lifecycle.{AdapterState, state_eq}
use tactical_core.Runtime.Adapter.{Runtime, is_active}

pub data SourceState : Type 0 where
  running degraded failed inactive : SourceState

pub data RuntimeState : Type 0 where
  stopped failed degraded healthy : RuntimeState

abbrev pub source_eq : SourceState → SourceState → Bool
source_eq SourceState.running SourceState.running = true
source_eq SourceState.degraded SourceState.degraded = true
source_eq SourceState.failed SourceState.failed = true
source_eq SourceState.inactive SourceState.inactive = true
source_eq _ _ = false

-- `_classify`
abbrev pub classify : AdapterState → SourceState
classify s =
    if state_eq s AdapterState.running
    then SourceState.running
    else if state_eq s AdapterState.degraded
    then SourceState.degraded
    else if state_eq s AdapterState.failed
    then SourceState.failed
    else SourceState.inactive

-- the end of `_aggregate`
abbrev pub aggregate_rest : List SourceState → RuntimeState
aggregate_rest [] = RuntimeState.healthy
aggregate_rest (s ∷ ss) =
    if all (source_eq SourceState.running) (s ∷ ss)
    then RuntimeState.healthy
    else RuntimeState.degraded

-- `_aggregate`
unfoldable pub aggregate : Bool → List SourceState → RuntimeState
aggregate started states =
    if not started
    then RuntimeState.stopped
    else if any (source_eq SourceState.failed) states
    then RuntimeState.failed
    else if any (source_eq SourceState.degraded) states
    then RuntimeState.degraded
    else aggregate_rest states

pub record SourceStatus : Type 0 where
  pub name : String
  pub adapter_state : AdapterState
  pub classification : SourceState
  pub active : Bool
  pub healthy : Bool
  pub last_error : Option String
  pub events_processed : ℕ
  pub restarts : ℕ

pub record RuntimeHealth : Type 0 where
  pub started : Bool
  pub registered : ℕ
  pub running : ℕ
  pub degraded : ℕ
  pub failed : ℕ
  pub inactive : ℕ
  pub state : RuntimeState
  pub sources : List SourceStatus

-- `RuntimeHealth.healthy_sources`
abbrev pub healthy_sources : RuntimeHealth → ℕ
healthy_sources h = h.running + h.degraded

abbrev pub source_status : String × Runtime → SourceStatus
source_status (name, r) = record {
  name = name;
  adapter_state = r.state;
  classification = classify r.state;
  active = is_active r.state;
  healthy = is_active r.state;
  last_error = r.last_error;
  events_processed = r.events_processed;
  restarts = r.restarts;
}

-- how many times the loop adds one to the counter of a classification
unfoldable pub count : SourceState → List SourceState → ℕ
count s [] = 0
count s (c ∷ cs) = (if source_eq s c then 1 else 0) + count s cs

unfoldable pub runtime_health : Bool → List (String × Runtime) → RuntimeHealth
unfolding aggregate count
runtime_health started runtimes =
    let sources = map source_status runtimes in
    let classifications = map (λ (s : SourceStatus). s.classification) sources in
    record {
      started = started;
      registered = length sources;
      running = count SourceState.running classifications;
      degraded = count SourceState.degraded classifications;
      failed = count SourceState.failed classifications;
      inactive = count SourceState.inactive classifications;
      state = aggregate started classifications;
      sources = sources;
    }

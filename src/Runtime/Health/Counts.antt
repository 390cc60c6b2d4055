-- ===== src/Runtime/Health/Counts.antt =====
-- backend/app/event_sources/runtime/runtime_health.py: the counts of a snapshot and its state.
use tactical_core.Base.{
  ◌+◌, ◌≡◌, refl, ◌∙◌, length-map, String, Bool, true, false, not, ◌==◌, ltb, List, [], ◌∷◌, any,
  all, map, length, if◌then◌else◌, arith,
}
use tactical_core.Runtime.Adapter.{Runtime}
use tactical_core.Runtime.Health.{
  SourceState, RuntimeState, source_eq, aggregate, count, RuntimeHealth, SourceStatus,
  source_status, runtime_health,
}

-- The state that the counts alone give.
abbrev pub state_of_counts : RuntimeHealth → RuntimeState
state_of_counts h =
    if not h.started
    then RuntimeState.stopped
    else if ltb 0 h.failed
    then RuntimeState.failed
    else if ltb 0 h.degraded
    then RuntimeState.degraded
    else if h.running == h.registered
    then RuntimeState.healthy
    else RuntimeState.degraded

any-count : (s : SourceState) (cs : List SourceState) → any (source_eq s) cs ≡ ltb 0 (count s cs)
unfolding count
any-count s [] = refl
any-count s (c ∷ cs) = ground (arith, any-count s cs)

count-total :
    (cs : List SourceState)
    → count SourceState.running cs
        + count SourceState.degraded cs
        + count SourceState.failed cs
        + count SourceState.inactive cs
      ≡ length cs
unfolding count
count-total [] = refl
count-total (SourceState.running ∷ cs) = omega (arith, count-total cs)
count-total (SourceState.degraded ∷ cs) = omega (arith, count-total cs)
count-total (SourceState.failed ∷ cs) = omega (arith, count-total cs)
count-total (SourceState.inactive ∷ cs) = omega (arith, count-total cs)

all-count :
    (cs : List SourceState)
    → all (source_eq SourceState.running) cs ≡ (count SourceState.running cs == length cs)
unfolding count
all-count [] = refl
all-count (SourceState.running ∷ cs) = ground (arith, all-count cs)
all-count (SourceState.degraded ∷ cs) = ground (arith, count-total cs)
all-count (SourceState.failed ∷ cs) = ground (arith, count-total cs)
all-count (SourceState.inactive ∷ cs) = ground (arith, count-total cs)

aggregate-counts :
    (cs : List SourceState)
    → aggregate true cs ≡ (
        if ltb 0 (count SourceState.failed cs)
        then RuntimeState.failed
        else if ltb 0 (count SourceState.degraded cs)
        then RuntimeState.degraded
        else if count SourceState.running cs == length cs
        then RuntimeState.healthy
        else RuntimeState.degraded)
unfolding aggregate count
aggregate-counts [] = refl
aggregate-counts (c ∷ cs) = ground (
  arith,
  any-count SourceState.failed (c ∷ cs),
  any-count SourceState.degraded (c ∷ cs),
  all-count (c ∷ cs),
)

aggregate-stopped : (cs : List SourceState) → aggregate false cs ≡ RuntimeState.stopped
unfolding aggregate count
aggregate-stopped cs = refl

-- For any registered runtimes, the snapshot's four counts add up to the number registered, which is
-- that of the runtimes, and its state is the one that its counts alone give: STOPPED if not
-- started, else FAILED if one failed, else DEGRADED if one is degraded, else HEALTHY if all run.
pub runtime_health_counts :
    (started : Bool) (runtimes : List (String × Runtime))
    → let h = runtime_health started runtimes in
      (h.running + h.degraded + h.failed + h.inactive ≡ length runtimes)
      × (h.registered ≡ length runtimes)
      × (h.state ≡ state_of_counts h)
unfolding runtime_health
runtime_health_counts started runtimes =
    let sources = map source_status runtimes in
    let cs = map (λ (s : SourceStatus). s.classification) sources in
    let size : length cs ≡ length sources = length-map _ sources in
    (
      count-total cs ∙ size ∙ length-map source_status runtimes,
      length-map source_status runtimes,
      ground (arith, aggregate-counts cs, size, aggregate-stopped cs),
    )

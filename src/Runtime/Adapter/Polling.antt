-- ===== src/Runtime/Adapter/Polling.antt =====
-- `AdapterRuntime._poll_forever`: its rounds, and that they never end the loop.
use tactical_core.Base.{
  Bool-cases, inl, inr, if◌then◌else◌, ℕ, ◌≤◌, ◌≡◌, refl, Bool, true, String, List, [], ◌∷◌, arith,
  ◌∙◌, ap, ◌+◌, some,
}
use tactical_core.Base.Result.{ok, ◌>>=◌}
use tactical_core.Runtime.Lifecycle.{AdapterState}
use tactical_core.Runtime.RestartPolicy.{record_health}
use tactical_core.Runtime.Adapter.{
  Runtime, Step, is_active, read_failed, read_succeeded, process_raw,
}

-- One round: `adapter.read` raises, or it returns raw events, each with whether the factory and the
-- pipeline raise on it.
pub data Poll : Type 0 where
  raised : String → Poll
  returned : ℕ → ℕ → List (Bool × Bool) → Poll

unfoldable pub process_all : List (Bool × Bool) → Runtime → Runtime
process_all [] r = r
process_all ((created, processed) ∷ raws) r =
    let rest = process_all raws (process_raw created processed r) in if r.stop_set then r else rest

unfoldable pub poll : Poll → Runtime → Step
poll (raised message) r = read_failed message r
poll (returned tick now raws) r = read_succeeded tick now r >>= λ r'. ok (process_all raws r')

unfoldable pub poll_all : List Poll → Runtime → Step
poll_all [] r = ok r
poll_all (p ∷ ps) r = let rest = poll p r >>= poll_all ps in if r.stop_set then ok r else rest

process_all-state :
    (raws : List (Bool × Bool)) (r : Runtime)
    → ((process_all raws r).state ≡ r.state)
      × ((process_all raws r).policy ≡ r.policy)
      × ((process_all raws r).restarts ≡ r.restarts)
unfolding process_all process_raw
process_all-state [] r = (refl, refl, refl)
process_all-state ((created, processed) ∷ raws) r =
    ground (arith, process_all-state raws (process_raw created processed r))

-- What a round keeps.
abbrev pub Keeps : Runtime → Runtime → Type 0
Keeps r s =
    (is_active s.state ≡ true)
    × (s.policy.restart_count ≤ r.policy.restart_count)
    × (s.restarts ≡ r.restarts)

read_failed-active :
    (message : String) (r : Runtime)
    → is_active r.state ≡ true
    → (s : Runtime) × (read_failed message r ≡ ok s) × Keeps r s
unfolding read_failed
read_failed-active message r active = (
  record r {
    consecutive_failures = r.consecutive_failures + 1;
    last_error = some message;
    state = AdapterState.degraded;
  },
  ground arith,
  (refl, ground arith, refl),
)

read_succeeded-active :
    (tick now : ℕ) (r : Runtime)
    → is_active r.state ≡ true
    → (s : Runtime) × (read_succeeded tick now r ≡ ok s) × Keeps r s
unfolding read_succeeded
read_succeeded-active tick now r active = (
  record r {
    consecutive_failures = 0;
    policy = record_health tick r.policy;
    state = AdapterState.running;
    last_success_at = some now;
  },
  ground arith,
  (refl, ground arith, refl),
)

poll-active :
    (p : Poll) (r : Runtime)
    → is_active r.state ≡ true
    → (s : Runtime) × (poll p r ≡ ok s) × Keeps r s
unfolding poll
poll-active (raised message) r active = read_failed-active message r active
poll-active (returned tick now raws) r active =
    let (s, eq, (on, budget, restarts)) = read_succeeded-active tick now r active in
    let (state, policy, count) = process_all-state raws s in
    (
      process_all raws s,
      ap (λ (o : Step). o >>= λ r'. ok (process_all raws r')) eq,
      (ap is_active state ∙ on, ground (arith, budget, policy), count ∙ restarts),
    )

-- From RUNNING or DEGRADED, until the stop is requested, whatever sequence of reads that raise and reads that return the source
-- gives, and whatever the factory and the pipeline do with the events: no round raises, the runtime
-- is RUNNING or DEGRADED after it, no restart is counted, and the used part of the restart budget
-- has not grown.
pub poll_all_stays_active :
    (ps : List Poll) (r : Runtime)
    → is_active r.state ≡ true
    → (s : Runtime) × (poll_all ps r ≡ ok s) × Keeps r s
unfolding poll_all
poll_all_stays_active [] r active = (r, refl, (active, ground arith, refl))
poll_all_stays_active (p ∷ ps) r active =
    let (q, once, (on, budget, restarts)) = poll-active p r active in
    let (s, more, (on', budget', restarts')) = poll_all_stays_active ps q on in
    let round : poll p r >>= poll_all ps ≡ ok s =
      ap (λ (o : Step). o >>= poll_all ps) once ∙ more in
    elim (Bool-cases r.stop_set) [
      | inl stopping ↦ (
        r,
        ap (λ b. if b then ok r else (poll p r >>= poll_all ps)) stopping,
        (active, ground arith, refl),
      )
      | inr going ↦ (
        s,
        ap (λ b. if b then ok r else (poll p r >>= poll_all ps)) going ∙ round,
        (on', ground arith, restarts' ∙ restarts),
      )
    ]

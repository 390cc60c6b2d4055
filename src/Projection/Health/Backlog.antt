-- ===== src/Projection/Health/Backlog.antt =====
-- backend/app/projection/recovery_health.py over the log and the checkpoint after a catch-up pass.
use tactical_core.Base.{
  ℕ, ◌-◌, ◌≤◌, ◌<◌, ◌≡◌, refl, sym, ◌∙◌, true, Option, none, some, List, [], ◌∷◌, filter, ltb,
  arith, Option-cases, inl, inr, ◌⊎◌,
}
use tactical_core.Projection.EventLog.{EventRow, current_max, max_seq}
use tactical_core.Projection.EventLog.Sequence.{Above, iter_after_seq-Above}
use tactical_core.Projection.CatchUp.{
  Checkpoint, get_last_seq, get_last_event_id, CatchUpResult, Environment, Progress, catch_up,
}
use tactical_core.Projection.CatchUp.Resume.{catch_up-resumes}
use tactical_core.Projection.Health.{
  ProjectionRecoveryState, Recovery, record_recovery, Repositories, read_checkpoint, read_latest,
  persistence_active, backlog_count, classify,
}

-- The repositories over a log and a checkpoint, all reads succeeding.
abbrev pub reads : {E : Type 0} → List (EventRow E) → Option Checkpoint → Repositories
reads log c = record {
  checkpoints =
      some
        (record { last_seq = some (get_last_seq c); last_event_id = some (get_last_event_id c) });
  max_seq = some (some (max_seq log));
}

none_above :
    {E : Type 0} (k : ℕ) (log : List (EventRow E))
    → filter (λ (r : EventRow E). ltb k r.seq) log ≡ []
    → max_seq log ≤ k
unfolding max_seq current_max
none_above k [] h = omega arith
none_above k (r ∷ rs) h = elim (Option-cases (current_max rs)) [
  | inl eq ↦ ground (arith, none_above k rs)
  | inr (m, eq) ↦ ground (arith, none_above k rs)
]

some_above :
    {E : Type 0} (k : ℕ) (log : List (EventRow E)) (r : EventRow E) (rs : List (EventRow E))
    → filter (λ (r : EventRow E). ltb k r.seq) log ≡ r ∷ rs
    → k < max_seq log
unfolding max_seq current_max
some_above k [] r rs h = ground arith
some_above k (x ∷ xs) r rs h = elim (Option-cases (current_max xs)) [
  | inl eq ↦ ground (arith, some_above k xs r rs)
  | inr (m, eq) ↦ ground (arith, some_above k xs r rs)
]

classify-failed :
    (repositories : Repositories) (now : ℕ) (result : CatchUpResult) (r : Recovery)
    → persistence_active repositories ≡ true
    → result.failed ≡ 1
    → classify repositories (record_recovery now (some result) none r)
      ≡ ProjectionRecoveryState.degraded
unfolding classify record_recovery
classify-failed repositories now result r active failed = ground arith

classify-clean :
    (repositories : Repositories) (now : ℕ) (result : CatchUpResult) (r : Recovery)
    → persistence_active repositories ≡ true
    → result.failed ≡ 0
    → backlog_count repositories ≡ 0
    → classify repositories (record_recovery now (some result) none r)
      ≡ ProjectionRecoveryState.healthy
unfolding classify record_recovery
classify-clean repositories now result r active clean empty = ground arith

backlog_count-reads :
    {E : Type 0} (log : List (EventRow E)) (c : Option Checkpoint)
    → backlog_count (reads log c) ≡ max_seq log - get_last_seq c
unfolding backlog_count read_latest read_checkpoint
backlog_count-reads log c = refl

persistence_active-reads :
    {E : Type 0} (log : List (EventRow E)) (c : Option Checkpoint)
    → persistence_active (reads log c) ≡ true
unfolding persistence_active
persistence_active-reads log c = refl

-- The health after a pass over a log in order, once `record_recovery` has its result: either the
-- pass reports no failure, the backlog is 0 and the state is HEALTHY, or it reports one failure, the
-- backlog is above 0 and the state is DEGRADED. It is not RECOVERING.
pub catch_up-classified :
    {E S : Type 0} (env : Environment E S) (n now : ℕ) (log : List (EventRow E)) (p : Progress S)
    (r : Recovery)
    → Above n log
    → (((catch_up env log p).0.failed ≡ 0)
        × (backlog_count (reads log (catch_up env log p).1.checkpoint) ≡ 0)
        × (classify
              (reads log (catch_up env log p).1.checkpoint)
              (record_recovery now (some (catch_up env log p).0) none r)
            ≡ ProjectionRecoveryState.healthy))
      ⊎ (((catch_up env log p).0.failed ≡ 1)
          × (0 < backlog_count (reads log (catch_up env log p).1.checkpoint))
          × (classify
                (reads log (catch_up env log p).1.checkpoint)
                (record_recovery now (some (catch_up env log p).0) none r)
              ≡ ProjectionRecoveryState.degraded))
catch_up-classified env n now log p r h =
    let c = (catch_up env log p).1.checkpoint in
    let result = (catch_up env log p).0 in
    let (done, rest, pending, left, processed, seq, good, ends) = catch_up-resumes env n log p h in
    let above = sym (iter_after_seq-Above (get_last_seq c) n log h) ∙ left in
    let active = persistence_active-reads log c in
    elim ends [
      | inl (empty, clean, stored) ↦
          let zero : backlog_count (reads log c) ≡ 0 =
            omega
              (arith, backlog_count-reads log c, none_above (get_last_seq c) log (above ∙ empty)) in
          inl (clean, zero, classify-clean (reads log c) now result r active clean zero)
      | inr (row, rows, more, failed, stored, why) ↦ inr (
        failed,
        omega (
          arith,
          backlog_count-reads log c,
          some_above (get_last_seq c) log row rows (above ∙ more),
        ),
        classify-failed (reads log c) now result r active failed,
      )
    ]

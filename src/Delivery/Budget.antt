-- ===== src/Delivery/Budget.antt =====
-- The retry budget of outbox_repository.py: `attempts` against `max_attempts`.
use tactical_core.Base.{
  ℕ, zero, suc, ◌≤◌, ◌<◌, String, ◌≡◌, Bool, true, false, List, [], ◌∷◌, All, All-append, arith,
  leb, Bool-cases, inl, inr, Option, none, Option-cases,
}
use tactical_core.Delivery.Row.{State, state_eq, Row, find_pair, All-modify_pair, All-update_where}
use tactical_core.Delivery.Outbox.{
  Policy, fresh_row, enqueue, is_eligible, is_exhausted, retire_exhausted, retired, claimed,
  claimable, claim_one, claim_loop, claim_pending, candidate_ids, set_delivered, mark_delivered,
  set_failed, mark_failed, set_dead_letter, mark_dead_letter, set_requeued, requeue_dead_letter,
}
use tactical_core.Delivery.Trace.{Call, after, run}

-- A row within the budget: no more attempts than allowed, and one left for a row that waits.
pub record InBudget (p : Policy) (r : Row) : Type 0 where
  pub bounded : r.attempts ≤ p.max_attempts
  pub waiting : state_eq r.state State.pending ≡ true → r.attempts < p.max_attempts

module _ (p : Policy) where
  claimed-InBudget :
      (now : ℕ) (rid : String) (r : Row)
      → claimable p now rid r ≡ true
      → InBudget p r
      → InBudget p (claimed now r)
  unfolding is_eligible
  claimed-InBudget now rid r e h = ground arith

  retire-InBudget :
      (now : ℕ) (rows : List Row)
      → All (InBudget p) rows
      → All (InBudget p) (retire_exhausted p now rows)
  unfolding retire_exhausted
  retire-InBudget now rows =
      All-update_where (InBudget p) (is_exhausted p now) (retired now) rows
        (λ r e h. record { bounded = h.bounded; waiting = λ w. cc })

  claim_one-InBudget :
      (now : ℕ) (rid : String) (rows : List Row)
      → All (InBudget p) rows
      → All (InBudget p) (claim_one p now rid rows).1
  unfolding claim_one
  claim_one-InBudget now rid rows h =
      All-update_where (InBudget p) (claimable p now rid) (claimed now) rows
        (claimed-InBudget now rid) h

  claim_loop-InBudget :
      (now : ℕ) (rids : List String) (rows : List Row)
      → All (InBudget p) rows
      → All (InBudget p) (claim_loop p now rids rows).1
  unfolding claim_loop
  claim_loop-InBudget now [] rows h = h
  claim_loop-InBudget now (rid ∷ rids) rows h =
      claim_loop-InBudget now rids (claim_one p now rid rows).1 (claim_one-InBudget now rid rows h)

  claim_pending-InBudget :
      (now limit : ℕ) (consumers : Option (List String)) (rows : List Row)
      → All (InBudget p) rows
      → All (InBudget p) (claim_pending p now limit consumers rows).1
  unfolding claim_pending
  claim_pending-InBudget now limit consumers rows h =
      let rows1 = retire_exhausted p now rows in
      claim_loop-InBudget now (candidate_ids p now limit consumers rows1) rows1
        (retire-InBudget now rows h)

  enqueue-InBudget :
      (uuid : String) (now : ℕ) (e c : String) (rows : List Row)
      → 0 < p.max_attempts
      → All (InBudget p) rows
      → All (InBudget p) (enqueue uuid now e c rows).1
  unfolding enqueue
  enqueue-InBudget uuid now e c rows pos h = elim (Option-cases (find_pair e c rows)) [
    | inl new ↦
        rw (new, enqueue)
          (All-append (InBudget p) rows (fresh_row uuid e c now ∷ []) h
            (record { bounded = omega arith; waiting = λ _. pos }, tt))
    | inr (r, old) ↦ rw (old, enqueue) h
  ]

  requeue-InBudget :
      (now : ℕ) (e c : String) (rows : List Row)
      → 0 < p.max_attempts
      → All (InBudget p) rows
      → All (InBudget p) (requeue_dead_letter now e c rows).1
  unfolding requeue_dead_letter
  requeue-InBudget now e c rows pos h = elim (Option-cases (find_pair e c rows)) [
    | inl none' ↦ rw (none', requeue_dead_letter) h
    | inr (r, old) ↦ elim (Bool-cases (state_eq r.state State.dead_letter)) [
      | inl dead ↦
          rw (old, requeue_dead_letter, dead)
            (All-modify_pair (InBudget p) e c (set_requeued now) rows
              (λ r' h'. record { bounded = omega arith; waiting = λ _. pos }) h)
      | inr other ↦ rw (old, requeue_dead_letter, other) h
    ]
  ]

  set_failed-InBudget :
      (now later : ℕ) (error : List ℕ) (r : Row)
      → InBudget p r
      → InBudget p (set_failed p now later error r)
  set_failed-InBudget now later error r h = elim (Bool-cases (leb p.max_attempts r.attempts)) [
    | inl full ↦ rw full (record { bounded = h.bounded; waiting = λ w. cc })
    | inr room ↦ rw room (record { bounded = h.bounded; waiting = λ w. cc })
  ]

-- Calls that give a claimed row back without a result, as for a consumer that is not registered.
abbrev pub is_return : Call → Bool
is_return (Call.returned now e c) = true
is_return _ = false

after-InBudget :
    (p : Policy) (call : Call) (rows : List Row)
    → 0 < p.max_attempts
    → is_return call ≡ false
    → All (InBudget p) rows
    → All (InBudget p) (after p call rows)
unfolding after
after-InBudget p (Call.enqueue uuid now e c) rows pos no_return h =
    enqueue-InBudget p uuid now e c rows pos h
after-InBudget p (Call.claim now limit consumers) rows pos no_return h =
    claim_pending-InBudget p now limit consumers rows h
after-InBudget p (Call.delivered now e c) rows pos no_return h =
    unfold mark_delivered in
    All-modify_pair (InBudget p) e c (set_delivered now) rows
      (λ r h'. record { bounded = h'.bounded; waiting = λ w. cc }) h
after-InBudget p (Call.returned now e c) rows pos no_return h = cc
after-InBudget p (Call.failed now later e c error) rows pos no_return h =
    unfold mark_failed in
    All-modify_pair (InBudget p) e c (set_failed p now later error) rows
      (set_failed-InBudget p now later error) h
after-InBudget p (Call.buried now e c error) rows pos no_return h =
    unfold mark_dead_letter in
    All-modify_pair (InBudget p) e c (set_dead_letter now error) rows
      (λ r h'. record { bounded = h'.bounded; waiting = λ w. cc }) h
after-InBudget p (Call.requeued now e c) rows pos no_return h =
    requeue-InBudget p now e c rows pos h

-- With at least one attempt allowed, from a table within the retry budget, any run in which no
-- claimed row is given back without a result stays within it: no row passes `max_attempts`
-- attempts, and a PENDING row has one left.
pub run-InBudget :
    (p : Policy) (calls : List Call) (rows : List Row)
    → 0 < p.max_attempts
    → All (λ call. is_return call ≡ false) calls
    → All (InBudget p) rows
    → All (InBudget p) (run p calls rows)
unfolding run
run-InBudget p [] rows pos none_returned h = h
run-InBudget p (call ∷ calls) rows pos none_returned h =
    run-InBudget p calls (after p call rows) pos none_returned.1
      (after-InBudget p call rows pos none_returned.0 h)

-- The calls of `n` passes that find the consumer of a row unregistered.
abbrev pub unregistered_passes : ℕ → ℕ → String → String → List Call
unregistered_passes zero now e c = []
unregistered_passes (suc n) now e c =
    Call.claim now 100 none ∷ Call.returned now e c ∷ unregistered_passes n now e c

-- ===== src/Pipeline/Process/Records.antt =====
-- What the deliveries of a call of `EventPipeline.process` do to the durable store: the log stays,
-- and the table of the outbox changes by methods of its repository alone.
use tactical_core.Base.{
  ℕ, ◌+◌, String, ◌≡◌, refl, ap, sym, ◌∙◌, Bool, true, false, Option, none, some, List, [], ◌∷◌,
  ◌++◌, codes, length, ◌*◌, Bool-cases, Option-cases, inl, inr,
}
use tactical_core.Delivery.Row.{Row}
use tactical_core.Delivery.Outbox.{Policy, claim_pending}
use tactical_core.Delivery.Trace.{Call, after, run}
use tactical_core.Delivery.Dispatcher.{
  Dispatcher, Callback, Resolved, Target, consumer, resolve, deliver_one, deliver_loop,
  deliver_pending,
}
use tactical_core.Pipeline.Effects.{Value, State, event_id}
use tactical_core.Pipeline.Process.{
  Readings, mark_hot, hot_one, hot_path, reading, recover, deliver,
}
use tactical_core.Pipeline.Setup.{Pipeline}

-- A table is what some run of the outbox's methods leaves of another.
pub data Runs (p : Policy) (rows rows' : List Row) : Type 0 where
  by_calls : (calls : List Call) → rows' ≡ run p calls rows → Runs p rows rows'

run-append :
    (p : Policy) (xs ys : List Call) (rows : List Row)
    → run p (xs ++ ys) rows ≡ run p ys (run p xs rows)
unfolding run
run-append p [] ys rows = refl
run-append p (x ∷ xs) ys rows = run-append p xs ys (after p x rows)

module _ (p : Policy) where
  Runs-none : (rows : List Row) → Runs p rows rows
  unfolding run
  Runs-none rows = by_calls [] refl

  Runs-call : (call : Call) (rows : List Row) → Runs p rows (after p call rows)
  unfolding run
  Runs-call call rows = by_calls (call ∷ []) refl

  Runs-trans : {a b c : List Row} → Runs p a b → Runs p b c → Runs p a c
  Runs-trans {a} (by_calls xs eq) (by_calls ys eq') =
      by_calls (xs ++ ys) (eq' ∙ ap (run p ys) eq ∙ sym (run-append p xs ys a))

module _ {W E : Type 0} (d : Dispatcher W E) where
  deliver_one-Runs :
      (now later : ℕ) (r : Row) (w : W) (rows : List Row)
      → Runs d.policy rows (deliver_one d now later r w rows).2
  unfolding deliver_one after
  deliver_one-Runs now later r w rows = elim (Option-cases (consumer r.consumer_id d.consumers)) [
    | inl eq ↦
        rw (eq, deliver_one) (Runs-call d.policy (Call.returned now r.event_id r.consumer_id) rows)
    | inr (f, eq) ↦ called f eq (resolve d r) refl
  ]
    where
      called :
          (f : Callback W E)
          → consumer r.consumer_id d.consumers ≡ some f
          → (x : Resolved E) → resolve d r ≡ x
          → Runs d.policy rows (deliver_one d now later r w rows).2
      called f eq (Resolved.refused error) res =
          rw (eq, deliver_one, res)
            (Runs-call d.policy (Call.failed now later r.event_id r.consumer_id error) rows)
      called f eq (Resolved.target t) res = elim (Bool-cases (f t w).0) [
        | inl returned ↦
            rw (eq, deliver_one, res, returned)
              (Runs-call d.policy (Call.delivered now r.event_id r.consumer_id) rows)
        | inr threw ↦
            rw (eq, deliver_one, res, threw)
              (Runs-call d.policy
                (Call.failed now later r.event_id r.consumer_id (codes "consumer raised")) rows)
      ]

  deliver_loop-Runs :
      (clock : ℕ → ℕ) (n : ℕ) (claimed : List Row) (w : W) (rows : List Row)
      → Runs d.policy rows (deliver_loop d clock n claimed w rows).2
  unfolding deliver_loop
  deliver_loop-Runs clock n [] w rows = Runs-none d.policy rows
  deliver_loop-Runs clock n (r ∷ claimed) w rows =
      let step = deliver_one d (clock n) (clock (n + 1)) r w rows in
      Runs-trans d.policy (deliver_one-Runs (clock n) (clock (n + 1)) r w rows)
        (deliver_loop-Runs clock (n + 2) claimed step.1 step.2)

  -- A pass of `deliver_pending` changes the table by the repository's methods.
  pub deliver_pending-Runs :
      (clock : ℕ → ℕ) (limit : ℕ) (wanted : Option (List String)) (w : W) (rows : List Row)
      → Runs d.policy rows (deliver_pending d clock limit wanted w rows).2
  unfolding deliver_pending after
  deliver_pending-Runs clock limit wanted w rows =
      let claim = claim_pending d.policy (clock 0) limit wanted rows in
      Runs-trans d.policy (Runs-call d.policy (Call.claim (clock 0) limit wanted) rows)
        (deliver_loop-Runs clock 1 claim.0 w claim.1)

module _ {W E X : Type 0} (d : Dispatcher W (Value E X)) where
  mark_hot-Runs :
      (now later : ℕ) (id : Option String) (c : String) (returned : Bool) (rows : List Row)
      → Runs d.policy rows (mark_hot d now later id c returned rows)
  unfolding mark_hot after
  mark_hot-Runs now later none c returned rows = Runs-none d.policy rows
  mark_hot-Runs now later (some id) c true rows = Runs-call d.policy (Call.delivered now id c) rows
  mark_hot-Runs now later (some id) c false rows =
      Runs-call d.policy (Call.failed now later id c (codes "consumer raised")) rows

  -- What each step of the delivery keeps: the log, and the table up to a run.
  abbrev Keeps : State W E → State W E → Type 0
  Keeps s s' = (s'.store.log ≡ s.store.log) × Runs d.policy s.store.deliveries s'.store.deliveries

  hot_one-Keeps :
      (now later : ℕ) (v : Value E X) (c : String) (s : State W E)
      → Keeps s (hot_one d now later v c s)
  unfolding hot_one
  hot_one-Keeps now later v c s = elim (Option-cases (consumer c d.consumers)) [
    | inl eq ↦ rw (eq, hot_one) (refl, Runs-none d.policy s.store.deliveries)
    | inr (f, eq) ↦
        rw (eq, hot_one)
          (
            refl,
            mark_hot-Runs now later (event_id v) c (f (Target.event v) s.world).0
                s.store.deliveries,
          )
  ]

  hot_path-Keeps :
      (clock : ℕ → ℕ) (n : ℕ) (v : Value E X) (cs : List String) (s : State W E)
      → Keeps s (hot_path d clock n v cs s)
  unfolding hot_path
  hot_path-Keeps clock n v [] s = (refl, Runs-none d.policy s.store.deliveries)
  hot_path-Keeps clock n v (c ∷ cs) s =
      let s1 = hot_one d (clock n) (clock (n + 1)) v c s in
      let (log, runs) = hot_one-Keeps (clock n) (clock (n + 1)) v c s in
      let (log', runs') = hot_path-Keeps clock (n + 2) v cs s1 in
      (log' ∙ log, Runs-trans d.policy runs runs')

  recover-Keeps : (clock : ℕ → ℕ) (s : State W E) → Keeps s (recover d clock s)
  unfolding recover
  recover-Keeps clock s =
      (refl, deliver_pending-Runs (reading s.store.log d) clock 100 none s.world s.store.deliveries)

  -- The deliveries that follow a commit keep the log, and change the outbox's table by the methods
  -- of its repository.
  pub deliver-Keeps :
      (c : Readings) (p : Pipeline W E X) (v : Value E X) (s : State W E)
      → (((deliver c p d v s).store.log ≡ s.store.log)
          × Runs d.policy s.store.deliveries (deliver c p d v s).store.deliveries)
  unfolding deliver
  deliver-Keeps c p v s =
      let sent = hot_path d c.clock 1 v p.outbox_consumer_ids s in
      let (log, runs) = hot_path-Keeps c.clock 1 v p.outbox_consumer_ids s in
      let (log', runs') =
        recover-Keeps (λ n. c.clock (n + 1 + 2 * length p.outbox_consumer_ids)) sent in
      (log' ∙ log, Runs-trans d.policy runs runs')

-- ===== src/Pipeline/Process/Durable.antt =====
-- `EventPipeline.process` on the durable path: the commit comes before every side effect of a
-- consumer, and what `clear` leaves of this path.
use tactical_core.Base.{
  String, ◌≡◌, ◌≢◌, refl, ap, sym, subst, ◌∙◌, Bool, true, Option, none, some, List, [], ◌∷◌, All,
  All-mono, ◌⊎◌, inl, inr, arith,
}
use tactical_core.Base.Result.{Result, ok, ok_inj}
use tactical_core.Delivery.Row.{Row}
use tactical_core.Delivery.Outbox.{Policy}
use tactical_core.Delivery.Keys.{keys, holds, run-holds}
use tactical_core.Delivery.Dispatcher.{Dispatcher}
use tactical_core.Projection.EventLog.{save, exists}
use tactical_core.Projection.EventLog.Deliveries.{
  Store, save_with_deliveries, has_delivery, DistinctConsumers, save_with_deliveries_complete,
}
use tactical_core.Pipeline.Effects.{
  Value, canonical, Failure, State, Callable, run_middleware, passes,
}
use tactical_core.Pipeline.Process.{
  Readings, with_uuids, project, deliver, commit_and_deliver, process_durable, route, filtered,
  process, commit,
}
use tactical_core.Pipeline.Setup.{Pipeline, atomic, clear}
use tactical_core.Pipeline.Process.Outcome.{
  Admits, stored, Outcome, accepted, refused, process-Outcome,
}
use tactical_core.Pipeline.Process.Records.{Runs, by_calls, deliver-Keeps}

has_delivery-holds :
    (e c : String) (rows : List Row) → has_delivery e c rows ≡ holds e c (keys rows)
has_delivery-holds e c [] = refl
has_delivery-holds e c (r ∷ rows) = ground (arith, has_delivery-holds e c rows)

Runs-has_delivery :
    (p : Policy) (e c : String) {rows rows' : List Row}
    → Runs p rows rows'
    → has_delivery e c rows ≡ true
    → has_delivery e c rows' ≡ true
Runs-has_delivery p e c {rows} {rows'} (by_calls calls eq) there =
    has_delivery-holds e c rows'
    ∙ ap (λ t. holds e c (keys t)) eq
    ∙ run-holds p calls rows e c (sym (has_delivery-holds e c rows) ∙ there)

project-store :
    {W E X : Type 0} (o : Option (Callable W (Value E X) Unit)) (v : Value E X) (s : State W E)
    → (project o v s).1.store ≡ s.store
unfolding project
project-store none v s = refl
project-store (some f) v s = refl

-- What a successful commit has stored.
saved_lem :
    {E : Type 0} (c : Readings) (ids : List String) (id : String) (columns : E)
    (before store : Store E)
    → DistinctConsumers (with_uuids c ids)
    → save_with_deliveries (c.clock 0) id columns (with_uuids c ids) before ≡ ok store
    → (store.log ≡ save id columns before.log)
      × (exists id store.log ≡ true)
      × All
          (λ (k : String × String). has_delivery id k.1 store.deliveries ≡ true)
          (with_uuids c ids)
saved_lem c ids id columns before store distinct saved =
    let all =
      save_with_deliveries_complete (c.clock 0) id columns (with_uuids c ids) before distinct in
    let same : all.0 ≡ store = ok_inj all.0 store (sym all.1 ∙ saved) in
    subst
      (λ (t : Store _).
        (t.log ≡ save id columns before.log)
        × (exists id t.log ≡ true)
        × All (λ (k : String × String). has_delivery id k.1 t.deliveries ≡ true) (with_uuids c ids))
      same (all.2, all.3, all.5)

module _ {W E X : Type 0} (c : Readings) (p : Pipeline W E X) (d : Dispatcher W (Value E X))
    (v : Value E X) (s : State W E) where
  -- The two ends of a call: what it returns or raises, and the state that it leaves.
  abbrev pub Commits : Result Failure Bool × State W E → Type 0
  Commits (r, s') =
      (id : String) × (columns : E) × (w : W) × Admits p v s.world id columns w
      × (r ≡ ok true)
      × (s'.store.log ≡ save id columns s.store.log)
      × (exists id s'.store.log ≡ true)
      × All (λ (k : String × String). has_delivery id k.1 s'.store.deliveries ≡ true)
          (with_uuids c p.outbox_consumer_ids)

  abbrev pub LeavesStore : Result Failure Bool × State W E → Type 0
  LeavesStore (r, s') = (r ≢ ok true) × (s'.store ≡ s.store)

  Outcome-ends :
      DistinctConsumers (with_uuids c p.outbox_consumer_ids)
      → (o : Result Failure Bool × State W E) → Outcome c p d v s o
      → Commits o ⊎ LeavesStore o
  Outcome-ends distinct o (refused r w no_success) = inr (no_success, refl)
  Outcome-ends distinct o (accepted id columns w store admits saved) =
      let state = stored p id columns w store in
      let same =
        project-store p.projection (canonical id columns) (record { world = w; store = store }) in
      let (log, present, all) =
        saved_lem c p.outbox_consumer_ids id columns s.store store distinct saved in
      let (keeps, runs) = deliver-Keeps d c p (canonical id columns) state in
      let log_kept = keeps ∙ ap (λ (t : Store E). t.log) same in
      inl (
        id,
        columns,
        w,
        admits,
        refl,
        log_kept ∙ log,
        ap (exists id) log_kept ∙ present,
        All-mono _ _ (with_uuids c p.outbox_consumer_ids)
            (λ (k : String × String) h.
              Runs-has_delivery d.policy id k.1 runs
                (ap (λ (t : Store E). has_delivery id k.1 t.deliveries) same ∙ h))
            all,
      )

  -- On the durable path with the atomic repository and consumers that are all different, a call of
  -- `process` ends in one of two ways. Either the callables let the value through as a canonical
  -- event and the call returns True: then the log is the one that `save` leaves, it holds the
  -- event, and the outbox has a record of the event for every one of the consumers, whatever the
  -- projection and the consumers did. Or the call returns False or raises, and leaves the log and
  -- the outbox as they were.
  pub process-Commits :
      p.repository ≡ atomic
      → p.delivery ≡ some d
      → DistinctConsumers (with_uuids c p.outbox_consumer_ids)
      → Commits (process c p v s) ⊎ LeavesStore (process c p v s)
  process-Commits is_atomic delivers distinct =
      Outcome-ends distinct (process c p v s)
        (process-Outcome c p d v s is_atomic distinct delivers)

-- After `clear`, a pipeline that had a delivery dispatcher still accepts every canonical event and
-- delivers it to the registered consumers, while the log stays as it was: the event is not durable.
pub clear-process :
    {W E X : Type 0} (c : Readings) (p : Pipeline W E X) (d : Dispatcher W (Value E X))
    (id : String) (columns : E) (s : State W E)
    → p.delivery ≡ some d
    → (process c (clear p) (canonical id columns) s
        ≡ (ok true, deliver c p d (canonical id columns) s))
      × ((process c (clear p) (canonical id columns) s).1.store.log ≡ s.store.log)
unfolding clear process filtered passes run_middleware route process_durable commit_and_deliver
    commit project deliver
clear-process c p d id columns s delivers =
    let eq = ap (λ o. route c (clear p) o (canonical id columns) s) delivers in
    (eq, ap (λ o. o.1.store.log) eq ∙ (deliver-Keeps d c p (canonical id columns) s).0)

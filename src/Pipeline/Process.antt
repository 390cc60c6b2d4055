-- ===== src/Pipeline/Process.antt =====
-- backend/app/event_pipeline/event_pipeline.py: `process` of `EventPipeline`. The delivery
-- dispatcher reads back events from the durable event log, as backend/app/composition.py wires it.
pub mod Outcome
pub mod Records
pub mod Durable
pub mod HotPath
use tactical_core.Base.{
  ℕ, ◌+◌, String, Bool, true, false, Option, none, some, List, [], ◌∷◌, ◌++◌, map, codes, length,
  ◌*◌, if◌then◌else◌,
}
use tactical_core.Base.Result.{Result, ok, err}
use tactical_core.Delivery.Row.{Row}
use tactical_core.Delivery.Outbox.{mark_delivered, mark_failed}
use tactical_core.Delivery.Dispatcher.{
  Dispatcher, Lookup, Target, consumer, deliver_pending, enqueue,
}
use tactical_core.Projection.EventLog.{EventRow, IntegrityError, integrity_error, get, save}
use tactical_core.Projection.EventLog.Deliveries.{Store, save_with_deliveries}
use tactical_core.Pipeline.Effects.{
  Value, absent, canonical, other, event_id, type_error, integrity, attribute_error, State, Action,
  ◌>>=◌, ◌>>◌, pure, throw, Callable, run_middleware, passes, call,
}
use tactical_core.Pipeline.Setup.{
  Repository, no_repository, atomic, plain, Pipeline, set_dispatcher, set_repository, set_event_bus,
  set_projection, set_delivery_dispatcher, set_outbox_consumer_ids, remove_first, remove_filter,
  add_filter, add_before, add_after, clear,
}

-- The readings of the clock and of `uuid4` that one call makes.
pub record Readings : Type 0 where
  pub clock : ℕ → ℕ
  pub uuid : String → String

abbrev pub with_uuids : Readings → List String → List (String × String)
with_uuids c ids = map (λ id. (c.uuid id, id)) ids

abbrev pub committed : {W E : Type 0} → Result IntegrityError (Store E) → Action W E Unit
committed (ok store) s = (ok tt, record s { store = store })
committed (err integrity_error) s = (err integrity, s)

-- `event_repository.get` of the dispatcher
unfoldable pub look_up : {E X : Type 0} → List (EventRow E) → String → Lookup (Value E X)
unfolding get
look_up log id = elim (get id log) [
  | none ↦ Lookup.missing
  | some r ↦ Lookup.found (canonical r.event_id r.columns)
]

module _ {W E X : Type 0} where
  -- an attribute that is there is called with the event
  unfoldable pub call_if_set : Option (Callable W (Value E X) Unit) → Value E X → Action W E Unit
  call_if_set none v = pure tt
  call_if_set (some f) v = call f v

  -- the best-effort call: what it raises is logged
  unfoldable pub project : Option (Callable W (Value E X) Unit) → Value E X → Action W E Unit
  project none v s = (ok tt, s)
  project (some f) v s = (ok tt, record s { world = (f v s.world).1 })

  -- `dd.enqueue(event_id, consumer_ids)`
  unfoldable pub enqueue_all : Readings → Pipeline W E X → Option String → Action W E Unit
  unfolding enqueue
  enqueue_all c p none s = (ok tt, s)
  enqueue_all c p (some id) s =
      let rows =
        (enqueue (c.clock 0) id (with_uuids c p.outbox_consumer_ids) s.store.deliveries).1 in
      (ok tt, record s { store = record s.store { deliveries = rows } })

  -- step 5 of the durable path, by the kind of the repository
  unfoldable pub commit :
      Readings → Pipeline W E X → Repository W (Value E X) → Value E X → Action W E Unit
  unfolding save_with_deliveries enqueue_all event_id
  commit c p no_repository v s = (ok tt, s)
  commit c p atomic absent s = (err attribute_error, s)
  commit c p atomic (canonical id columns) s =
      committed
        (save_with_deliveries (c.clock 0) id columns (with_uuids c p.outbox_consumer_ids) s.store) s
  commit c p atomic (other id x) s = (err attribute_error, s)
  commit c p (plain save_event) v s = (call save_event v >> enqueue_all c p (event_id v)) s

  -- the outbox's record of the event for one consumer, after its callback returned or raised
  unfoldable pub mark_hot :
      Dispatcher W (Value E X) → ℕ → ℕ → Option String → String → Bool → List Row → List Row
  unfolding mark_delivered mark_failed
  mark_hot d now later none c returned rows = rows
  mark_hot d now later (some id) c true rows = mark_delivered now id c rows
  mark_hot d now later (some id) c false rows =
      mark_failed d.policy now later id c (codes "consumer raised") rows

  -- one round of the hot path, at two readings of the clock
  unfoldable pub hot_one :
      Dispatcher W (Value E X) → ℕ → ℕ → Value E X → String → State W E → State W E
  unfolding consumer mark_hot event_id
  hot_one d now later v c s = elim (consumer c d.consumers) [
    | none ↦ s
    | some callback ↦
        let (returned, w) = callback (Target.event v) s.world in
        record s {
          world = w;
          store = record s.store {
            deliveries = mark_hot d now later (event_id v) c returned s.store.deliveries;
          };
        }
  ]

  -- step 6: `for cid in consumer_ids`
  unfoldable pub hot_path :
      Dispatcher W (Value E X) → (ℕ → ℕ) → ℕ → Value E X → List String → State W E → State W E
  unfolding hot_one
  hot_path d clock n v [] s = s
  hot_path d clock n v (c ∷ cs) s =
      hot_path d clock (n + 2) v cs (hot_one d (clock n) (clock (n + 1)) v c s)

  abbrev pub reading : List (EventRow E) → Dispatcher W (Value E X) → Dispatcher W (Value E X)
  reading log d = record d { events = some (look_up log) }

  -- step 6b: `dd.deliver_pending()`
  unfoldable pub recover : Dispatcher W (Value E X) → (ℕ → ℕ) → State W E → State W E
  unfolding deliver_pending look_up
  recover d clock s =
      let (processed, w, rows) =
        deliver_pending (reading s.store.log d) clock 100 none s.world s.store.deliveries in
      record { world = w; store = record s.store { deliveries = rows } }

  -- steps 6 and 6b; the clock readings come one after the other
  unfoldable pub deliver :
      Readings → Pipeline W E X → Dispatcher W (Value E X) → Value E X → State W E → State W E
  unfolding hot_path recover
  deliver c p d v s =
      let sent = hot_path d c.clock 1 v p.outbox_consumer_ids s in
      recover d (λ n. c.clock (n + 1 + 2 * length p.outbox_consumer_ids)) sent

  -- `_process_durable` after its middleware
  unfoldable pub commit_and_deliver :
      Readings → Pipeline W E X → Dispatcher W (Value E X) → Value E X → Action W E Bool
  unfolding commit project deliver
  commit_and_deliver c p d absent = pure false
  commit_and_deliver c p d v = do
    commit c p p.repository v
    project p.projection v
    λ s. (ok true, deliver c p d v s)

  unfoldable pub process_durable :
      Readings → Pipeline W E X → Dispatcher W (Value E X) → Value E X → Action W E Bool
  unfolding commit_and_deliver run_middleware
  process_durable c p d (canonical id columns) =
      call (run_middleware p.after_middleware) (canonical id columns) >>= commit_and_deliver c p d
  process_durable c p d _ = throw type_error

  -- `self._repository.save(event)` of the path without an outbox
  unfoldable pub save_legacy : Repository W (Value E X) → Value E X → Action W E Unit
  unfolding save
  save_legacy no_repository v s = (ok tt, s)
  save_legacy atomic (canonical id columns) s =
      (ok tt, record s { store = record s.store { log = save id columns s.store.log } })
  save_legacy atomic _ s = (err attribute_error, s)
  save_legacy (plain save_event) v s = call save_event v s

  unfoldable pub publish_legacy : Pipeline W E X → Value E X → Action W E Bool
  unfolding save_legacy project call_if_set
  publish_legacy p absent = pure false
  publish_legacy p v = do
    save_legacy p.repository v
    project p.projection v
    call_if_set p.event_bus v
    pure true

  unfoldable pub process_legacy : Pipeline W E X → Value E X → Action W E Bool
  unfolding call_if_set run_middleware publish_legacy
  process_legacy p v = do
    call_if_set p.dispatcher v
    v' ← call (run_middleware p.after_middleware) v
    publish_legacy p v'

  -- what follows the filters
  unfoldable pub route :
      Readings → Pipeline W E X → Option (Dispatcher W (Value E X)) → Value E X → Action W E Bool
  unfolding process_durable process_legacy
  route c p (some d) v = process_durable c p d v
  route c p none v = process_legacy p v

  -- `process` after the first middleware
  unfoldable pub filtered : Readings → Pipeline W E X → Value E X → Action W E Bool
  unfolding passes route
  filtered c p absent = pure false
  filtered c p v = do
    pass ← call (passes p.filters) v
    if pass then route c p p.delivery v else pure false

  unfoldable pub process : Readings → Pipeline W E X → Value E X → Action W E Bool
  unfolding run_middleware filtered
  process c p v = call (run_middleware p.before_middleware) v >>= filtered c p

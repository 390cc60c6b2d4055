-- ===== src/Pipeline/Tests.antt =====
-- The pipeline, the filters and the bus on concrete values. The world counts the calls.
use tactical_core.Base.{
  ℕ, ◌+◌, String, ◌≡◌, refl, true, false, Bool, none, some, List, [], ◌∷◌, All, ◌⊎◌, arith, any,
  length, ltb,
}
use tactical_core.Base.Result.{ok}
use tactical_core.Delivery.Row.{Row, State as RowState, find_pair}
use tactical_core.Delivery.Outbox.{Policy, is_eligible, backoff_delay}
use tactical_core.Delivery.Dispatcher.{Dispatcher, Callback, Target, consumer}
use tactical_core.Pipeline.Effects.{Value, canonical, State}
use tactical_core.Pipeline.Process.{Readings, hot_one, hot_path, deliver, process}
use tactical_core.Pipeline.Setup.{Pipeline, atomic, clear}
use tactical_core.Pipeline.Process.Durable.{Commits, LeavesStore, process-Commits, clear-process}
use tactical_core.Pipeline.Process.HotPath.{Sent, notify, hot_path_settles, hot_one-reopens}
use tactical_core.Pipeline.Event.{Event}
use tactical_core.Pipeline.Filter.{
  Filter, source_filter, timestamp_range_filter, not_filter, or_filter, cons, nil,
}
use tactical_core.Pipeline.Filter as Filters
use tactical_core.Pipeline.Filter.Ids.{HasDistinctIds, find, keep}
use tactical_core.Pipeline.Filter.Meaning.{accepts, run-accepts}
use tactical_core.Pipeline.Bus.{Subscription, publish, subscriber_count, unsubscribe}
use tactical_core.Pipeline.Bus.Registry as Registry
use tactical_core.Pipeline.Bus.Registry.{
  Call, subscribing, unsubscribing, registry, of_type, same_handle, returned, outcomes, world_after,
  run-registry,
}

abbrev policy : Policy
policy = record { stale_lease = 300; max_attempts = 3; backoff_base = 10 }

-- Returns for an event, and raises for a record.
abbrev observing : Callback ℕ (Value ℕ ℕ)
observing (Target.event v) w = (true, w + 1)
observing (Target.bare_record r) w = (false, w)

abbrev failing : Callback ℕ (Value ℕ ℕ)
failing v w = (false, w + 1)

abbrev dispatcher : Dispatcher ℕ (Value ℕ ℕ)
dispatcher = record {
  policy = policy;
  events = none;
  consumers = ("plugins", observing) ∷ ("observation", failing) ∷ [];
}

abbrev pipeline : Pipeline ℕ ℕ ℕ
pipeline = record {
  before_middleware = (λ v w. (ok v, w)) ∷ [];
  filters = (λ v w. (ok (ltb w 5), w)) ∷ [];
  after_middleware = [];
  dispatcher = none;
  repository = atomic;
  event_bus = none;
  projection = some (λ v w. (ok tt, w + 100));
  delivery = some dispatcher;
  outbox_consumer_ids = "plugins" ∷ "observation" ∷ [];
}

abbrev readings : Readings
readings = record { clock = λ n. 1000 + n; uuid = λ c. c }

abbrev start : State ℕ ℕ
start = record { world = 0; store = record { log = []; deliveries = [] } }

process-Commits_example :
    Commits readings pipeline dispatcher
      (canonical "e1" 7)
      start
      (process readings pipeline (canonical "e1" 7) start)
    ⊎ LeavesStore readings pipeline dispatcher
        (canonical "e1" 7)
        start
        (process readings pipeline (canonical "e1" 7) start)
process-Commits_example =
    process-Commits readings pipeline dispatcher (canonical "e1" 7) start refl refl
      (refl, (refl, tt))

process_accepts : (process readings pipeline (canonical "e1" 7) start).0 ≡ ok true
unfolding process
process_accepts = refl

clear-process_example :
    (process readings (clear pipeline) (canonical "e1" 7) start
      ≡ (ok true, deliver readings pipeline dispatcher (canonical "e1" 7) start))
    × ((process readings (clear pipeline) (canonical "e1" 7) start).1.store.log ≡ [])
clear-process_example = clear-process readings pipeline dispatcher "e1" 7 start refl

abbrev delivered_row : String → Row
delivered_row c = record {
  id = c;
  event_id = "e1";
  consumer_id = c;
  state = RowState.delivered;
  attempts = 1;
  next_attempt_at = none;
  last_error = none;
  created_at = 10;
  updated_at = 10;
}

abbrev again : State ℕ ℕ
again = record {
  world = 0;
  store = record {
    log = record { seq = 1; event_id = "e1"; columns = 7 } ∷ [];
    deliveries = delivered_row "plugins" ∷ delivered_row "observation" ∷ delivered_row "ui" ∷ [];
  };
}

hot_path_settles_example :
    ((hot_path dispatcher readings.clock 1 (canonical "e1" 7) ("plugins" ∷ "ui" ∷ []) again).world
      ≡ notify dispatcher "e1" 7 ("plugins" ∷ "ui" ∷ []) 0)
    × All
        (λ c.
          Sent dispatcher "e1" 7 c again.store.deliveries
            (hot_path dispatcher readings.clock 1
              (canonical "e1" 7)
              ("plugins" ∷ "ui" ∷ [])
              again).store.deliveries)
        ("plugins" ∷ "ui" ∷ [])
unfolding find_pair
hot_path_settles_example =
    hot_path_settles dispatcher "e1" 7 readings.clock 1 ("plugins" ∷ "ui" ∷ []) again
      (refl, (refl, tt)) (refl, (refl, tt))

hot_one-reopens_example :
    (r' : Row) × (find_pair "e1" "observation"
        (hot_one dispatcher 20 21 (canonical "e1" 7) "observation" again).store.deliveries
      ≡ some r')
    × (r'.state ≡ RowState.failed)
    × (r'.attempts ≡ 1)
    × (is_eligible policy (21 + backoff_delay policy 1) r' ≡ true)
unfolding find_pair consumer
hot_one-reopens_example =
    hot_one-reopens dispatcher "e1" 7 20 21 "observation" again failing
      (delivered_row "observation") refl refl refl refl (omega arith)

abbrev observed : String → String → ℕ → Event ℕ
observed id source t = record {
  event_id = id;
  entity_id = none;
  event_type = "signal.received";
  timestamp = t;
  source = source;
  payload = [];
  metadata = none;
  created_at = t;
}

abbrev events : List (Event ℕ)
events = observed "a" "radio" 10 ∷ observed "b" "signal" 20 ∷ observed "c" "radio" 30 ∷ []

abbrev late_or_not_radio : Filter ℕ
late_or_not_radio = or_filter (
    cons (timestamp_range_filter (some 25) none)
      (cons (not_filter (source_filter ("radio" ∷ []))) nil))

run-accepts_example :
    HasDistinctIds (Filters.run late_or_not_radio events)
    × ((id : String)
        → find id (Filters.run late_or_not_radio events)
          ≡ keep (accepts late_or_not_radio) (find id events))
run-accepts_example = run-accepts late_or_not_radio events (refl, (refl, (refl, tt)))

late_or_not_radio-ids : Filters.ids (Filters.run late_or_not_radio events) ≡ "c" ∷ "b" ∷ []
unfolding Filters.run
late_or_not_radio-ids = refl

abbrev counting : ℕ → ℕ → Bool × ℕ
counting v w = (true, w + v)

abbrev handle : Subscription ℕ ℕ
handle = record { event_type = "t"; callback = counting; id = "s1" }

abbrev calls : List (Call ℕ ℕ)
calls =
    subscribing "s1" "t" counting
    ∷ subscribing "s2" "u" counting
    ∷ subscribing "s3" "t" counting
    ∷ unsubscribing handle
    ∷ []

run-registry_example :
    (publish (Registry.run calls []) (λ v. some "t") 3 0 ≡ (
      returned (outcomes (of_type "t" (registry calls [])) 3 0),
      world_after (of_type "t" (registry calls [])) 3 0,
    ))
    × (length (outcomes (of_type "t" (registry calls [])) 3 0)
        ≡ length (of_type "t" (registry calls [])))
    × (subscriber_count (Registry.run calls []) ≡ length (registry calls []))
    × ((unsubscribe handle (Registry.run calls [])).0
        ≡ any (same_handle handle) (registry calls []))
run-registry_example = run-registry calls (λ v. some "t") 3 0 "t" handle refl

-- ===== src/Pipeline/Service.antt =====
-- backend/app/event_service/event_service.py: `EventService` over the repository in memory. An item
-- to import is what `Event.from_dict` makes of it: an event, or the exception that it raises.
pub mod Archive
use tactical_core.Base.{
  ℕ, ◌+◌, String, str_eq, Bool, true, false, Option, none, some, List, [], ◌∷◌, length,
  if◌then◌else◌,
}
use tactical_core.Base.Dict.{Dict, lookup, insert, values}
use tactical_core.Pipeline.Event.{Event, Metadata}
use tactical_core.Pipeline.Repository.{Store, save, get, exists, delete, list_all}

-- `counts[key] = counts.get(key, 0) + 1`
abbrev pub count_one : String → Dict ℕ → Dict ℕ
count_one key counts = insert key (elim (lookup key counts) [ none ↦ 1 | some n ↦ n + 1 ]) counts

module _ {V : Type 0} where
  unfoldable pub save_event : Event V → Store V → Store V
  unfolding save
  save_event e store = save e store

  unfoldable pub save_events : List (Event V) → Store V → Store V
  unfolding save
  save_events [] store = store
  save_events (e ∷ es) store = save_events es (save e store)

  unfoldable pub get_event : String → Store V → Option (Event V)
  unfolding get
  get_event id store = get id store

  unfoldable pub get_events : Store V → List (Event V)
  unfolding list_all
  get_events store = list_all store

  -- an event always has metadata, by its type
  abbrev pub correlation : Event V → Option String
  correlation e = elim e.metadata [ none ↦ none | some m ↦ m.correlation_id ]

  -- `properties={"original_event_id": event_id}`; `text` makes a value of a text
  abbrev pub archived : (String → V) → String → Event V → Event V
  archived text id e = record e {
    event_id = id;
    metadata = some (record {
      tags = "archived" ∷ [];
      properties = ("original_event_id", text id) ∷ [];
      correlation_id = correlation e;
    });
  }

  unfoldable pub archive_event : (String → V) → String → Store V → Bool × Store V
  unfolding get delete save
  archive_event text id store = elim (get id store) [
    | none ↦ (false, store)
    | some original ↦
        let (deleted, store') = delete id store in
        (deleted, if deleted then save (archived text id original) store' else store')
  ]

  -- the loop of `statistics`, by a key of the event
  unfoldable pub count_by : (Event V → String) → List (Event V) → Dict ℕ → Dict ℕ
  unfolding insert lookup
  count_by key [] counts = counts
  count_by key (e ∷ es) counts = count_by key es (count_one (key e) counts)

  unfoldable pub statistics : Store V → ℕ × Dict ℕ × Dict ℕ
  unfolding list_all count_by
  statistics store = (
    length (list_all store),
    count_by (λ e. e.event_type) (list_all store) [],
    count_by (λ e. e.source) (list_all store) [],
  )

  -- `import_events`: an item that raises is skipped
  unfoldable pub import_events : List (Option (Event V)) → Store V → ℕ × Store V
  unfolding save
  import_events [] store = (0, store)
  import_events (item ∷ items) store =
      let rest = import_events items (elim item [ none ↦ store | some e ↦ save e store ]) in
      ((elim item [ none ↦ 0 | some e ↦ 1 ]) + rest.0, rest.1)

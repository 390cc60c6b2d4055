-- ===== src/Pipeline/Repository.antt =====
-- backend/app/event_repository/memory_event_repository.py: `MemoryEventRepository`, a dict of events.
use tactical_core.Base.{
  ℕ, String, str_eq, Bool, true, false, Option, none, some, List, filter, length, if◌then◌else◌,
}
use tactical_core.Base.Dict.{Dict, lookup, has_key, insert, remove, values}
use tactical_core.Pipeline.Event.{Event}

abbrev pub Store : Type 0 → Type 0
Store V = Dict (Event V)

module _ {V : Type 0} where
  unfoldable pub save : Event V → Store V → Store V
  unfolding insert
  save e store = insert e.event_id e store

  unfoldable pub get : String → Store V → Option (Event V)
  unfolding lookup
  get id store = lookup id store

  unfoldable pub exists : String → Store V → Bool
  unfolding has_key
  exists id store = has_key id store

  unfoldable pub delete : String → Store V → Bool × Store V
  unfolding has_key remove
  delete id store = if has_key id store then (true, remove id store) else (false, store)

  unfoldable pub list_all : Store V → List (Event V)
  list_all store = values store

  unfoldable pub list_by_type : String → Store V → List (Event V)
  list_by_type t store = filter (λ e. str_eq e.event_type t) (values store)

  unfoldable pub list_by_source : String → Store V → List (Event V)
  list_by_source source store = filter (λ e. str_eq e.source source) (values store)

  -- `e.metadata.correlation_id == correlation_id`; every event has metadata here
  abbrev pub correlates : String → Event V → Bool
  correlates id e = elim e.metadata [
    | none ↦ false
    | some m ↦ elim m.correlation_id [ none ↦ false | some c ↦ str_eq c id ]
  ]

  unfoldable pub list_by_correlation : String → Store V → List (Event V)
  list_by_correlation id store = filter (correlates id) (values store)

  unfoldable pub count : Store V → ℕ
  count store = length store

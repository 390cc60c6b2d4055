-- ===== src/Pipeline/Filter.antt =====
-- backend/app/event_filter/event_filter.py: filters of lists of events, and their combinations.
-- Times are microseconds; values of properties have the type `V`. A predicate returns a Boolean.
pub mod Ids
pub mod Meaning
use tactical_core.Base.{
  ℕ, String, str_eq, Bool, true, false, not, ◌&&◌, ◌||◌, Option, none, some, List, [], ◌∷◌, ◌++◌,
  any, filter, map, leb, ltb, if◌then◌else◌,
}
use tactical_core.Base.Dict.{lookup}
use tactical_core.Pipeline.Event.{Event, Metadata}
use tactical_core.Base.Result.{Result, ok, err}

-- A filter object; `MetadataFilter` holds the test `== property_value` of what `dict.get` gives.
mutual
  pub data Filter (V : Type 0) : Type 0 where
    event_type_filter : List String → Filter V
    source_filter : List String → Filter V
    correlation_id_filter : String → Filter V
    timestamp_range_filter : Option ℕ → Option ℕ → Filter V
    metadata_filter : String → (Option V → Bool) → Filter V
    predicate_filter : (Event V → Bool) → Filter V
    and_filter : Filters V → Filter V
    or_filter : Filters V → Filter V
    not_filter : Filter V → Filter V

  pub data Filters (V : Type 0) : Type 0 where
    nil : Filters V
    cons : Filter V → Filters V → Filters V

pub data ValueError : Type 0 where
  value_error : ValueError

-- The checks of the constructors.
unfoldable pub new_event_type_filter : {V : Type 0} → List String → Result ValueError (Filter V)
new_event_type_filter [] = err value_error
new_event_type_filter (t ∷ ts) = ok (event_type_filter (t ∷ ts))

unfoldable pub new_source_filter : {V : Type 0} → List String → Result ValueError (Filter V)
new_source_filter [] = err value_error
new_source_filter (s ∷ sources) = ok (source_filter (s ∷ sources))

unfoldable pub new_correlation_id_filter : {V : Type 0} → String → Result ValueError (Filter V)
new_correlation_id_filter id =
    if str_eq id "" then err value_error else ok (correlation_id_filter id)

unfoldable pub new_timestamp_range_filter :
    {V : Type 0} → Option ℕ → Option ℕ → Result ValueError (Filter V)
new_timestamp_range_filter (some start) (some end) =
    if ltb end start then err value_error else ok (timestamp_range_filter (some start) (some end))
new_timestamp_range_filter start end = ok (timestamp_range_filter start end)

unfoldable pub new_metadata_filter :
    {V : Type 0} → String → (Option V → Bool) → Result ValueError (Filter V)
new_metadata_filter key test =
    if str_eq key "" then err value_error else ok (metadata_filter key test)

unfoldable pub new_and_filter : {V : Type 0} → Filters V → Result ValueError (Filter V)
new_and_filter nil = err value_error
new_and_filter (cons f fs) = ok (and_filter (cons f fs))

unfoldable pub new_or_filter : {V : Type 0} → Filters V → Result ValueError (Filter V)
new_or_filter nil = err value_error
new_or_filter (cons f fs) = ok (or_filter (cons f fs))

abbrev pub contains : String → List String → Bool
contains x = any (str_eq x)

abbrev pub ids : {V : Type 0} → List (Event V) → List String
ids = map (λ e. e.event_id)

abbrev pub has_correlation : {V : Type 0} → String → Event V → Bool
has_correlation id e = elim e.metadata [
  | none ↦ false
  | some m ↦ elim m.correlation_id [ none ↦ false | some c ↦ str_eq c id ]
]

unfoldable pub has_property : {V : Type 0} → String → (Option V → Bool) → Event V → Bool
unfolding lookup
has_property key test e = elim e.metadata [ none ↦ false | some m ↦ test (lookup key m.properties) ]

abbrev pub not_before : {V : Type 0} → Option ℕ → List (Event V) → List (Event V)
not_before none events = events
not_before (some start) events = filter (λ e. leb start e.timestamp) events

abbrev pub not_after : {V : Type 0} → Option ℕ → List (Event V) → List (Event V)
not_after none events = events
not_after (some end) events = filter (λ e. leb e.timestamp end) events

-- the inner loop of `OrFilter`, on the set of ids that were seen and the list of results
unfoldable pub add_unseen :
    {V : Type 0} → List (Event V) → List String × List (Event V) → List String × List (Event V)
add_unseen [] acc = acc
add_unseen (e ∷ events) (seen, result) =
    add_unseen events
      (if contains e.event_id seen then (seen, result) else (e.event_id ∷ seen, result ++ e ∷ []))

unfoldable mutual
  unfolding has_property add_unseen

  -- `filter`
  pub run : {V : Type 0} → Filter V → List (Event V) → List (Event V)
  run (event_type_filter types) events = filter (λ e. contains e.event_type types) events
  run (source_filter sources) events = filter (λ e. contains e.source sources) events
  run (correlation_id_filter id) events = filter (has_correlation id) events
  run (timestamp_range_filter start end) events = not_after end (not_before start events)
  run (metadata_filter key test) events = filter (has_property key test) events
  run (predicate_filter predicate) events = filter predicate events
  run (and_filter fs) events = run_all fs events
  run (or_filter fs) events = (run_any fs events ([], [])).1
  run (not_filter f) events =
      let included = ids (run f events) in filter (λ e. not (contains e.event_id included)) events

  pub run_all : {V : Type 0} → Filters V → List (Event V) → List (Event V)
  run_all nil events = events
  run_all (cons f fs) events = run_all fs (run f events)

  pub run_any :
      {V : Type 0}
      → Filters V
      → List (Event V)
      → List String × List (Event V)
      → List String × List (Event V)
  run_any nil events acc = acc
  run_any (cons f fs) events acc = run_any fs events (add_unseen (run f events) acc)

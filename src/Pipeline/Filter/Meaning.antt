-- ===== src/Pipeline/Filter/Meaning.antt =====
-- The filters of event_filter.py against the condition on one event that they stand for.
use tactical_core.Base.{
  ℕ, String, ◌≡◌, refl, ap, ◌∙◌, Bool, true, false, not, ◌&&◌, ◌||◌, Option, none, some, List, [],
  filter, leb, arith,
}
use tactical_core.Pipeline.Filter.Ids.{
  HasDistinctIds, find, keep, or_else, FiltersBy, contains-find, filter-FiltersBy, keep-keep,
  find-id, Seen, add_unseen-Seen, either-keep,
}
use tactical_core.Pipeline.Event.{Event}
use tactical_core.Pipeline.Filter.{
  Filter, event_type_filter, source_filter, correlation_id_filter, timestamp_range_filter,
  metadata_filter, predicate_filter, and_filter, or_filter, not_filter, Filters, nil, cons,
  contains, ids, has_correlation, has_property, not_before, not_after, add_unseen, run, run_all,
  run_any,
}

abbrev from : Option ℕ → ℕ → Bool
from none t = true
from (some start) t = leb start t

abbrev until : Option ℕ → ℕ → Bool
until none t = true
until (some end) t = leb t end

-- The condition on one event.
mutual
  unfolding has_property

  pub accepts : {V : Type 0} → Filter V → Event V → Bool
  accepts (event_type_filter types) e = contains e.event_type types
  accepts (source_filter sources) e = contains e.source sources
  accepts (correlation_id_filter id) e = has_correlation id e
  accepts (timestamp_range_filter start end) e = from start e.timestamp && until end e.timestamp
  accepts (metadata_filter key test) e = has_property key test e
  accepts (predicate_filter predicate) e = predicate e
  accepts (and_filter fs) e = accepts_all fs e
  accepts (or_filter fs) e = accepts_any fs e
  accepts (not_filter f) e = not (accepts f e)

  accepts_all : {V : Type 0} → Filters V → Event V → Bool
  accepts_all nil e = true
  accepts_all (cons f fs) e = accepts f e && accepts_all fs e

  accepts_any : {V : Type 0} → Filters V → Event V → Bool
  accepts_any nil e = false
  accepts_any (cons f fs) e = accepts f e || accepts_any fs e

not_included :
    {V : Type 0} (f : Filter V) (events result : List (Event V))
    → FiltersBy (accepts f) events result
    → (id : String)
    → keep (λ e. not (contains e.event_id (ids result))) (find id events)
      ≡ keep (λ e. not (accepts f e)) (find id events)
not_included {V} f events result h id = go (find id events) refl
  where
    go :
        (o : Option (Event V))
        → find id events ≡ o
        → keep (λ e. not (contains e.event_id (ids result))) o ≡ keep (λ e. not (accepts f e)) o
    go none eq = refl
    go (some e) eq =
        let same = find-id id events e eq in
        ground (arith, contains-find e.event_id result, ap (λ k. find k result) same, h.1 id, eq)

range-FiltersBy :
    {V : Type 0} (start end : Option ℕ) (events : List (Event V))
    → HasDistinctIds events
    → FiltersBy
        (λ e. from start e.timestamp && until end e.timestamp)
        events
        (not_after end (not_before start events))
range-FiltersBy none none events h = (h, λ id. ground arith)
range-FiltersBy none (some b) events h = filter-FiltersBy (λ e. leb e.timestamp b) events h
range-FiltersBy (some a) none events h =
    let (distinct, found) = filter-FiltersBy (λ e. leb a e.timestamp) events h in
    (distinct, λ id. found id ∙ ground arith)
range-FiltersBy (some a) (some b) events h =
    let (distinct, found) = filter-FiltersBy (λ e. leb a e.timestamp) events h in
    let (distinct', found') =
      filter-FiltersBy (λ e. leb e.timestamp b) (filter (λ e. leb a e.timestamp) events) distinct in
    (
      distinct',
      λ id.
          found' id
          ∙ ap (keep (λ e. leb e.timestamp b)) (found id)
          ∙ keep-keep (λ e. leb a e.timestamp) (λ e. leb e.timestamp b) (find id events),
    )

-- The events that a filter keeps, by induction on the filter.
mutual
  unfolding run accepts find

  run-FiltersBy :
      {V : Type 0} (f : Filter V) (events : List (Event V))
      → HasDistinctIds events
      → FiltersBy (accepts f) events (run f events)
  run-FiltersBy (event_type_filter types) events h =
      filter-FiltersBy (λ e. contains e.event_type types) events h
  run-FiltersBy (source_filter sources) events h =
      filter-FiltersBy (λ e. contains e.source sources) events h
  run-FiltersBy (correlation_id_filter id) events h = filter-FiltersBy (has_correlation id) events h
  run-FiltersBy (timestamp_range_filter start end) events h = range-FiltersBy start end events h
  run-FiltersBy (metadata_filter key test) events h =
      filter-FiltersBy (has_property key test) events h
  run-FiltersBy (predicate_filter predicate) events h = filter-FiltersBy predicate events h
  run-FiltersBy (and_filter fs) events h = run_all-FiltersBy fs events h
  run-FiltersBy (or_filter fs) events h =
      let (seen, found) = run_any-Seen fs events [] [] (λ id. refl, tt) h in (seen.1, found)
  run-FiltersBy (not_filter f) events h =
      let result = run f events in
      let (distinct, found) =
        filter-FiltersBy (λ e. not (contains e.event_id (ids result))) events h in
      (distinct, λ id. found id ∙ not_included f events result (run-FiltersBy f events h) id)

  run_all-FiltersBy :
      {V : Type 0} (fs : Filters V) (events : List (Event V))
      → HasDistinctIds events
      → FiltersBy (accepts_all fs) events (run_all fs events)
  run_all-FiltersBy nil events h = (h, λ id. ground arith)
  run_all-FiltersBy (cons f fs) events h =
      let (distinct, found) = run-FiltersBy f events h in
      let (distinct', found') = run_all-FiltersBy fs (run f events) distinct in
      (
        distinct',
        λ id.
            found' id
            ∙ ap (keep (accepts_all fs)) (found id)
            ∙ keep-keep (accepts f) (accepts_all fs) (find id events),
      )

  run_any-Seen :
      {V : Type 0} (fs : Filters V) (events : List (Event V)) (seen : List String)
      (result : List (Event V))
      → Seen (seen, result)
      → HasDistinctIds events
      → Seen (run_any fs events (seen, result))
        × ((id : String)
            → find id (run_any fs events (seen, result)).1
              ≡ or_else (find id result) (keep (accepts_any fs) (find id events)))
  run_any-Seen nil events seen result s h = (s, λ id. ground arith)
  run_any-Seen (cons f fs) events seen result s h =
      let (distinct, kept) = run-FiltersBy f events h in
      let acc = add_unseen (run f events) (seen, result) in
      let (s1, found) = add_unseen-Seen (run f events) seen result s in
      let (s2, found') = run_any-Seen fs events acc.0 acc.1 s1 h in
      (
        s2,
        λ id.
            found' id
            ∙ ap (λ o. or_else o (keep (accepts_any fs) (find id events)))
                (found id ∙ ap (or_else (find id result)) (kept id))
            ∙ either-keep (accepts f) (accepts_any fs) (find id result) (find id events),
      )

-- Each filter, also a nested combination, keeps of a list of events with distinct ids exactly the
-- events that meet its condition: no id stands twice in the result, and under each id the result
-- has the event that the list has there if this event meets the condition, and else none.
pub run-accepts :
    {V : Type 0} (f : Filter V) (events : List (Event V))
    → HasDistinctIds events
    → HasDistinctIds (run f events)
      × ((id : String) → find id (run f events) ≡ keep (accepts f) (find id events))
run-accepts f events h = run-FiltersBy f events h

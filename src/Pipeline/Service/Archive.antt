-- ===== src/Pipeline/Service/Archive.antt =====
-- What `archive_event` and `statistics` of event_service.py do to the store and make of it.
use tactical_core.Base.{
  ℕ, ◌+◌, String, str_eq, eq_iff, ◌≡◌, refl, ap, sym, ◌∙◌, true, false, List, [], ◌∷◌, length,
  arith, Bool-cases, Option-cases, inl, inr, if◌then◌else◌,
}
use mathlib.Core.Option
use tactical_core.Base.Dict.{
  Dict, lookup, has_key, insert, remove, HasDistinctKeys, lookup-insert, lookup-remove,
  has_key-lookup,
}
use tactical_core.Pipeline.Event.{Event}
use tactical_core.Pipeline.Repository.{Store, save, get, exists, delete, list_all}
use tactical_core.Pipeline.Service.{archived, archive_event, count_by, count_one, statistics}

module _ {V : Type 0} (text : String → V) where
  -- Archiving returns whether the event is there. An event that is there is replaced by its archived
  -- copy under the same id; every other event, and the store without the event, is as it was.
  pub archive_event-get :
      (id j : String) (store : Store V)
      → HasDistinctKeys store
      → ((archive_event text id store).0 ≡ exists id store)
        × (get j (archive_event text id store).1
            ≡ (if str_eq id j then Option.map (archived text id) (get id store) else get j store))
  unfolding archive_event get exists delete save
  archive_event-get id j store distinct = elim (Option-cases (lookup id store)) [
    | inl gone ↦
        let absent : has_key id store ≡ false = has_key-lookup id store ∙ rw gone in
        (
          rw (gone, archive_event) (sym absent),
          rw (gone, archive_event)
              (elim (Bool-cases (str_eq id j)) [
                | inl same ↦ rw same (ap (λ k. lookup k store) (sym ((eq_iff id j).0 same)) ∙ gone)
                | inr other ↦ rw other
              ]),
        )
    | inr (e, found) ↦
        let there : has_key id store ≡ true = has_key-lookup id store ∙ rw found in
        (
          rw (found, archive_event, there),
          rw (found, archive_event, there)
              (lookup-insert id j (archived text id e) (remove id store)
                ∙ ground (arith, lookup-remove id j store distinct)),
        )
  ]

-- The sum of the values of a dict of counters.
pub total : Dict ℕ → ℕ
total [] = 0
total ((k, n) ∷ counts) = n + total counts

total-count_one : (key : String) (counts : Dict ℕ) → total (count_one key counts) ≡ total counts + 1
unfolding total insert lookup
total-count_one key [] = refl
total-count_one key ((k, n) ∷ counts) = ground (arith, total-count_one key counts)

total-count_by :
    {V : Type 0} (key : Event V → String) (es : List (Event V)) (counts : Dict ℕ)
    → total (count_by key es counts) ≡ length es + total counts
unfolding count_by
total-count_by key [] counts = omega arith
total-count_by key (e ∷ es) counts =
    omega (arith, total-count_by key es (count_one (key e) counts), total-count_one (key e) counts)

-- The counts by type and the counts by source each add up to the number of events.
pub statistics-total :
    {V : Type 0} (store : Store V)
    → (total (statistics store).1 ≡ (statistics store).0)
      × (total (statistics store).2 ≡ (statistics store).0)
unfolding statistics total
statistics-total store = (
  omega (arith, total-count_by (λ e. e.event_type) (list_all store) []),
  omega (arith, total-count_by (λ e. e.source) (list_all store) []),
)

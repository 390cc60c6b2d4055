-- ===== src/Pipeline/Filter/Ids.antt =====
-- Lists of events through their ids: what keeping the events of a test does, and the loop of
-- `OrFilter` of event_filter.py.
use tactical_core.Base.{
  String, ◌≡◌, refl, sym, ◌∙◌, str_eq, Bool, true, false, ◌&&◌, ◌||◌, Option, none, some, List, [],
  ◌∷◌, ◌++◌, filter, if◌then◌else◌, arith, eq_iff, Bool-cases, inl, inr,
}
use tactical_core.Pipeline.Event.{Event}
use tactical_core.Pipeline.Filter.{contains, ids, add_unseen}

-- No id stands twice.
abbrev pub HasDistinctIds : {V : Type 0} → List (Event V) → Type 0
HasDistinctIds [] = Unit
HasDistinctIds (e ∷ events) = (contains e.event_id (ids events) ≡ false) × HasDistinctIds events

-- The first event with an id, and an event that is kept if it meets a test.
module _ {V : Type 0} where
  unfoldable pub find : String → List (Event V) → Option (Event V)
  find id [] = none
  find id (e ∷ events) = if str_eq id e.event_id then some e else find id events

  abbrev pub keep : (Event V → Bool) → Option (Event V) → Option (Event V)
  keep test none = none
  keep test (some e) = if test e then some e else none

  abbrev pub or_else : Option (Event V) → Option (Event V) → Option (Event V)
  or_else none o = o
  or_else (some e) o = some e

  -- What a filter does to a list, seen through the ids.
  abbrev pub FiltersBy : (Event V → Bool) → List (Event V) → List (Event V) → Type 0
  FiltersBy test events result =
      HasDistinctIds result × ((id : String) → find id result ≡ keep test (find id events))

  pub contains-find :
      (id : String) (events : List (Event V))
      → contains id (ids events) ≡ elim (find id events) [ none ↦ false | some _ ↦ true ]
  unfolding find
  contains-find id [] = refl
  contains-find id (e ∷ events) = ground (arith, contains-find id events)

  absent-filter :
      (test : Event V → Bool) (id : String) (events : List (Event V))
      → contains id (ids events) ≡ false
      → contains id (ids (filter test events)) ≡ false
  absent-filter test id [] h = refl
  absent-filter test id (e ∷ events) h = ground (arith, absent-filter test id events, h)

  distinct-filter :
      (test : Event V → Bool) (events : List (Event V))
      → HasDistinctIds events
      → HasDistinctIds (filter test events)
  distinct-filter test [] h = tt
  distinct-filter test (e ∷ events) h = elim (Bool-cases (test e)) [
    | inl yes_ ↦ rw yes_ (absent-filter test e.event_id events h.0, distinct-filter test events h.1)
    | inr no_ ↦ rw no_ (distinct-filter test events h.1)
  ]

  find-filter :
      (test : Event V → Bool) (id : String) (events : List (Event V))
      → HasDistinctIds events
      → find id (filter test events) ≡ keep test (find id events)
  unfolding find
  find-filter test id [] h = refl
  find-filter test id (e ∷ events) h = ground (
    arith,
    find-filter test id events h.1,
    contains-find e.event_id events,
    h.0,
    eq_iff id e.event_id,
  )

  pub filter-FiltersBy :
      (test : Event V → Bool) (events : List (Event V))
      → HasDistinctIds events
      → FiltersBy test events (filter test events)
  filter-FiltersBy test events h =
      (distinct-filter test events h, λ id. find-filter test id events h)

  pub keep-keep :
      (p q : Event V → Bool) (o : Option (Event V)) → keep q (keep p o) ≡ keep (λ e. p e && q e) o
  keep-keep p q none = refl
  keep-keep p q (some e) = ground arith

  pub find-id :
      (id : String) (events : List (Event V)) (e : Event V)
      → find id events ≡ some e
      → e.event_id ≡ id
  unfolding find
  find-id id [] e h = ground arith
  find-id id (x ∷ events) e h = ground (arith, find-id id events e, eq_iff id x.event_id)

  find-append :
      (id : String) (xs : List (Event V)) (e : Event V)
      → find id (xs ++ e ∷ [])
        ≡ or_else (find id xs) (if str_eq id e.event_id then some e else none)
  unfolding find
  find-append id [] e = refl
  find-append id (x ∷ xs) e = ground (arith, find-append id xs e)

  contains-append :
      (id : String) (xs : List (Event V)) (e : Event V)
      → contains id (ids (xs ++ e ∷ [])) ≡ (contains id (ids xs) || str_eq id e.event_id)
  contains-append id [] e = ground arith
  contains-append id (x ∷ xs) e = ground (arith, contains-append id xs e)

  distinct-append :
      (xs : List (Event V)) (e : Event V)
      → contains e.event_id (ids xs) ≡ false
      → HasDistinctIds xs
      → HasDistinctIds (xs ++ e ∷ [])
  distinct-append [] e new h = (refl, tt)
  distinct-append (x ∷ xs) e new h = (
    ground (
      arith,
      contains-append x.event_id xs e,
      h.0,
      new,
      eq_iff e.event_id x.event_id,
      eq_iff x.event_id e.event_id,
    ),
    distinct-append xs e (ground (arith, new)) h.1,
  )

  -- The set of seen ids is that of the results, and no result stands twice.
  abbrev pub Seen : List String × List (Event V) → Type 0
  Seen (seen, result) =
      ((id : String) → contains id seen ≡ contains id (ids result)) × HasDistinctIds result

  Seen-add :
      (e : Event V) (seen : List String) (result : List (Event V))
      → contains e.event_id seen ≡ false
      → Seen (seen, result)
      → Seen (e.event_id ∷ seen, result ++ e ∷ [])
  Seen-add e seen result new (same, distinct) = (
    λ id. ground (arith, contains-append id result e, same id),
    distinct-append result e (sym (same e.event_id) ∙ new) distinct,
  )

  pub add_unseen-Seen :
      (events : List (Event V)) (seen : List String) (result : List (Event V))
      → Seen (seen, result)
      → Seen (add_unseen events (seen, result))
        × ((id : String)
            → find id (add_unseen events (seen, result)).1
              ≡ or_else (find id result) (find id events))
  unfolding add_unseen find
  add_unseen-Seen [] seen result h = (h, λ id. ground arith)
  add_unseen-Seen (e ∷ events) seen result h = elim (Bool-cases (contains e.event_id seen)) [
    | inl old ↦
        let (rest, found) = add_unseen-Seen events seen result h in
        rw (old, add_unseen)
          (
            rest,
            λ id.
                found id
                ∙ ground (
                  arith,
                  contains-find e.event_id result,
                  h.0 e.event_id,
                  old,
                  eq_iff id e.event_id,
                ),
          )
    | inr new ↦
        let (rest, found) =
          add_unseen-Seen events (e.event_id ∷ seen) (result ++ e ∷ [])
            (Seen-add e seen result new h) in
        rw (new, add_unseen) (rest, λ id. found id ∙ ground (arith, find-append id result e))
  ]

  pub either-keep :
      (p q : Event V → Bool) (a o : Option (Event V))
      → or_else (or_else a (keep p o)) (keep q o) ≡ or_else a (keep (λ e. p e || q e) o)
  either-keep p q none none = refl
  either-keep p q none (some e) = ground arith
  either-keep p q (some x) o = refl

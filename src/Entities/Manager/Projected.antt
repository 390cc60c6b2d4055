-- ===== src/Entities/Manager/Projected.antt =====
-- What the projection of one event does to the entities.
use tactical_core.Base.{
  ℕ, ◌+◌, String, str_eq, eq_iff, Bool, false, not, ◌&&◌, Option, none, some, [], arith, ◌≡◌, refl,
  ap, sym, ◌∙◌, if◌then◌else◌, Bool-cases, Option-cases, inl, inr,
}
use native.Mathlib.Nat.{add_comm}
use tactical_core.Base.Dict.{Dict, lookup, insert, HasDistinctKeys, lookup-insert, lookup-update}
use tactical_core.Entities.Manager.{
  Entity, Repository, save, updated, created, apply_update, present, build_requests, apply_request,
  apply_requests, process_event, CanonicalEvent, project,
}

module _ {V : Type 0} where
  -- Whether an event is projected to the entity with this id.
  abbrev pub affects : String → CanonicalEvent V → Bool
  affects id e =
      not (str_eq e.event_type "")
      && elim (present e.entity_id) [ none ↦ false | some i ↦ str_eq i id ]

  pub attribute : String → String → Repository V → Option V
  attribute id k store = elim (lookup id store) [ none ↦ none | some e ↦ lookup k e.attributes ]

  pub version : String → Repository V → ℕ
  version id store = elim (lookup id store) [ none ↦ 0 | some e ↦ e.version ]

  -- The value that the last of the events with such a key gives, or an earlier one.
  abbrev pub written : String → String → CanonicalEvent V → Option V → Option V
  written id k e old =
      if affects id e then elim (lookup k e.payload) [ none ↦ old | some v ↦ some v ] else old

  -- Entities stand under their ids.
  abbrev pub StandsUnder : Repository V → Type 0
  StandsUnder store = (id : String) (e : Entity V) → lookup id store ≡ some e → e.entity_id ≡ id

  attribute-lookup :
      (id k : String) (store : Repository V) (o : Option (Entity V))
      → lookup id store ≡ o
      → attribute id k store ≡ elim o [ none ↦ none | some e ↦ lookup k e.attributes ]
  unfolding attribute
  attribute-lookup id k store o eq =
      ap (λ x. elim x [ none ↦ none | some e ↦ lookup k e.attributes ]) eq

  version-lookup :
      (id : String) (store : Repository V) (o : Option (Entity V))
      → lookup id store ≡ o
      → version id store ≡ elim o [ none ↦ 0 | some e ↦ e.version ]
  unfolding version
  version-lookup id store o eq = ap (λ x. elim x [ none ↦ 0 | some e ↦ e.version ]) eq

  pub record Applied (id : String) (payload : Dict V) (store store' : Repository V) : Type 0 where
    entity : Entity V
    stored : store' ≡ insert id entity store
    own_id : entity.entity_id ≡ id
    attributes :
        (k : String)
        → lookup k entity.attributes
          ≡ elim (lookup k payload) [ none ↦ attribute id k store | some v ↦ some v ]
    counted : entity.version ≡ version id store + 1

  apply_update-Applied :
      (now : ℕ) (t id : String) (payload : Dict V) (store : Repository V)
      → HasDistinctKeys payload
      → StandsUnder store
      → Applied id payload store (apply_update now t id none (some payload) none store).1
  unfolding apply_update save attribute version
  apply_update-Applied now t id payload store distinct under =
      elim (Option-cases (lookup id store)) [
        | inl new ↦
            rw (new, apply_update)
              (record {
                entity = created now t id payload [];
                stored = refl;
                own_id = refl;
                attributes = λ k. ground (arith, attribute-lookup id k store none new);
                counted = rw (new, version);
              })
        | inr (e, found) ↦
            rw (found, apply_update)
              (record {
                entity = updated now payload [] e;
                stored = ap (λ i. insert i (updated now payload [] e) store) (under id e found);
                own_id = under id e found;
                attributes = λ k. ground (
                  arith,
                  attribute-lookup id k store (some e) found,
                  lookup-update k payload e.attributes distinct,
                );
                counted = rw (found, version);
              })
      ]

  -- An event is not projected, or to one entity.
  pub data Projected (e : CanonicalEvent V) (store : Repository V) : Repository V → Type 0 where
    skipped : ((id : String) → affects id e ≡ false) → Projected e store store
    applied :
        {store' : Repository V} (id : String)
        → ((j : String) → affects j e ≡ str_eq id j)
        → Applied id e.payload store store'
        → Projected e store store'

  pub project-Projected :
      (now : ℕ) (e : CanonicalEvent V) (store : Repository V)
      → HasDistinctKeys e.payload
      → StandsUnder store
      → Projected e store (project now e store)
  unfolding project process_event build_requests apply_requests apply_request
  project-Projected now e store distinct under = elim (Bool-cases (str_eq e.event_type "")) [
    | inl untyped ↦ rw (untyped, build_requests) (skipped (λ id. ground (arith, untyped)))
    | inr typed ↦ elim (Option-cases (present e.entity_id)) [
      | inl gone ↦ rw (typed, build_requests, gone) (skipped (λ id. ground (arith, gone)))
      | inr (id, there) ↦
          rw (typed, build_requests, there)
            (applied id (λ j. ground (arith, typed, there))
              (apply_update-Applied now e.event_type id e.payload store distinct under))
    ]
  ]

  pub Projected-attribute :
      (e : CanonicalEvent V) {store store' : Repository V} (id k : String)
      → Projected e store store'
      → attribute id k store' ≡ written id k e (attribute id k store)
  Projected-attribute e {store} id k (skipped none_affected) = ground (arith, none_affected id)
  Projected-attribute e {store} {store'} id k (applied i affected a) =
      ap (attribute id k) a.stored ∙ (elim (Bool-cases (str_eq i id)) [
        | inl same ↦
            let is_id = (eq_iff i id).0 same in
            attribute-lookup id k (insert i a.entity store) (some a.entity)
              (lookup-insert i id a.entity store ∙ rw same)
            ∙ a.attributes k
            ∙ ap (λ j. elim (lookup k e.payload) [ none ↦ attribute j k store | some v ↦ some v ])
                is_id
            ∙ sym (written-by (affected id ∙ same))
        | inr other ↦
            attribute-lookup id k (insert i a.entity store) (lookup id store)
              (lookup-insert i id a.entity store ∙ rw other)
            ∙ sym (attribute-lookup id k store (lookup id store) refl)
            ∙ sym (written-by (affected id ∙ other))
      ])
    where
      written-by :
          {b : Bool}
          → affects id e ≡ b
          → written id k e (attribute id k store) ≡ (
              if b
              then elim (lookup k e.payload) [ none ↦ attribute id k store | some v ↦ some v ]
              else attribute id k store)
      written-by eq =
          ap
            (λ b.
              if b
              then elim (lookup k e.payload) [ none ↦ attribute id k store | some v ↦ some v ]
              else attribute id k store)
            eq

  pub Projected-version :
      (e : CanonicalEvent V) {store store' : Repository V} (id : String)
      → Projected e store store'
      → version id store' ≡ (if affects id e then 1 else 0) + version id store
  Projected-version e {store} id (skipped none_affected) = ground (arith, none_affected id)
  Projected-version e {store} {store'} id (applied i affected a) =
      ap (version id) a.stored ∙ (elim (Bool-cases (str_eq i id)) [
        | inl same ↦
            version-lookup id (insert i a.entity store) (some a.entity)
              (lookup-insert i id a.entity store ∙ rw same)
            ∙ a.counted
            ∙ ap (λ j. version j store + 1) ((eq_iff i id).0 same)
            ∙ add_comm (version id store) 1
            ∙ sym (counted-by (affected id ∙ same))
        | inr other ↦
            let kept =
              version-lookup id (insert i a.entity store) (lookup id store)
                (lookup-insert i id a.entity store ∙ rw other)
              ∙ sym (version-lookup id store (lookup id store) refl) in
            omega (arith, kept, counted-by (affected id ∙ other))
      ])
    where
      counted-by :
          {b : Bool}
          → affects id e ≡ b
          → (if affects id e then 1 else 0) + version id store
            ≡ (if b then 1 else 0) + version id store
      counted-by eq = ap (λ b. (if b then 1 else 0) + version id store) eq

  pub Projected-StandsUnder :
      (e : CanonicalEvent V) {store store' : Repository V}
      → Projected e store store'
      → StandsUnder store
      → StandsUnder store'
  Projected-StandsUnder e (skipped none_affected) under = under
  Projected-StandsUnder e {store} {store'} (applied i affected a) under = λ id x found.
      let found' : lookup id (insert i a.entity store) ≡ some x =
        ap (lookup id) (sym a.stored) ∙ found in
      elim (Bool-cases (str_eq i id)) [
        | inl same ↦
            ground (arith, found', lookup-insert i id a.entity store, same, eq_iff i id, a.own_id)
        | inr other ↦ under id x (sym (lookup-insert i id a.entity store ∙ rw other) ∙ found')
      ]

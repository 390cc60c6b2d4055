-- ===== src/Entities/Manager/Replay.antt =====
-- The entities that a sequence of events is projected to, and what a second projection adds.
use tactical_core.Base.{
  ℕ, ◌+◌, String, true, Option, none, some, List, [], ◌∷◌, All, arith, ◌≡◌, refl, ap, sym, ◌∙◌,
  if◌then◌else◌, Bool-cases, Option-cases, inl, inr, ◌⊎◌,
}
use tactical_core.Base.Dict.{lookup, HasDistinctKeys}
use tactical_core.Entities.Manager.{Repository, CanonicalEvent, project}
use tactical_core.Entities.Manager.Projected.{
  affects, attribute, version, written, StandsUnder, project-Projected, Projected-attribute,
  Projected-version, Projected-StandsUnder,
}

module _ {V : Type 0} where
  -- `clock n` is the n-th reading of the clock.
  pub project_all : (ℕ → ℕ) → ℕ → List (CanonicalEvent V) → Repository V → Repository V
  project_all clock n [] store = store
  project_all clock n (e ∷ es) store = project_all clock (n + 1) es (project (clock n) e store)

  pub last_written : String → String → List (CanonicalEvent V) → Option V → Option V
  last_written id k [] old = old
  last_written id k (e ∷ es) old = last_written id k es (written id k e old)

  pub count_affecting : String → List (CanonicalEvent V) → ℕ
  count_affecting id [] = 0
  count_affecting id (e ∷ es) = (if affects id e then 1 else 0) + count_affecting id es

  -- A payload is a dict.
  abbrev pub ArePayloads : List (CanonicalEvent V) → Type 0
  ArePayloads = All (λ e. HasDistinctKeys e.payload)

  project_all_lem :
      (clock : ℕ → ℕ) (n : ℕ) (es : List (CanonicalEvent V)) (store : Repository V) (id k : String)
      → ArePayloads es
      → StandsUnder store
      → (attribute id k (project_all clock n es store)
          ≡ last_written id k es (attribute id k store))
        × (version id (project_all clock n es store) ≡ count_affecting id es + version id store)
        × StandsUnder (project_all clock n es store)
  unfolding project_all last_written count_affecting
  project_all_lem clock n [] store id k payloads under = (refl, omega arith, under)
  project_all_lem clock n (e ∷ es) store id k payloads under =
      let projected = project-Projected (clock n) e store payloads.0 under in
      let (value, count, under') =
        project_all_lem clock (n + 1) es (project (clock n) e store) id k payloads.1
          (Projected-StandsUnder e projected under) in
      (
        value ∙ ap (last_written id k es) (Projected-attribute e id k projected),
        omega (arith, count, Projected-version e id projected),
        under',
      )

  -- Events write a value whatever stood there, or leave what stood there.
  written-either :
      (id k : String) (es : List (CanonicalEvent V))
      → ((v : V) × ((old : Option V) → last_written id k es old ≡ some v))
        ⊎ ((old : Option V) → last_written id k es old ≡ old)
  unfolding last_written
  written-either id k [] = inr (λ old. refl)
  written-either id k (e ∷ es) = elim (written-either id k es) [
    | inl (v, writes) ↦ inl (v, λ old. writes (written id k e old))
    | inr leaves ↦ elim (Bool-cases (affects id e)) [
      | inr other ↦ inr (λ old.
          leaves (written id k e old)
          ∙ ap (λ b. if b then elim (lookup k e.payload) [ none ↦ old | some v ↦ some v ] else old)
              other)
      | inl hit ↦ elim (Option-cases (lookup k e.payload)) [
        | inl none_there ↦ inr (λ old.
            leaves (written id k e old)
            ∙ hit_value e old hit
            ∙ ap (λ o. elim o [ none ↦ old | some v ↦ some v ]) none_there)
        | inr (v, there) ↦ inl (
          v,
          λ old.
              leaves (written id k e old)
              ∙ hit_value e old hit
              ∙ ap (λ o. elim o [ none ↦ old | some x ↦ some x ]) there,
        )
      ]
    ]
  ]
    where
      hit_value :
          (e : CanonicalEvent V) (old : Option V)
          → affects id e ≡ true
          → written id k e old ≡ elim (lookup k e.payload) [ none ↦ old | some v ↦ some v ]
      hit_value e old hit =
          ap (λ b. if b then elim (lookup k e.payload) [ none ↦ old | some v ↦ some v ] else old)
            hit

  last_written-twice :
      (id k : String) (es : List (CanonicalEvent V)) (old : Option V)
      → last_written id k es (last_written id k es old) ≡ last_written id k es old
  last_written-twice id k es old = elim (written-either id k es) [
    | inl (v, writes) ↦ writes (last_written id k es old) ∙ sym (writes old)
    | inr leaves ↦ leaves (last_written id k es old)
  ]

  -- From a repository whose entities stand under their ids, the projection of a sequence of events
  -- gives each entity, under each key, the value that the last event with this entity and key has,
  -- and adds to its version the number of its events. A second projection of the sequence, at
  -- other times, leaves every value as it is, and adds that number to the version again.
  pub project_all-replay :
      (clock : ℕ → ℕ) (n m : ℕ) (es : List (CanonicalEvent V)) (store : Repository V)
      (id k : String)
      → ArePayloads es
      → StandsUnder store
      → let once = project_all clock n es store in
        let twice = project_all clock m es once in
        (attribute id k once ≡ last_written id k es (attribute id k store))
        × (version id once ≡ count_affecting id es + version id store)
        × (attribute id k twice ≡ attribute id k once)
        × (version id twice ≡ count_affecting id es + version id once)
  project_all-replay clock n m es store id k payloads under =
      let once = project_all clock n es store in
      let (value, count, under1) = project_all_lem clock n es store id k payloads under in
      let (value', count', under2) = project_all_lem clock m es once id k payloads under1 in
      (
        value,
        count,
        value'
            ∙ ap (last_written id k es) value
            ∙ last_written-twice id k es (attribute id k store)
            ∙ sym value,
        count',
      )

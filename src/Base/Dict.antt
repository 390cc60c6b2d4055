-- ===== src/Base/Dict.antt =====
-- Python's dict with text keys, as an association list in the order of insertion.
use mathlib.Core.Path.{◌≡◌, refl}
use mathlib.Core.Bool.{Bool, true, false, ◌||◌}
use mathlib.Core.Option.{Option, none, some}
use mathlib.Core.List.{List, [], ◌∷◌, map}
use Prim.Native.String.{String}
use native.Mathlib.Omega.{arith}
use text.Mathlib.Text.{◌==◌ as str_eq}
use text.Mathlib.TextEquality.{eq_iff}
use mathlib.Core.Logic.{inl, inr}
use tactical_core.Base.Tests.{if◌then◌else◌, Bool-cases}
use tactical_core.Base.Lists.{All}

abbrev pub Dict : Type 0 → Type 0
Dict V = List (String × V)

module _ {V : Type 0} where
  -- `d.get(k)`
  unfoldable pub lookup : String → Dict V → Option V
  lookup k [] = none
  lookup k ((j, v) ∷ d) = if str_eq j k then some v else lookup k d

  -- `k in d`
  unfoldable pub has_key : String → Dict V → Bool
  has_key k [] = false
  has_key k ((j, v) ∷ d) = str_eq j k || has_key k d

  -- `d[k] = v`: a key that is there keeps its place
  unfoldable pub insert : String → V → Dict V → Dict V
  insert k v [] = (k, v) ∷ []
  insert k v ((j, w) ∷ d) =
      let rest = insert k v d in if str_eq j k then (j, v) ∷ d else (j, w) ∷ rest

  -- `del d[k]`
  unfoldable pub remove : String → Dict V → Dict V
  remove k [] = []
  remove k ((j, w) ∷ d) = let rest = remove k d in if str_eq j k then d else (j, w) ∷ rest

  -- `d.update(entries)`
  unfoldable pub update : Dict V → Dict V → Dict V
  unfolding insert
  update [] d = d
  update ((k, v) ∷ entries) d = update entries (insert k v d)

  abbrev pub values : Dict V → List V
  values = map (λ e. e.1)

  -- No key stands twice.
  abbrev pub HasDistinctKeys : Dict V → Type 0
  HasDistinctKeys [] = Unit
  HasDistinctKeys ((k, v) ∷ d) = (has_key k d ≡ false) × HasDistinctKeys d

  pub lookup-insert :
      (k j : String) (v : V) (d : Dict V)
      → lookup j (insert k v d) ≡ (if str_eq k j then some v else lookup j d)
  unfolding lookup insert
  lookup-insert k j v [] = refl
  lookup-insert k j v ((i, w) ∷ d) =
      ground (arith, eq_iff k j, eq_iff i k, eq_iff i j, lookup-insert k j v d)

  pub has_key-lookup :
      (k : String) (d : Dict V) → has_key k d ≡ elim (lookup k d) [ none ↦ false | some _ ↦ true ]
  unfolding has_key lookup
  has_key-lookup k [] = refl
  has_key-lookup k ((j, v) ∷ d) = ground (arith, has_key-lookup k d)

  -- An update has the entries of the new dict before those of the old one.
  pub lookup-update :
      (k : String) (entries d : Dict V)
      → HasDistinctKeys entries
      → lookup k (update entries d)
        ≡ elim (lookup k entries) [ none ↦ lookup k d | some v ↦ some v ]
  unfolding lookup update
  lookup-update k [] d h = refl
  lookup-update k ((j, v) ∷ entries) d h = ground (
    arith,
    lookup-update k entries (insert j v d) h.1,
    lookup-insert j k v d,
    eq_iff j k,
    has_key-lookup k entries,
    h.0,
  )

  pub has_key-insert :
      (k j : String) (v : V) (d : Dict V) → has_key j (insert k v d) ≡ (str_eq k j || has_key j d)
  unfolding has_key insert
  has_key-insert k j v [] = ground arith
  has_key-insert k j v ((i, w) ∷ d) =
      ground (arith, eq_iff k j, eq_iff i k, eq_iff i j, has_key-insert k j v d)

  pub insert-HasDistinctKeys :
      (k : String) (v : V) (d : Dict V) → HasDistinctKeys d → HasDistinctKeys (insert k v d)
  unfolding insert has_key
  insert-HasDistinctKeys k v [] h = (refl, tt)
  insert-HasDistinctKeys k v ((j, w) ∷ d) h =
      ground
        (arith, h, insert-HasDistinctKeys k v d, has_key-insert k j v d, eq_iff j k, eq_iff k j)

  pub has_key-remove :
      (k j : String) (d : Dict V)
      → HasDistinctKeys d
      → has_key j (remove k d) ≡ (if str_eq k j then false else has_key j d)
  unfolding has_key remove
  has_key-remove k j [] h = ground arith
  has_key-remove k j ((i, w) ∷ d) h =
      ground (arith, eq_iff k j, eq_iff i k, eq_iff i j, has_key-remove k j d, h)

  pub lookup-remove :
      (k j : String) (d : Dict V)
      → HasDistinctKeys d
      → lookup j (remove k d) ≡ (if str_eq k j then none else lookup j d)
  unfolding lookup remove
  lookup-remove k j [] h = ground arith
  lookup-remove k j ((i, w) ∷ d) h =
      ground (arith, eq_iff k j, eq_iff i k, eq_iff i j, lookup-remove k j d, h, has_key-lookup j d)

  pub remove-HasDistinctKeys :
      (k : String) (d : Dict V) → HasDistinctKeys d → HasDistinctKeys (remove k d)
  unfolding remove
  remove-HasDistinctKeys k [] h = tt
  remove-HasDistinctKeys k ((j, w) ∷ d) h =
      ground (arith, h, remove-HasDistinctKeys k d, has_key-remove k j d)

  -- A property of every entry is kept, and a removed key is gone.
  pub All-insert {κ} :
      (P : String × V → Type κ) (k : String) (v : V) (d : Dict V)
      → ((j : String) → str_eq j k ≡ true → P (j, v))
      → P (k, v)
      → All P d
      → All P (insert k v d)
  unfolding insert
  All-insert P k v [] new last h = (last, tt)
  All-insert P k v ((j, w) ∷ d) new last h = elim (Bool-cases (str_eq j k)) [
    | inl same ↦ rw (same, insert) (new j same, h.1)
    | inr other ↦ rw (other, insert) (h.0, All-insert P k v d new last h.1)
  ]

  All-others {κ} :
      (P : String × V → Type κ) (k j : String) (d : Dict V)
      → str_eq j k ≡ true
      → has_key j d ≡ false
      → All P d
      → All (λ (e : String × V). P e × (str_eq e.0 k ≡ false)) d
  unfolding has_key
  All-others P k j [] same gone h = tt
  All-others P k j ((i, w) ∷ d) same gone h = (
    (h.0, ground (arith, gone, same, eq_iff j k, eq_iff i k, eq_iff i j)),
    All-others P k j d same (ground (arith, gone)) h.1,
  )

  pub All-remove {κ} :
      (P : String × V → Type κ) (k : String) (d : Dict V)
      → HasDistinctKeys d
      → All P d
      → All (λ (e : String × V). P e × (str_eq e.0 k ≡ false)) (remove k d)
  unfolding remove
  All-remove P k [] distinct h = tt
  All-remove P k ((j, w) ∷ d) distinct h = elim (Bool-cases (str_eq j k)) [
    | inl same ↦ rw (same, remove) (All-others P k j d same distinct.0 h.1)
    | inr other ↦ rw (other, remove) ((h.0, other), All-remove P k d distinct.1 h.1)
  ]

-- ===== src/Delivery/Take.antt =====
-- A single row in the claiming loop of outbox_repository.py, by its id.
use tactical_core.Base.{
  Bool, ℕ, String, ◌≡◌, refl, true, false, some, List, [], ◌∷◌, any, All, arith, str_eq, eq_iff,
  eq_refl, Option-cases, Bool-cases, inl, inr, ◌∙◌, ap,
}
use mathlib.Core.Bool.{false≢true}
use tactical_core.Delivery.Row.{Row, update_where, rowcount, find_id}
use tactical_core.Delivery.Outbox.{
  Policy, is_eligible, is_exhausted, retire_exhausted, claimed, claimable, claim_one, keep,
  claim_loop,
}
use tactical_core.Delivery.Claim.{ids, Distinct, ids-claim_one}

-- A row with attempts left is not retired.
pub find_id-retire :
    (p : Policy) (now : ℕ) (i : String) (rows : List Row) (r : Row)
    → find_id i rows ≡ some r
    → is_eligible p now r ≡ true
    → find_id i (retire_exhausted p now rows) ≡ some r
unfolding find_id retire_exhausted update_where is_eligible is_exhausted
find_id-retire p now i [] r eq e = ground arith
find_id-retire p now i (s ∷ rs) r eq e = ground (arith, find_id-retire p now i rs r)

pub some_injective : {r s : Row} → some r ≡ some s → r ≡ s
some_injective eq = ground arith

-- In a table whose rows have different ids, the id of each row finds it.
found_later :
    (s : Row) (rows all : List Row)
    → All (λ j. str_eq j s.id ≡ false) (ids rows)
    → All (λ r. find_id r.id all ≡ some r) rows
    → All (λ r. find_id r.id (s ∷ all) ≡ some r) rows
unfolding find_id
found_later s [] all other found = tt
found_later s (r ∷ rs) all other found = (
  ground (arith, other.0, found.0, eq_iff s.id r.id, eq_iff r.id s.id),
  found_later s rs all other.1 found.1,
)

pub All-found : (rows : List Row) → Distinct (ids rows) → All (λ r. find_id r.id rows ≡ some r) rows
unfolding find_id
All-found [] d = tt
All-found (s ∷ rs) d = (rw (eq_refl s.id) refl, found_later s rs rs d.0 (All-found rs d.1))

module _ (p : Policy) (now : ℕ) where
  -- The update of another row does not change it.
  find_id-other :
      (i rid : String) (rows : List Row)
      → str_eq rid i ≡ false
      → find_id i (claim_one p now rid rows).1 ≡ find_id i rows
  unfolding find_id claim_one update_where
  find_id-other i rid [] other = refl
  find_id-other i rid (s ∷ rs) other =
      ground (arith, find_id-other i rid rs, eq_iff s.id rid, eq_iff s.id i, eq_iff rid i)

  rowcount-none :
      (i : String) (rows : List Row)
      → All (λ j. str_eq j i ≡ false) (ids rows)
      → rowcount (claimable p now i) rows ≡ 0
  unfolding rowcount
  rowcount-none i [] h = refl
  rowcount-none i (s ∷ rs) h = ground (arith, h.0, rowcount-none i rs h.1)

  -- It is the only one that its own update matches.
  rowcount-one :
      (i : String) (rows : List Row) (r : Row)
      → Distinct (ids rows)
      → find_id i rows ≡ some r
      → is_eligible p now r ≡ true
      → rowcount (claimable p now i) rows ≡ 1
  unfolding rowcount find_id
  rowcount-one i [] r d eq e = ground arith
  rowcount-one i (s ∷ rs) r d eq e = elim (Bool-cases (str_eq s.id i)) [
    | inl same ↦
        let id_eq : s.id ≡ i = (eq_iff s.id i).0 same in
        let nothing = rowcount-none i rs (rw id_eq at d.0) in ground (arith, nothing, same, eq, e)
    | inr other ↦ ground (arith, other, rowcount-one i rs r d.1)
  ]

  find_id-claimed :
      (i : String) (rows : List Row) (r : Row)
      → find_id i rows ≡ some r
      → is_eligible p now r ≡ true
      → find_id i (claim_one p now i rows).1 ≡ some (claimed now r)
  unfolding find_id claim_one update_where
  find_id-claimed i [] r eq e = ground arith
  find_id-claimed i (s ∷ rs) r eq e = ground (arith, find_id-claimed i rs r)

  claim_one-takes :
      (i : String) (rows : List Row) (r : Row)
      → Distinct (ids rows)
      → find_id i rows ≡ some r
      → is_eligible p now r ≡ true
      → (claim_one p now i rows).0 ≡ some (claimed now r)
  unfolding claim_one
  claim_one-takes i rows r d eq e =
      rw (rowcount-one i rows r d eq e) (find_id-claimed i rows r eq e)

  find_id-id :
      (i : String) (rows : List Row) (r : Row) → find_id i rows ≡ some r → str_eq r.id i ≡ true
  unfolding find_id
  find_id-id i [] r eq = ground arith
  find_id-id i (s ∷ rs) r eq = ground (arith, find_id-id i rs r)

  claim_one-id :
      (rid : String) (rows : List Row) (w : Row)
      → (claim_one p now rid rows).0 ≡ some w
      → str_eq w.id rid ≡ true
  unfolding claim_one
  claim_one-id rid rows w won =
      find_id-id rid (update_where (claimable p now rid) (claimed now) rows) w (ground (arith, won))

  -- A round for another row adds nothing under this id to what is handed out.
  find_id-keep :
      (i rid : String) (rows rest : List Row)
      → str_eq rid i ≡ false
      → find_id i (keep (claim_one p now rid rows).0 rest) ≡ find_id i rest
  unfolding find_id
  find_id-keep i rid rows rest other = elim (Option-cases (claim_one p now rid rows).0) [
    | inl nothing ↦ rw nothing refl
    | inr (w, won) ↦
        let of_rid = claim_one-id rid rows w won in
        rw won (ground (arith, of_rid, other, eq_iff w.id rid, eq_iff w.id i, eq_iff rid i))
  ]

  find_id-keep-same :
      (i : String) (rows rest : List Row) (w : Row)
      → (claim_one p now i rows).0 ≡ some w
      → find_id i (keep (claim_one p now i rows).0 rest) ≡ some w
  unfolding find_id
  find_id-keep-same i rows rest w won =
      let of_i = claim_one-id i rows w won in rw (won, keep, of_i) refl

  -- A row that is not eligible keeps its place and its fields.
  find_id-unmatched :
      (i : String) (test : Row → Bool) (rows : List Row) (r : Row)
      → find_id i rows ≡ some r
      → test r ≡ false
      → find_id i (update_where test (claimed now) rows) ≡ some r
  unfolding find_id update_where
  find_id-unmatched i test [] r eq e = ground arith
  find_id-unmatched i test (s ∷ rs) r eq e = elim (Bool-cases (str_eq s.id i)) [
    | inl same ↦
        let is_r : some s ≡ some r = rw same at eq in
        let unmatched = ap test (some_injective is_r) ∙ e in rw unmatched (rw same is_r)
    | inr other ↦
        let found : find_id i rs ≡ some r = rw other at eq in
        let rest = find_id-unmatched i test rs r found e in
        elim (Bool-cases (test s)) [
          | inl hit ↦ rw hit (rw other rest)
          | inr miss ↦ rw miss (rw other rest)
        ]
  ]

  find_id-refused :
      (i rid : String) (rows : List Row) (r : Row)
      → find_id i rows ≡ some r
      → is_eligible p now r ≡ false
      → find_id i (claim_one p now rid rows).1 ≡ some r
  unfolding claim_one
  find_id-refused i rid rows r eq e =
      find_id-unmatched i (claimable p now rid) rows r eq (ground (arith, e))

  find_id-kept :
      (i : String) (rids : List String) (rows : List Row) (r : Row)
      → find_id i rows ≡ some r
      → is_eligible p now r ≡ false
      → find_id i (claim_loop p now rids rows).1 ≡ some r
  unfolding claim_loop
  find_id-kept i [] rows r eq e = eq
  find_id-kept i (rid ∷ rids) rows r eq e =
      find_id-kept i rids (claim_one p now rid rows).1 r (find_id-refused i rid rows r eq e) e

  claimed-refused : (r : Row) → is_eligible p now (claimed now r) ≡ false
  unfolding is_eligible
  claimed-refused r = ground arith

  -- The loop hands out an eligible row that is among its candidates, claimed, and the table has it so.
  pub claim_loop-takes :
      (i : String) (rids : List String) (rows : List Row) (r : Row)
      → Distinct (ids rows)
      → find_id i rows ≡ some r
      → is_eligible p now r ≡ true
      → any (str_eq i) rids ≡ true
      → (find_id i (claim_loop p now rids rows).0 ≡ some (claimed now r))
        × (find_id i (claim_loop p now rids rows).1 ≡ some (claimed now r))
  unfolding claim_loop
  claim_loop-takes i [] rows r d eq e candidate = absurd (false≢true candidate)
  claim_loop-takes i (rid ∷ rids) rows r d eq e candidate = elim (Bool-cases (str_eq rid i)) [
    | inl same ↦
        let rid_eq : rid ≡ i = (eq_iff rid i).0 same in
        let rest = (claim_loop p now rids (claim_one p now i rows).1).0 in
        rw rid_eq (
          find_id-keep-same i rows rest (claimed now r) (claim_one-takes i rows r d eq e),
          find_id-kept i rids (claim_one p now i rows).1 (claimed now r)
              (find_id-claimed i rows r eq e) (claimed-refused r),
        )
    | inr other ↦
        let rows1 = (claim_one p now rid rows).1 in
        let (won, table) =
          claim_loop-takes i rids rows1 r (rw (ids-claim_one p now rid rows) d)
            (find_id-other i rid rows other ∙ eq) e
            (ground (arith, candidate, other, eq_iff i rid)) in
        (find_id-keep i rid rows (claim_loop p now rids rows1).0 other ∙ won, table)
  ]

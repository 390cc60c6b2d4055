-- ===== src/Delivery/Claim.antt =====
-- Claims of outbox_repository.py by several dispatchers: the conditional updates of all of them, in
-- the order in which the database serialises the writes.
use tactical_core.Base.{
  ℕ, ◌+◌, ◌≤◌, ◌<◌, String, ◌≡◌, refl, true, false, List, [], ◌∷◌, All, arith, if◌then◌else◌,
  str_eq, Bool-cases, inl, inr, Option, none, some, Option-cases, map, eq_iff,
}
use tactical_core.Delivery.Row.{State, state_eq, Row, update_where, rowcount, All-update_where}
use tactical_core.Delivery.Outbox.{Policy, is_eligible, claimed, claimable, claim_one}

abbrev pub ids : List Row → List String
ids = map (λ r. r.id)

-- No text stands twice in a list.
abbrev pub Distinct : List String → Type 0
Distinct [] = Unit
Distinct (i ∷ is) = All (λ j. str_eq j i ≡ false) is × Distinct is

-- One round of a dispatcher's claiming loop: a candidate that it selected, maybe long before.
pub record Attempt : Type 0 where
  pub worker : String
  pub now : ℕ
  pub rid : String

abbrev keep_win : Attempt → Option Row → List Attempt → List Attempt
keep_win a none rest = rest
keep_win a (some _) rest = a ∷ rest

-- The attempts that win their row, in order.
unfoldable pub wins : Policy → List Attempt → List Row → List Attempt
wins p [] rows = []
wins p (a ∷ later) rows =
    let (won, rows') = claim_one p a.now a.rid rows in keep_win a won (wins p later rows')

unfoldable pub wins_of : String → List Attempt → ℕ
wins_of rid [] = 0
wins_of rid (a ∷ later) = (if str_eq a.rid rid then 1 else 0) + wins_of rid later

pub ids-claim_one :
    (p : Policy) (now : ℕ) (rid : String) (rows : List Row)
    → ids (claim_one p now rid rows).1 ≡ ids rows
unfolding claim_one
ids-claim_one p now rid [] = refl
ids-claim_one p now rid (r ∷ rs) = ground (arith, ids-claim_one p now rid rs)

-- The row `rid` is in the hands of a dispatcher since `t`.
abbrev IsLocked : String → ℕ → Row → Type 0
IsLocked rid t r =
    str_eq r.id rid ≡ true → (state_eq r.state State.in_flight ≡ true) × (t ≤ r.updated_at)

module _ (p : Policy) (rid : String) (t : ℕ) where
  locked-refused :
      (now : ℕ) (r : Row)
      → now ≤ t + p.stale_lease
      → IsLocked rid t r
      → claimable p now rid r ≡ false
  unfolding is_eligible
  locked-refused now r fresh h = ground arith

  rowcount-locked :
      (now : ℕ) (rows : List Row)
      → now ≤ t + p.stale_lease
      → All (IsLocked rid t) rows
      → rowcount (claimable p now rid) rows ≡ 0
  unfolding rowcount
  rowcount-locked now [] fresh h = refl
  rowcount-locked now (r ∷ rs) fresh h =
      rw (locked-refused now r fresh h.0) (omega (arith, rowcount-locked now rs fresh h.1))

  claim_one-locked :
      (now : ℕ) (rows : List Row)
      → now ≤ t + p.stale_lease
      → All (IsLocked rid t) rows
      → (claim_one p now rid rows).0 ≡ none
  unfolding claim_one
  claim_one-locked now rows fresh h = rw (rowcount-locked now rows fresh h)

  stays-IsLocked :
      (now : ℕ) (other : String) (rows : List Row)
      → t ≤ now
      → All (IsLocked rid t) rows
      → All (IsLocked rid t) (claim_one p now other rows).1
  unfolding claim_one
  stays-IsLocked now other rows late h =
      All-update_where (IsLocked rid t) (claimable p now other) (claimed now) rows
        (λ r e h' same. (refl, late)) h

  -- rows of other ids are locked for nothing
  others-IsLocked :
      (now : ℕ) (rows : List Row)
      → All (λ j. str_eq j rid ≡ false) (ids rows)
      → (rowcount (claimable p now rid) rows ≡ 0)
        × All (IsLocked rid t) (update_where (claimable p now rid) (claimed now) rows)
  unfolding rowcount update_where
  others-IsLocked now [] h = (refl, tt)
  others-IsLocked now (r ∷ rs) h =
      let (none_left, locked) = others-IsLocked now rs h.1 in
      (ground (arith, h.0), (ground (arith, h.0), locked))

  win-locks :
      (now : ℕ) (rows : List Row)
      → t ≤ now
      → Distinct (ids rows)
      → 0 < rowcount (claimable p now rid) rows
      → All (IsLocked rid t) (update_where (claimable p now rid) (claimed now) rows)
  unfolding rowcount update_where
  win-locks now [] late d pos = tt
  win-locks now (r ∷ rs) late d pos = elim (Bool-cases (str_eq r.id rid)) [
    | inl same ↦
        let rid_eq : r.id ≡ rid = (eq_iff r.id rid).0 same in
        let (none_left, locked) = others-IsLocked now rs (rw rid_eq at d.0) in
        (λ _. ground arith, locked)
    | inr other ↦ (λ e. ground arith, win-locks now rs late d.1 (ground arith))
  ]

  won-locks :
      (now : ℕ) (rows : List Row) {w : Row}
      → t ≤ now
      → Distinct (ids rows)
      → (claim_one p now rid rows).0 ≡ some w
      → All (IsLocked rid t) (claim_one p now rid rows).1
  unfolding claim_one
  won-locks now rows late d won = win-locks now rows late d (ground arith)

wins_of-locked :
    (p : Policy) (rid : String) (t : ℕ) (attempts : List Attempt) (rows : List Row)
    → All (λ a. (t ≤ a.now) × (a.now ≤ t + p.stale_lease)) attempts
    → All (IsLocked rid t) rows
    → wins_of rid (wins p attempts rows) ≡ 0
unfolding wins wins_of
wins_of-locked p rid t [] rows h locked = refl
wins_of-locked p rid t (a ∷ later) rows h locked =
    let rest =
      wins_of-locked p rid t later (claim_one p a.now a.rid rows).1 h.1
        (stays-IsLocked p rid t a.now a.rid rows h.0.0 locked) in
    elim (Bool-cases (str_eq a.rid rid)) [
      | inl same ↦
          let lost = claim_one-locked p rid t a.now rows h.0.1 locked in
          ground (arith, eq_iff a.rid rid)
      | inr other ↦ elim (Option-cases (claim_one p a.now a.rid rows).0) [
        | inl lost ↦ rw lost (omega (arith, rest))
        | inr (w, won) ↦ rw (won, wins_of, other) (omega (arith, rest))
      ]
    ]

-- In a table whose rows have different ids, however many dispatchers race for the rows, each with
-- a list of candidates that may be out of date, and in whatever order their conditional updates
-- reach the database: while all attempts fall within one lease, no row is won twice.
pub claimed_once :
    (p : Policy) (rid : String) (t : ℕ) (attempts : List Attempt) (rows : List Row)
    → Distinct (ids rows)
    → All (λ a. (t ≤ a.now) × (a.now ≤ t + p.stale_lease)) attempts
    → wins_of rid (wins p attempts rows) ≤ 1
unfolding wins wins_of
claimed_once p rid t [] rows d h = omega arith
claimed_once p rid t (a ∷ later) rows d h =
    let rows' = (claim_one p a.now a.rid rows).1 in
    let ih = claimed_once p rid t later rows' (rw (ids-claim_one p a.now a.rid rows) d) h.1 in
    elim (Option-cases (claim_one p a.now a.rid rows).0) [
      | inl lost ↦ rw lost (omega (arith, ih))
      | inr (w, won) ↦ elim (Bool-cases (str_eq a.rid rid)) [
        | inl same ↦
            let rid_eq : a.rid ≡ rid = (eq_iff a.rid rid).0 same in
            let locked : All (IsLocked rid t) rows' =
              rw (← rid_eq) (won-locks p a.rid t a.now rows h.0.0 d won) in
            rw (won, wins_of, same) (omega (arith, wins_of-locked p rid t later rows' h.1 locked))
        | inr other ↦ rw (won, wins_of, other) (omega (arith, ih))
      ]
    ]

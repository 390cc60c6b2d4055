-- ===== src/Delivery/Schedule.antt =====
-- Which rows `claim_pending` of outbox_repository.py takes, and when a failed one comes back.
use tactical_core.Base.{
  length-map, ◌^◌, ◌-◌, All-mono, ℕ, zero, suc, ◌+◌, ◌≤◌, String, ◌≡◌, refl, ap, Bool, true, false,
  ◌&&◌, ◌||◌, List, [], ◌∷◌, any, All, arith, if◌then◌else◌, str_eq, none, map, ◌∙◌, eq_refl, leb,
  ltb, filter, length, some, Bool-cases, inl, inr, ◌⊎◌, eq_iff, take, length-filter-le,
}
use native.Mathlib.Nat.{pow-le-pow_right, mul-le-mul_left}
use tactical_core.Delivery.Claim.{ids, Distinct}
use tactical_core.Delivery.Take.{some_injective, All-found, find_id-retire, claim_loop-takes}
use tactical_core.Delivery.Row.{Row, find_id, update_where, insert_by_created, order_by_created}
use tactical_core.Delivery.Outbox.{
  Policy, is_eligible, is_wanted, claim_one, claim_loop, claim_pending, candidate_ids, is_exhausted,
  retired, claimed, set_failed, backoff_delay, retire_exhausted,
}

backoff_mono : (p : Policy) (a b : ℕ) → a ≤ b → backoff_delay p a ≤ backoff_delay p b
unfolding backoff_delay
backoff_mono p a b h =
    let doubled : 2 ^ (a - 1) ≤ 2 ^ (b - 1) = pow-le-pow_right (omega arith) (omega arith) in
    omega (arith, mul-le-mul_left p.backoff_base doubled)

-- After a failed attempt the row can be claimed again exactly if attempts are left and the backoff
-- is over; the backoff is never shorter for a further attempt, and at most a minute.
pub retry_schedule :
    (p : Policy) (now later t : ℕ) (error : List ℕ) (r : Row)
    → (is_eligible p t (set_failed p now later error r)
        ≡ (ltb r.attempts p.max_attempts && leb (later + backoff_delay p r.attempts) t))
      × (backoff_delay p r.attempts ≤ backoff_delay p (r.attempts + 1))
      × (backoff_delay p r.attempts ≤ 60_000_000)
unfolding is_eligible backoff_delay
retry_schedule p now later t error r =
    (ground arith, backoff_mono p r.attempts (r.attempts + 1) (omega arith), omega arith)

-- a row that the candidates cover
abbrev IsCovered : Policy → ℕ → List String → Row → Type 0
IsCovered p now rids r = is_eligible p now r ≡ true → any (str_eq r.id) rids ≡ true

claim_one-IsCovered :
    (p : Policy) (now : ℕ) (rid : String) (rids : List String) (rows : List Row)
    → All (IsCovered p now (rid ∷ rids)) rows
    → All (IsCovered p now rids) (claim_one p now rid rows).1
unfolding claim_one update_where is_eligible
claim_one-IsCovered p now rid rids [] h = tt
claim_one-IsCovered p now rid rids (r ∷ rs) h =
    (ground (arith, h.0), claim_one-IsCovered p now rid rids rs h.1)

claim_loop-IsCovered :
    (p : Policy) (now : ℕ) (rids : List String) (rows : List Row)
    → All (IsCovered p now rids) rows
    → All (IsCovered p now []) (claim_loop p now rids rows).1
unfolding claim_loop
claim_loop-IsCovered p now [] rows h = h
claim_loop-IsCovered p now (rid ∷ rids) rows h =
    claim_loop-IsCovered p now rids (claim_one p now rid rows).1
      (claim_one-IsCovered p now rid rids rows h)

module _ (i : String) where
  abbrev listed : List Row → Bool
  listed rows = any (str_eq i) (map (λ r. r.id) rows)

  listed-insert :
      (r : Row) (rows : List Row)
      → listed (insert_by_created r rows) ≡ (str_eq i r.id || listed rows)
  unfolding insert_by_created
  listed-insert r [] = refl
  listed-insert r (s ∷ rs) = ground (arith, listed-insert r rs)

  listed-order : (rows : List Row) → listed (order_by_created rows) ≡ listed rows
  unfolding order_by_created
  listed-order [] = refl
  listed-order (r ∷ rs) = listed-insert r (order_by_created rs) ∙ rw (listed-order rs)

length-insert : (r : Row) (rows : List Row) → length (insert_by_created r rows) ≡ suc (length rows)
unfolding insert_by_created
length-insert r [] = refl
length-insert r (s ∷ rs) = ground (arith, length-insert r rs)

length-order : (rows : List Row) → length (order_by_created rows) ≡ length rows
unfolding order_by_created
length-order [] = refl
length-order (r ∷ rs) = length-insert r (order_by_created rs) ∙ ap suc (length-order rs)

take_of_length-le : (n : ℕ) (rows : List Row) → length rows ≤ n → take n rows ≡ rows
take_of_length-le zero [] h = refl
take_of_length-le zero (r ∷ rs) h = absurd (omega arith)
take_of_length-le (suc n) [] h = refl
take_of_length-le (suc n) (r ∷ rs) h = ap (◌∷◌ r) (take_of_length-le n rs (omega arith))

module _ (p : Policy) (now : ℕ) where
  abbrev eligible_rows : List Row → List Row
  eligible_rows = filter (λ r. is_eligible p now r && is_wanted none r)

  listed-filter :
      (i : String) (r : Row) (rows : List Row)
      → str_eq i r.id ≡ true
      → is_eligible p now r ≡ true
      → listed i (eligible_rows (r ∷ rows)) ≡ true
  unfolding is_wanted
  listed-filter i r rows same e = ground arith

  listed-skip :
      (i : String) (r : Row) (rows : List Row)
      → listed i (eligible_rows rows) ≡ true
      → listed i (eligible_rows (r ∷ rows)) ≡ true
  unfolding is_wanted
  listed-skip i r rows h = ground arith

  abbrev Found : List Row → Row → Type 0
  Found rows r = is_eligible p now r ≡ true → listed r.id (eligible_rows rows) ≡ true

  All-Found : (rows : List Row) → All (Found rows) rows
  All-Found [] = tt
  All-Found (r ∷ rs) = (
    (λ e. listed-filter r.id r rs (eq_refl r.id) e),
    All-mono (Found rs) (Found (r ∷ rs)) rs (λ q h e. listed-skip q.id r rs (h e)) (All-Found rs),
  )

  candidates-IsCovered :
      (limit : ℕ) (rows : List Row)
      → length rows ≤ limit
      → All (IsCovered p now (candidate_ids p now limit none rows)) rows
  unfolding candidate_ids
  candidates-IsCovered limit rows small =
      let found = order_by_created (eligible_rows rows) in
      let all_found : take limit found ≡ found = take_of_length-le limit found (
        omega (
          arith,
          length-order (eligible_rows rows),
          length-filter-le (λ r. is_eligible p now r && is_wanted none r) rows,
        )) in
      rw all_found (
        All-mono (Found rows) (IsCovered p now (map (λ r. r.id) found)) rows
          (λ r h e. listed-order r.id (eligible_rows rows) ∙ h e) (All-Found rows))

  covered_candidate :
      (i : String) (rids : List String) (rows : List Row) (r : Row)
      → All (IsCovered p now rids) rows
      → find_id i rows ≡ some r
      → is_eligible p now r ≡ true
      → any (str_eq i) rids ≡ true
  unfolding find_id
  covered_candidate i rids [] r h eq e = ground arith
  covered_candidate i rids (s ∷ rs) r h eq e = elim (Bool-cases (str_eq s.id i)) [
    | inl same ↦
        let is_r : some s ≡ some r = rw same at eq in
        let id_eq : s.id ≡ i = (eq_iff s.id i).0 same in
        rw (← id_eq) (h.0 (ap (is_eligible p now) (some_injective is_r) ∙ e))
    | inr other ↦
        let found : find_id i rs ≡ some r = rw other at eq in
        covered_candidate i rids rs r h.1 found e
  ]

ids-retire : (p : Policy) (now : ℕ) (rows : List Row) → ids (retire_exhausted p now rows) ≡ ids rows
unfolding retire_exhausted update_where
ids-retire p now [] = refl
ids-retire p now (r ∷ rs) = ground (arith, ids-retire p now rs)

-- The row is not eligible, or it is handed out as `won` and stands in the table `after`, claimed.
abbrev pub IsTaken : Policy → ℕ → List Row → List Row → Row → Type 0
IsTaken p now won after r =
    (is_eligible p now r ≡ false)
    ⊎ ((find_id r.id won ≡ some (claimed now r)) × (find_id r.id after ≡ some (claimed now r)))

-- A claim without a consumer filter, with a limit no smaller than the table, whose rows have
-- different ids, takes all that waits, is due, or was left by a crashed worker: each row that is
-- eligible at its time is handed out and stands in the table as IN_FLIGHT, with one more attempt,
-- and no row is left eligible.
pub claim_pending_complete :
    (p : Policy) (now limit : ℕ) (rows : List Row)
    → length rows ≤ limit
    → Distinct (ids rows)
    → All
        (IsTaken p now
          (claim_pending p now limit none rows).0
          (claim_pending p now limit none rows).1)
        rows
      × All (λ r. is_eligible p now r ≡ false) (claim_pending p now limit none rows).1
unfolding claim_pending retire_exhausted
claim_pending_complete p now limit rows small distinct =
    let rows1 = retire_exhausted p now rows in
    let rids = candidate_ids p now limit none rows1 in
    let covered =
      candidates-IsCovered p now limit rows1
        (omega (arith, length-map (λ r. if is_exhausted p now r then retired now r else r) rows)) in
    let taken : (r : Row) → find_id r.id rows ≡ some r → IsTaken p now _ _ r = λ r found.
      elim (Bool-cases (is_eligible p now r)) [
        | inl e ↦
            let still = find_id-retire p now r.id rows r found e in
            inr (
              claim_loop-takes p now r.id rids rows1 r (rw (ids-retire p now rows) distinct) still e
                (covered_candidate p now r.id rids rows1 r covered still e))
        | inr refused ↦ inl refused
      ] in
    (
      All-mono (λ r. find_id r.id rows ≡ some r)
          (IsTaken p now (claim_loop p now rids rows1).0 (claim_loop p now rids rows1).1) rows taken
          (All-found rows distinct),
      All-mono (IsCovered p now []) (λ r. is_eligible p now r ≡ false) _ (λ r h. ground arith)
          (claim_loop-IsCovered p now rids rows1 covered),
    )

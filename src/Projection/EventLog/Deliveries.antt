-- ===== src/Projection/EventLog/Deliveries.antt =====
-- backend/app/event_repository/durable/sqlalchemy_event_repository.py: `save_with_deliveries` and
-- `_reconcile_deliveries`, over the log and the table of backend/app/event_delivery/outbox_model.py.
-- The session does not flush by itself: the rows that a call adds are not seen by its own selects,
-- and UNIQUE(event_id, consumer_id) is checked at the commit. Each consumer has its `uuid4` result.
use tactical_core.Base.{
  ℕ, ◌≡◌, refl, sym, ap, ◌∙◌, String, str_eq, eq_refl, Bool, true, false, ◌||◌, none, some, List,
  [], ◌∷◌, ◌++◌, any, All, All-mono, if◌then◌else◌, arith, Bool-cases, Option-cases, inl, inr, ◌⊎◌,
}
use mathlib.Core.List.{append-nil, append_assoc}
use tactical_core.Base.Result.{Result, ok, err, ◌>>=◌}
use tactical_core.Delivery.Row.{Row, has_pair, find_pair}
use tactical_core.Delivery.Outbox.{fresh_row}
use tactical_core.Projection.EventLog.{
  EventRow, IntegrityError, integrity_error, next_seq, insert, exists, save, violates,
}
use tactical_core.Projection.EventLog.Sequence.{violates-exists, exists-append}

pub record Store (E : Type 0) : Type 0 where
  pub log : List (EventRow E)
  pub deliveries : List Row

-- the loop over `consumer_ids`
unfoldable pub new_deliveries : ℕ → String → List (String × String) → List Row → List Row
unfolding find_pair
new_deliveries now e [] table = []
new_deliveries now e ((uuid, c) ∷ consumers) table =
    let rest = new_deliveries now e consumers table in
    elim (find_pair e c table) [ some r ↦ rest | none ↦ fresh_row uuid e c now ∷ rest ]

-- the commit of added rows
unfoldable pub commit_rows : List Row → List Row → Result IntegrityError (List Row)
commit_rows [] table = ok table
commit_rows (r ∷ rs) table =
    let rest = commit_rows rs (table ++ r ∷ []) in
    if any (has_pair r.event_id r.consumer_id) table then err integrity_error else rest

-- `_reconcile_deliveries`, committed
unfoldable pub reconcile_deliveries :
    ℕ → String → List (String × String) → List Row → Result IntegrityError (List Row)
unfolding new_deliveries commit_rows
reconcile_deliveries now e consumers table =
    commit_rows (new_deliveries now e consumers table) table

-- the two ways out of the flush of the event's row
unfoldable pub with_deliveries :
    {E : Type 0}
    → ℕ
    → String
    → List (String × String)
    → Store E
    → Result IntegrityError (List (EventRow E))
    → Result IntegrityError (Store E)
unfolding reconcile_deliveries
with_deliveries now e consumers store (ok log) =
    reconcile_deliveries now e consumers store.deliveries >>= λ deliveries.
    ok (record { log = log; deliveries = deliveries })
with_deliveries now e consumers store (err integrity_error) =
    reconcile_deliveries now e consumers store.deliveries >>= λ deliveries.
    ok (record store { deliveries = deliveries })

unfoldable pub save_with_deliveries :
    {E : Type 0}
    → ℕ
    → String
    → E
    → List (String × String)
    → Store E
    → Result IntegrityError (Store E)
unfolding with_deliveries insert next_seq
save_with_deliveries now e columns consumers store =
    with_deliveries now e consumers store
      (insert (record { seq = next_seq store.log; event_id = e; columns = columns }) store.log)

-- Whether a delivery record stands in the table.
abbrev pub has_delivery : String → String → List Row → Bool
has_delivery e c = any (has_pair e c)

abbrev pub consumer_among : String → List (String × String) → Bool
consumer_among c = any (λ (k : String × String). str_eq c k.1)

-- No consumer is named twice.
abbrev pub DistinctConsumers : List (String × String) → Type 0
DistinctConsumers [] = Unit
DistinctConsumers (k ∷ ks) = (consumer_among k.1 ks ≡ false) × DistinctConsumers ks

has_delivery-append :
    (e c : String) (xs ys : List Row)
    → has_delivery e c (xs ++ ys) ≡ (has_delivery e c xs || has_delivery e c ys)
has_delivery-append e c [] ys = refl
has_delivery-append e c (x ∷ xs) ys = ground (arith, has_delivery-append e c xs ys)

find_pair-has :
    (e c : String) (table : List Row) → find_pair e c table ≡ none → has_delivery e c table ≡ false
unfolding find_pair
find_pair-has e c [] h = refl
find_pair-has e c (r ∷ rs) h = ground (arith, find_pair-has e c rs)

find_pair-some :
    (e c : String) (table : List Row) (r : Row)
    → find_pair e c table ≡ some r
    → has_delivery e c table ≡ true
unfolding find_pair
find_pair-some e c [] r h = ground arith
find_pair-some e c (x ∷ xs) r h = ground (arith, find_pair-some e c xs r)

-- Of these consumers, `table` has the records that `old` has.
abbrev SameFor : String → List Row → List Row → List (String × String) → Type 0
SameFor e old table =
    All (λ (k : String × String). has_delivery e k.1 table ≡ has_delivery e k.1 old)

SameFor-append :
    (e c : String) (old table : List Row) (row : Row) (ks : List (String × String))
    → row.consumer_id ≡ c
    → consumer_among c ks ≡ false
    → SameFor e old table ks
    → SameFor e old (table ++ row ∷ []) ks
SameFor-append e c old table row [] is new h = tt
SameFor-append e c old table row (k ∷ ks) is new h = (
  ground (arith, has_delivery-append e k.1 table (row ∷ []), is, h.0),
  SameFor-append e c old table row ks is (ground arith) h.1,
)

commit-new :
    (now : ℕ) (e : String) (ks : List (String × String)) (old table : List Row)
    → DistinctConsumers ks
    → SameFor e old table ks
    → commit_rows (new_deliveries now e ks old) table ≡ ok (table ++ new_deliveries now e ks old)
unfolding commit_rows new_deliveries
commit-new now e [] old table d same = ap ok (sym (append-nil table))
commit-new now e (k ∷ ks) old table d same = elim (Option-cases (find_pair e k.1 old)) [
  | inr (r, eq) ↦ rw (eq, new_deliveries) (commit-new now e ks old table d.1 same.1)
  | inl eq ↦
      let row = fresh_row k.0 e k.1 now in
      let absent = same.0 ∙ find_pair-has e k.1 old eq in
      rw (eq, new_deliveries)
        (rw (absent, commit_rows)
          (commit-new now e ks old (table ++ row ∷ []) d.1
              (SameFor-append e k.1 old table row ks refl d.0 same.1)
            ∙ ap ok (append_assoc table (row ∷ []) (new_deliveries now e ks old))))
]

SameFor-refl :
    (e : String) (table : List Row) (ks : List (String × String)) → SameFor e table table ks
SameFor-refl e table [] = tt
SameFor-refl e table (k ∷ ks) = (refl, SameFor-refl e table ks)

new_deliveries-cons :
    (now : ℕ) (e : String) (k : String × String) (ks : List (String × String)) (table : List Row)
    (c : String)
    → has_delivery e c (new_deliveries now e ks table) ≡ true
    → has_delivery e c (new_deliveries now e (k ∷ ks) table) ≡ true
unfolding new_deliveries
new_deliveries-cons now e k ks table c h = elim (Option-cases (find_pair e k.1 table)) [
  | inr (r, eq) ↦ rw (eq, new_deliveries) h
  | inl eq ↦ rw (eq, new_deliveries) (ground (arith, h))
]

new_deliveries-head :
    (now : ℕ) (e : String) (k : String × String) (ks : List (String × String)) (table : List Row)
    → (has_delivery e k.1 table || has_delivery e k.1 (new_deliveries now e (k ∷ ks) table)) ≡ true
unfolding new_deliveries
new_deliveries-head now e k ks table = elim (Option-cases (find_pair e k.1 table)) [
  | inr (r, eq) ↦ ground (arith, find_pair-some e k.1 table r eq)
  | inl eq ↦ rw (eq, new_deliveries) (ground (arith, eq_refl e, eq_refl k.1))
]

new_deliveries-has :
    (now : ℕ) (e : String) (ks : List (String × String)) (table : List Row)
    → All
        (λ (k : String × String).
          (has_delivery e k.1 table || has_delivery e k.1 (new_deliveries now e ks table)) ≡ true)
        ks
new_deliveries-has now e [] table = tt
new_deliveries-has now e (k ∷ ks) table = (
  new_deliveries-head now e k ks table,
  All-mono _ _ ks
      (λ (j : String × String) h. ground (arith, h, new_deliveries-cons now e k ks table j.1))
      (new_deliveries-has now e ks table),
)

-- The flush of the event's row is `save`, and the event is in the log after it.
insert-save :
    {E : Type 0} (e : String) (columns : E) (log : List (EventRow E))
    → let row : EventRow E = record { seq = next_seq log; event_id = e; columns = columns } in
      ((insert row log ≡ ok (save e columns log)) × (exists e (save e columns log) ≡ true))
      ⊎ ((insert row log ≡ err integrity_error)
          × (save e columns log ≡ log)
          × (exists e log ≡ true))
unfolding insert exists save
insert-save e columns log =
    let row : EventRow _ = record { seq = next_seq log; event_id = e; columns = columns } in
    elim (Bool-cases (violates row log)) [
      | inl taken ↦ inr (
        rw taken refl,
        rw (taken, save) refl,
        sym (violates-exists row log (omega arith)) ∙ taken,
      )
      | inr free ↦ inl (
        rw (free, save) refl,
        rw (free, save) (exists-append e log row ∙ ground (arith, eq_refl e)),
      )
    ]

-- With consumers that are all different, `save_with_deliveries` raises nothing and commits one
-- store: its log is the one that `save` leaves, which holds the event; its delivery records are
-- those of before, followed by new ones; and each of the consumers has a record for the event,
-- whether the event was new or already durable.
pub save_with_deliveries_complete :
    {E : Type 0} (now : ℕ) (e : String) (columns : E) (consumers : List (String × String))
    (store : Store E)
    → DistinctConsumers consumers
    → (s : Store E) × (save_with_deliveries now e columns consumers store ≡ ok s)
      × (s.log ≡ save e columns store.log)
      × (exists e s.log ≡ true)
      × (s.deliveries ≡ store.deliveries ++ new_deliveries now e consumers store.deliveries)
      × All (λ (k : String × String). has_delivery e k.1 s.deliveries ≡ true) consumers
unfolding save_with_deliveries with_deliveries reconcile_deliveries
save_with_deliveries_complete now e columns consumers store distinct =
    let table = store.deliveries in
    let fresh = new_deliveries now e consumers table in
    let committed =
      commit-new now e consumers table table distinct (SameFor-refl e table consumers) in
    let all =
      All-mono _ _ consumers (λ (k : String × String) h. has_delivery-append e k.1 table fresh ∙ h)
        (new_deliveries-has now e consumers table) in
    elim (insert-save e columns store.log) [
      | inl (inserted, present) ↦ (
        record { log = save e columns store.log; deliveries = table ++ fresh },
        ap (with_deliveries now e consumers store) inserted
            ∙ ap
                (λ o. o >>= λ deliveries.
                  ok (record { log = save e columns store.log; deliveries = deliveries }))
                committed,
        refl,
        present,
        refl,
        all,
      )
      | inr (refused, same, present) ↦ (
        record store { deliveries = table ++ fresh },
        ap (with_deliveries now e consumers store) refused
            ∙ ap (λ o. o >>= λ deliveries. ok (record store { deliveries = deliveries })) committed,
        sym same,
        present,
        refl,
        all,
      )
    ]

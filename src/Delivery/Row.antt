-- ===== src/Delivery/Row.antt =====
-- backend/app/event_delivery/outbox_model.py: one delivery record, and the SQL statements that
-- the repository issues on the table. A table is the list of its rows in insertion order; times
-- are microseconds since the epoch, and texts of errors are lists of code points.
use tactical_core.Base.{
  ℕ, String, ◌≡◌, refl, Bool, true, false, ◌&&◌, Option, none, some, List, [], ◌∷◌, str_eq,
  if◌then◌else◌, leb, map, All, ◌+◌,
}

pub data State : Type 0 where
  pending in_flight delivered failed dead_letter : State

abbrev pub state_eq : State → State → Bool
state_eq State.pending State.pending = true
state_eq State.in_flight State.in_flight = true
state_eq State.delivered State.delivered = true
state_eq State.failed State.failed = true
state_eq State.dead_letter State.dead_letter = true
state_eq _ _ = false

pub record Row : Type 0 where
  pub id : String
  pub event_id : String
  pub consumer_id : String
  pub state : State
  pub attempts : ℕ
  pub next_attempt_at : Option ℕ
  pub last_error : Option (List ℕ)
  pub created_at : ℕ
  pub updated_at : ℕ

-- `WHERE event_id = e AND consumer_id = c`
abbrev pub has_pair : String → String → Row → Bool
has_pair e c r = str_eq r.event_id e && str_eq r.consumer_id c

-- `select(...).scalar_one_or_none()`: UNIQUE(event_id, consumer_id) leaves at most one.
unfoldable pub find_pair : String → String → List Row → Option Row
find_pair e c [] = none
find_pair e c (r ∷ rs) = if has_pair e c r then some r else find_pair e c rs

-- The commit of the changes to the object that `scalar_one_or_none` returned.
unfoldable pub modify_pair : String → String → (Row → Row) → List Row → List Row
modify_pair e c f [] = []
modify_pair e c f (r ∷ rs) =
    let rest = modify_pair e c f rs in if has_pair e c r then f r ∷ rs else r ∷ rest

-- `UPDATE ... WHERE test`
unfoldable pub update_where : (Row → Bool) → (Row → Row) → List Row → List Row
update_where test f rows = map (λ r. if test r then f r else r) rows

-- `result.rowcount` of such an update.
unfoldable pub rowcount : (Row → Bool) → List Row → ℕ
rowcount test [] = 0
rowcount test (r ∷ rs) = (if test r then 1 else 0) + rowcount test rs

-- `select(...).where(id == rid).scalar_one()`
unfoldable pub find_id : String → List Row → Option Row
find_id rid [] = none
find_id rid (r ∷ rs) = if str_eq r.id rid then some r else find_id rid rs

-- `ORDER BY created_at ASC`: rows of one time stay in insertion order.
unfoldable pub insert_by_created : Row → List Row → List Row
insert_by_created r [] = r ∷ []
insert_by_created r (s ∷ rs) =
    let rest = insert_by_created r rs in
    if leb r.created_at s.created_at then r ∷ s ∷ rs else s ∷ rest

unfoldable pub order_by_created : List Row → List Row
unfolding insert_by_created
order_by_created [] = []
order_by_created (r ∷ rs) = insert_by_created r (order_by_created rs)

-- Rules to carry a property of every row over the statements.
module _ (P : Row → Type 0) where
  pub All-modify_pair :
      (e c : String) (f : Row → Row) (rows : List Row)
      → ((r : Row) → P r → P (f r))
      → All P rows
      → All P (modify_pair e c f rows)
  unfolding modify_pair
  All-modify_pair e c f [] step h = h
  All-modify_pair e c f (r ∷ rs) step h = split (has_pair e c r) (All-modify_pair e c f rs step h.1)
    where
      split :
          (b : Bool)
          → All P (modify_pair e c f rs)
          → All P (if b then f r ∷ rs else r ∷ modify_pair e c f rs)
      split true rest = (step r h.0, h.1)
      split false rest = (h.0, rest)

  pub All-update_where :
      (test : Row → Bool) (f : Row → Row) (rows : List Row)
      → ((r : Row) → test r ≡ true → P r → P (f r))
      → All P rows
      → All P (update_where test f rows)
  unfolding update_where
  All-update_where test f [] step h = h
  All-update_where test f (r ∷ rs) step h =
      (split (test r) refl, All-update_where test f rs step h.1)
    where
      split : (b : Bool) → test r ≡ b → P (if b then f r else r)
      split true e = step r e h.0
      split false e = h.0

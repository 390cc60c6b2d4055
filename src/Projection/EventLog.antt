-- ===== src/Projection/EventLog.antt =====
-- backend/app/event_repository/durable/sqlalchemy_event_repository.py and durable_event_model.py:
-- the log of canonical events. A table is the list of its rows in insertion order, and an event is
-- its id and the data `E` of the other columns. A call that raises IntegrityError rolls back.
pub mod Sequence
pub mod Deliveries
use tactical_core.Base.{
  ℕ, ◌+◌, max, String, str_eq, Bool, true, false, ◌||◌, not, Option, none, some, List, [], ◌∷◌,
  ◌++◌, any, filter, map, ltb, leb, ◌==◌, if◌then◌else◌,
}
use tactical_core.Base.Result.{Result, ok, err, ◌>>=◌}

pub record EventRow (E : Type 0) : Type 0 where
  pub seq : ℕ
  pub event_id : String
  pub columns : E

pub data IntegrityError : Type 0 where
  integrity_error : IntegrityError

module _ {E : Type 0} where
  -- `select(func.max(seq))`
  unfoldable pub current_max : List (EventRow E) → Option ℕ
  current_max [] = none
  current_max (r ∷ rs) = elim (current_max rs) [ none ↦ some r.seq | some m ↦ some (max r.seq m) ]

  -- `_next_seq`
  unfoldable pub next_seq : List (EventRow E) → ℕ
  unfolding current_max
  next_seq log = elim (current_max log) [ none ↦ 1 | some m ↦ m + 1 ]

  unfoldable pub max_seq : List (EventRow E) → ℕ
  unfolding current_max
  max_seq log = elim (current_max log) [ none ↦ 0 | some m ↦ m ]

  abbrev pub has_id : String → EventRow E → Bool
  has_id id r = str_eq r.event_id id

  unfoldable pub exists : String → List (EventRow E) → Bool
  exists id log = any (has_id id) log

  unfoldable pub get : String → List (EventRow E) → Option (EventRow E)
  get id [] = none
  get id (r ∷ rs) = if has_id id r then some r else get id rs

  -- UNIQUE(event_id) or UNIQUE(seq) refuses the row
  unfoldable pub violates : EventRow E → List (EventRow E) → Bool
  violates row log = any (λ (r : EventRow E). has_id row.event_id r || (r.seq == row.seq)) log

  unfoldable pub insert : EventRow E → List (EventRow E) → Result IntegrityError (List (EventRow E))
  unfolding violates
  insert row log = if violates row log then err integrity_error else ok (log ++ row ∷ [])

  unfoldable pub save : String → E → List (EventRow E) → List (EventRow E)
  unfolding next_seq insert
  save id columns log =
      elim (insert (record { seq = next_seq log; event_id = id; columns = columns }) log) [
        | ok log' ↦ log'
        | err integrity_error ↦ log
      ]

  -- the rows of `save_many`, with their running counter
  unfoldable pub numbered : ℕ → List (String × E) → List (EventRow E)
  numbered n [] = []
  numbered n ((id, columns) ∷ events) =
      record { seq = n; event_id = id; columns = columns } ∷ numbered (n + 1) events

  unfoldable pub insert_all :
      List (EventRow E) → List (EventRow E) → Result IntegrityError (List (EventRow E))
  unfolding insert
  insert_all [] log = ok log
  insert_all (row ∷ rows) log = insert row log >>= insert_all rows

  unfoldable pub save_many :
      List (String × E) → List (EventRow E) → Result IntegrityError (List (EventRow E))
  unfolding next_seq numbered insert_all
  save_many events log = insert_all (numbered (next_seq log) events) log

  unfoldable pub delete : String → List (EventRow E) → Bool × List (EventRow E)
  delete id [] = (false, [])
  delete id (r ∷ rs) =
      let (found, rest) = delete id rs in if has_id id r then (true, rs) else (found, r ∷ rest)

  -- `ORDER BY seq ASC`
  unfoldable pub insert_by_seq : EventRow E → List (EventRow E) → List (EventRow E)
  insert_by_seq r [] = r ∷ []
  insert_by_seq r (s ∷ rs) =
      let rest = insert_by_seq r rs in if leb r.seq s.seq then r ∷ s ∷ rs else s ∷ rest

  unfoldable pub order_by_seq : List (EventRow E) → List (EventRow E)
  unfolding insert_by_seq
  order_by_seq [] = []
  order_by_seq (r ∷ rs) = insert_by_seq r (order_by_seq rs)

  unfoldable pub list_all : List (EventRow E) → List (EventRow E)
  unfolding order_by_seq
  list_all log = order_by_seq log

  unfoldable pub iter_after_seq : ℕ → List (EventRow E) → List (EventRow E)
  unfolding order_by_seq
  iter_after_seq seq log = order_by_seq (filter (λ (r : EventRow E). ltb seq r.seq) log)

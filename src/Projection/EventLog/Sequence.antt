-- ===== src/Projection/EventLog/Sequence.antt =====
-- backend/app/event_repository/durable/sqlalchemy_event_repository.py: the order and the ids of the
-- log, whatever is called on it.
use tactical_core.Base.{
  ℕ, ◌+◌, ◌≤◌, ◌<◌, ◌≡◌, refl, sym, ap, subst, ◌∙◌, String, str_eq, Bool, false, ◌||◌, List, [],
  ◌∷◌, ◌++◌, filter, ltb, arith, eq_iff, ◌⊎◌, Bool-cases, Option-cases, inl, inr,
}
use tactical_core.Base.Result.{Result, ok, err, ◌>>=◌, ok_inj, err_not_ok, Result-cases}
use tactical_core.Projection.EventLog.{
  EventRow, IntegrityError, integrity_error, current_max, next_seq, has_id, exists, violates,
  insert, save, numbered, insert_all, save_many, delete, insert_by_seq, order_by_seq,
  iter_after_seq,
}

-- A call of the repository that writes.
pub data LogCall (E : Type 0) : Type 0 where
  saving : String → E → LogCall E
  saving_many : List (String × E) → LogCall E
  deleting : String → LogCall E

module _ {E : Type 0} where
  -- The sequence numbers rise along the log, all above `n`.
  abbrev pub Above : ℕ → List (EventRow E) → Type 0
  Above n [] = Unit
  Above n (r ∷ rs) = (n < r.seq) × Above r.seq rs

  -- No two rows have one event id.
  abbrev pub DistinctIds : List (EventRow E) → Type 0
  DistinctIds [] = Unit
  DistinctIds (r ∷ rs) = (exists r.event_id rs ≡ false) × DistinctIds rs

  abbrev pub IsSequenced : List (EventRow E) → Type 0
  IsSequenced log = Above 0 log × DistinctIds log

  pub Above-le : (m n : ℕ) (log : List (EventRow E)) → m ≤ n → Above n log → Above m log
  Above-le m n [] le h = tt
  Above-le m n (r ∷ rs) le h = (omega (arith, le, h.0), h.1)

  next_seq-cons :
      (r : EventRow E) (rs : List (EventRow E))
      → (r.seq < next_seq (r ∷ rs)) × (next_seq rs ≤ next_seq (r ∷ rs))
  unfolding next_seq current_max
  next_seq-cons r rs = elim (Option-cases (current_max rs)) [
    | inl eq ↦ ground arith
    | inr (m, eq) ↦ ground arith
  ]

  Above-append :
      (n : ℕ) (log : List (EventRow E)) (row : EventRow E)
      → Above n log
      → n < row.seq
      → next_seq log ≤ row.seq
      → Above n (log ++ row ∷ [])
  Above-append n [] row h lt le = (lt, tt)
  Above-append n (r ∷ rs) row h lt le =
      let (above, tail) = next_seq-cons r rs in
      (h.0, Above-append r.seq rs row h.1 (omega (arith, le, above)) (omega (arith, le, tail)))

  pub exists-append :
      (id : String) (log : List (EventRow E)) (row : EventRow E)
      → exists id (log ++ row ∷ []) ≡ (exists id log || str_eq row.event_id id)
  unfolding exists
  exists-append id [] row = ground arith
  exists-append id (r ∷ rs) row = ground (arith, exists-append id rs row)

  DistinctIds-append :
      (log : List (EventRow E)) (row : EventRow E)
      → DistinctIds log
      → exists row.event_id log ≡ false
      → DistinctIds (log ++ row ∷ [])
  unfolding exists
  DistinctIds-append [] row h new = ground arith
  DistinctIds-append (r ∷ rs) row (fresh, rest) new = (
    ground (
      arith,
      exists-append r.event_id rs row,
      eq_iff r.event_id row.event_id,
      eq_iff row.event_id r.event_id,
    ),
    DistinctIds-append rs row rest (ground arith),
  )

  exists-violates :
      (row : EventRow E) (log : List (EventRow E))
      → violates row log ≡ false
      → exists row.event_id log ≡ false
  unfolding exists violates
  exists-violates row [] h = ground arith
  exists-violates row (r ∷ rs) h = ground (arith, exists-violates row rs)

  pub next_seq-append :
      (log : List (EventRow E)) (row : EventRow E)
      → next_seq log ≤ row.seq
      → next_seq (log ++ row ∷ []) ≡ row.seq + 1
  unfolding next_seq current_max
  next_seq-append [] row h = ground arith
  next_seq-append (r ∷ rs) row h = elim (Option-cases (current_max rs)) [
    | inl eq ↦ elim (Option-cases (current_max (rs ++ row ∷ []))) [
      | inl eq' ↦ ground (arith, next_seq-append rs row)
      | inr (m', eq') ↦ ground (arith, next_seq-append rs row)
    ]
    | inr (m, eq) ↦ elim (Option-cases (current_max (rs ++ row ∷ []))) [
      | inl eq' ↦ ground (arith, next_seq-append rs row)
      | inr (m', eq') ↦ ground (arith, next_seq-append rs row)
    ]
  ]

  next_seq-positive : (log : List (EventRow E)) → 0 < next_seq log
  unfolding next_seq
  next_seq-positive log = elim (Option-cases (current_max log)) [
    | inl eq ↦ ground arith
    | inr (m, eq) ↦ ground arith
  ]

  append-IsSequenced :
      (row : EventRow E) (log : List (EventRow E))
      → IsSequenced log
      → next_seq log ≤ row.seq
      → exists row.event_id log ≡ false
      → IsSequenced (log ++ row ∷ [])
  append-IsSequenced row log (above, distinct) le new = (
    Above-append 0 log row above (omega (arith, next_seq-positive log, le)) le,
    DistinctIds-append log row distinct new,
  )

  -- What `insert` does to a row whose number is not below the next one.
  insert-cases :
      (row : EventRow E) (log : List (EventRow E))
      → (insert row log ≡ err integrity_error)
        ⊎ ((insert row log ≡ ok (log ++ row ∷ [])) × (exists row.event_id log ≡ false))
  unfolding insert
  insert-cases row log = elim (Bool-cases (violates row log)) [
    | inl bad ↦ inl (rw bad refl)
    | inr good ↦ inr (rw good refl, exists-violates row log good)
  ]

  pub save-IsSequenced :
      (id : String) (columns : E) (log : List (EventRow E))
      → IsSequenced log
      → IsSequenced (save id columns log)
  unfolding save
  save-IsSequenced id columns log h =
      let row : EventRow E = record { seq = next_seq log; event_id = id; columns = columns } in
      elim (insert-cases row log) [
        | inl bad ↦ rw (bad, save) h
        | inr (good, new) ↦ rw (good, save) (append-IsSequenced row log h (omega arith) new)
      ]

  insert_all-IsSequenced :
      (n : ℕ) (events : List (String × E)) (log log' : List (EventRow E))
      → IsSequenced log
      → next_seq log ≤ n
      → insert_all (numbered n events) log ≡ ok log'
      → IsSequenced log'
  unfolding insert_all numbered
  insert_all-IsSequenced n [] log log' h le eq = subst IsSequenced (ok_inj log log' eq) h
  insert_all-IsSequenced n ((id, columns) ∷ events) log log' h le eq =
      let row : EventRow E = record { seq = n; event_id = id; columns = columns } in
      elim (insert-cases row log) [
        | inl bad ↦ absurd (
            err_not_ok integrity_error log'
              (sym (ap (λ o. o >>= insert_all (numbered (n + 1) events)) bad) ∙ eq))
        | inr (good, new) ↦
            insert_all-IsSequenced (n + 1) events (log ++ row ∷ []) log'
              (append-IsSequenced row log h le new) (omega (arith, next_seq-append log row le))
              (sym (ap (λ o. o >>= insert_all (numbered (n + 1) events)) good) ∙ eq)
      ]

  exists-delete :
      (id d : String) (log : List (EventRow E))
      → exists id log ≡ false
      → exists id (delete d log).1 ≡ false
  unfolding exists delete
  exists-delete id d [] h = h
  exists-delete id d (r ∷ rs) h = ground (arith, exists-delete id d rs)

  Above-delete :
      (n : ℕ) (d : String) (log : List (EventRow E)) → Above n log → Above n (delete d log).1
  unfolding delete
  Above-delete n d [] h = h
  Above-delete n d (r ∷ rs) (lt, rest) = elim (Bool-cases (has_id d r)) [
    | inl here ↦ rw here (Above-le n r.seq rs (omega (arith, lt)) rest)
    | inr not_here ↦ rw not_here (lt, Above-delete r.seq d rs rest)
  ]

  DistinctIds-delete :
      (d : String) (log : List (EventRow E)) → DistinctIds log → DistinctIds (delete d log).1
  unfolding delete
  DistinctIds-delete d [] h = h
  DistinctIds-delete d (r ∷ rs) (new, rest) = elim (Bool-cases (has_id d r)) [
    | inl here ↦ rw here rest
    | inr not_here ↦ rw not_here (exists-delete r.event_id d rs new, DistinctIds-delete d rs rest)
  ]

  -- the log after a call that may have raised
  abbrev pub rolled_back :
      List (EventRow E) → Result IntegrityError (List (EventRow E)) → List (EventRow E)
  rolled_back log (ok log') = log'
  rolled_back log (err e) = log

  unfoldable pub run_log : List (LogCall E) → List (EventRow E) → List (EventRow E)
  run_log [] log = log
  run_log (saving id columns ∷ calls) log = run_log calls (save id columns log)
  run_log (saving_many events ∷ calls) log = run_log calls (rolled_back log (save_many events log))
  run_log (deleting id ∷ calls) log = run_log calls (delete id log).1

  save_many-IsSequenced :
      (events : List (String × E)) (log log' : List (EventRow E))
      → IsSequenced log
      → save_many events log ≡ ok log'
      → IsSequenced log'
  unfolding save_many
  save_many-IsSequenced events log log' h =
      insert_all-IsSequenced (next_seq log) events log log' h (omega arith)

  -- Whatever calls of `save`, `save_many` and `delete` run on a log whose sequence numbers rise
  -- from above 0 and whose event ids are distinct, those that raise included: it stays such a log.
  pub run_log-IsSequenced :
      (calls : List (LogCall E)) (log : List (EventRow E))
      → IsSequenced log
      → IsSequenced (run_log calls log)
  unfolding run_log
  run_log-IsSequenced [] log h = h
  run_log-IsSequenced (saving id columns ∷ calls) log h =
      run_log-IsSequenced calls (save id columns log) (save-IsSequenced id columns log h)
  run_log-IsSequenced (saving_many events ∷ calls) log h =
      run_log-IsSequenced calls (rolled_back log (save_many events log))
        (elim (Result-cases (save_many events log)) [
          | inl (log', eq) ↦ rw eq (save_many-IsSequenced events log log' h eq)
          | inr (e, eq) ↦ rw eq h
        ])
  run_log-IsSequenced (deleting id ∷ calls) log (above, distinct) =
      run_log-IsSequenced calls (delete id log).1
        (Above-delete 0 id log above, DistinctIds-delete id log distinct)

  filter-Above :
      (n : ℕ) (p : EventRow E → Bool) (log : List (EventRow E))
      → Above n log
      → Above n (filter p log)
  filter-Above n p [] h = h
  filter-Above n p (r ∷ rs) h = elim (Bool-cases (p r)) [
    | inl kept ↦ rw kept (h.0, filter-Above r.seq p rs h.1)
    | inr dropped ↦
        rw dropped
          (Above-le n r.seq (filter p rs) (omega (arith, h.0)) (filter-Above r.seq p rs h.1))
  ]

  pub order_by_seq-Above : (n : ℕ) (log : List (EventRow E)) → Above n log → order_by_seq log ≡ log
  unfolding order_by_seq insert_by_seq
  order_by_seq-Above n [] h = refl
  order_by_seq-Above n (r ∷ []) h = refl
  order_by_seq-Above n (r ∷ s ∷ rs) h =
      rw (order_by_seq-Above r.seq (s ∷ rs) h.1) (ground (arith, h.1.0))

  -- A log in order is read back by `iter_after_seq` in order: the rows above the checkpoint.
  pub iter_after_seq-Above :
      (k n : ℕ) (log : List (EventRow E))
      → Above n log
      → iter_after_seq k log ≡ filter (λ (r : EventRow E). ltb k r.seq) log
  unfolding iter_after_seq
  iter_after_seq-Above k n log h = order_by_seq-Above n _ (filter-Above n _ log h)

  pub violates-exists :
      (row : EventRow E) (log : List (EventRow E))
      → next_seq log ≤ row.seq
      → violates row log ≡ exists row.event_id log
  unfolding violates exists
  violates-exists row [] le = refl
  violates-exists row (r ∷ rs) le =
      let (above, tail) = next_seq-cons r rs in
      ground (arith, above, violates-exists row rs (omega (arith, tail, le)))

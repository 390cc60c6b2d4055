-- ===== src/Projection/CatchUp/Skipped.antt =====
-- backend/app/projection/catch_up.py over sqlalchemy_event_repository.py: what the catch-up sees
-- after the newest event was deleted.
use tactical_core.Base.{
  ℕ, ◌+◌, max, ◌≤◌, ◌<◌, ◌≡◌, refl, ap, ◌∙◌, String, eq_refl, true, false, List, [], ◌∷◌, ◌++◌,
  filter, ltb, arith, Option-cases, inl, inr,
}
use tactical_core.Projection.EventLog.{
  EventRow, current_max, next_seq, exists, insert, save, delete, order_by_seq, iter_after_seq,
}
use tactical_core.Projection.EventLog.Sequence.{
  Above, exists-append, next_seq-append, violates-exists,
}

module _ {E : Type 0} where
  next_seq-max :
      (r : EventRow E) (rs : List (EventRow E)) → next_seq (r ∷ rs) ≡ max (r.seq + 1) (next_seq rs)
  unfolding next_seq current_max
  next_seq-max r rs = elim (Option-cases (current_max rs)) [
    | inl eq ↦ ground arith
    | inr (m, eq) ↦ ground arith
  ]

  next_seq-below :
      (n : ℕ) (log : List (EventRow E)) (row : EventRow E)
      → Above n (log ++ row ∷ [])
      → (n < row.seq) × (next_seq log ≤ row.seq)
  unfolding next_seq current_max
  next_seq-below n [] row h = (h.0, ground (arith, h.0))
  next_seq-below n (r ∷ rs) row h =
      let (lt, le) = next_seq-below r.seq rs row h.1 in
      (omega (arith, h.0, lt), omega (arith, next_seq-max r rs, lt, le))

  delete-last :
      (log : List (EventRow E)) (row : EventRow E)
      → exists row.event_id log ≡ false
      → (delete row.event_id (log ++ row ∷ [])).1 ≡ log
  unfolding delete exists
  delete-last [] row h = ground (arith, eq_refl row.event_id)
  delete-last (r ∷ rs) row h = ground (arith, delete-last rs row)

  none_pending :
      (k : ℕ) (log : List (EventRow E))
      → next_seq log ≤ k + 1
      → filter (λ (r : EventRow E). ltb k r.seq) log ≡ []
  none_pending k [] h = refl
  none_pending k (r ∷ rs) h =
      ground (arith, next_seq-max r rs, none_pending k rs (omega (arith, next_seq-max r rs, h)))

  -- If every event of the log is projected, up to its newest, `row`, and `row` is deleted and then a
  -- new event is saved, the new event is in the log and no catch-up from that checkpoint sees it:
  -- the list of pending events is empty.
  pub saved_after_delete_skipped :
      (n k : ℕ) (log : List (EventRow E)) (row : EventRow E) (id : String) (columns : E)
      → Above n (log ++ row ∷ [])
      → exists row.event_id log ≡ false
      → exists id log ≡ false
      → row.seq ≤ k
      → (exists id (save id columns (delete row.event_id (log ++ row ∷ [])).1) ≡ true)
        × (iter_after_seq k (save id columns (delete row.event_id (log ++ row ∷ [])).1) ≡ [])
  unfolding save insert iter_after_seq order_by_seq
  saved_after_delete_skipped n k log row id columns above last new le =
      let row' : EventRow E = record { seq = next_seq log; event_id = id; columns = columns } in
      let free = violates-exists row' log (omega arith) ∙ new in
      let saved : save id columns log ≡ log ++ row' ∷ [] = rw (free, save) refl in
      let whole = ap (save id columns) (delete-last log row last) ∙ saved in
      let (lt, below) = next_seq-below n log row above in
      (
        ap (exists id) whole ∙ exists-append id log row' ∙ ground (arith, eq_refl id),
        ap (iter_after_seq k) whole
            ∙ ap order_by_seq (
                none_pending k (log ++ row' ∷ [])
                  (omega (arith, next_seq-append log row' (omega arith), below, le))),
      )

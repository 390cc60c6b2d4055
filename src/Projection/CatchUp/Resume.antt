-- ===== src/Projection/CatchUp/Resume.antt =====
-- backend/app/projection/catch_up.py: what a pass has done, and where the next one starts.
use tactical_core.Base.{
  ltb→lt, ℕ, ◌+◌, ◌≤◌, ◌≡◌, refl, sym, ap, subst, ◌∙◌, String, Bool, true, false, Option, none,
  some, List, [], ◌∷◌, ◌++◌, filter, ltb, length, arith, Bool-cases, inl, inr, ◌⊎◌,
}
use tactical_core.Projection.EventLog.{EventRow, iter_after_seq}
use tactical_core.Projection.EventLog.Sequence.{Above, iter_after_seq-Above}
use tactical_core.Projection.CatchUp.{
  Checkpoint, get_last_seq, advance, CatchUpResult, counted, Environment, Progress, attempt,
  catch_up_loop, catch_up,
}

module _ {E : Type 0} where
  -- The sequence number of the last row, `k` if there is none.
  abbrev pub last_seq_of : ℕ → List (EventRow E) → ℕ
  last_seq_of k [] = k
  last_seq_of k (r ∷ rs) = last_seq_of r.seq rs

  abbrev after : ℕ → List (EventRow E) → List (EventRow E)
  after k = filter (λ (r : EventRow E). ltb k r.seq)

  after-all : (k n : ℕ) (log : List (EventRow E)) → k ≤ n → Above n log → after k log ≡ log
  after-all k n [] le h = refl
  after-all k n (r ∷ rs) le h =
      ground (arith, h.0, after-all k r.seq rs (omega (arith, le, h.0)) h.1)

  after-Above : (k n : ℕ) (log : List (EventRow E)) → Above n log → Above k (after k log)
  after-Above k n [] h = h
  after-Above k n (r ∷ rs) h = elim (Bool-cases (ltb k r.seq)) [
    | inl above ↦
        let lt = ltb→lt k r.seq above in
        rw above (lt, subst (Above r.seq) (sym (after-all k r.seq rs (omega (arith, lt)) h.1)) h.1)
    | inr below ↦ rw below (after-Above k r.seq rs h.1)
  ]

  after-after :
      (k k' : ℕ) (log : List (EventRow E)) → k ≤ k' → after k' log ≡ after k' (after k log)
  after-after k k' [] le = refl
  after-after k k' (r ∷ rs) le = ground (arith, after-after k k' rs le)

  last_seq_of-le :
      (k : ℕ) (done rest : List (EventRow E)) → Above k (done ++ rest) → k ≤ last_seq_of k done
  last_seq_of-le k [] rest h = omega arith
  last_seq_of-le k (r ∷ rs) rest h = omega (arith, h.0, last_seq_of-le r.seq rs rest h.1)

  after-split :
      (k : ℕ) (done rest : List (EventRow E))
      → Above k (done ++ rest)
      → after (last_seq_of k done) (done ++ rest) ≡ rest
  after-split k [] rest h = after-all k k rest (omega arith) h
  after-split k (r ∷ rs) rest h =
      ground (arith, last_seq_of-le r.seq rs rest h.1, after-split r.seq rs rest h.1)

advance-seq :
    (seq : ℕ) (id : Option String) (c : Option Checkpoint) → get_last_seq (advance seq id c) ≡ seq
unfolding get_last_seq advance
advance-seq seq id none = refl
advance-seq seq id (some c) = refl

module _ {E S : Type 0} (env : Environment E S) where
  -- The entity store after the projection of these events.
  unfoldable pub project_all : List (EventRow E) → S → S
  project_all [] s = s
  project_all (r ∷ rs) s = project_all rs (env.projection r.event_id r.columns s).1

  -- Each of these events, in turn, is projected without an error and its checkpoint is committed.
  abbrev pub Succeeds : List (EventRow E) → S → Type 0
  Succeeds [] s = Unit
  Succeeds (r ∷ rs) s =
      ((env.projection r.event_id r.columns s).0 ≡ true)
      × (env.commits r.seq ≡ true)
      × Succeeds rs (env.projection r.event_id r.columns s).1

  -- How a pass over `rest` ends: it is done, or its first event fails, which is counted.
  abbrev pub Ends : List (EventRow E) → ℕ → S → S → Type 0
  Ends rest failed reached s =
      ((rest ≡ []) × (failed ≡ 0) × (s ≡ reached))
      ⊎ ((r : EventRow E) × (rs : List (EventRow E)) × (rest ≡ r ∷ rs)
          × (failed ≡ 1)
          × (s ≡ (env.projection r.event_id r.columns reached).1)
          × (((env.projection r.event_id r.columns reached).0 ≡ false)
              ⊎ (env.commits r.seq ≡ false)))

  attempt-done :
      (row : EventRow E) (p : Progress S)
      → (attempt env row p).0 ≡ true
      → (get_last_seq (attempt env row p).1.checkpoint ≡ row.seq)
        × ((attempt env row p).1.entities ≡ (env.projection row.event_id row.columns p.entities).1)
        × ((env.projection row.event_id row.columns p.entities).0 ≡ true)
        × (env.commits row.seq ≡ true)
  unfolding advance get_last_seq
  attempt-done row p h = (
    ground (arith, advance-seq row.seq (some row.event_id) p.checkpoint),
    ground arith,
    ground arith,
    ground arith,
  )

  attempt-failed :
      (row : EventRow E) (p : Progress S)
      → (attempt env row p).0 ≡ false
      → ((attempt env row p).1.checkpoint ≡ p.checkpoint)
        × ((attempt env row p).1.entities ≡ (env.projection row.event_id row.columns p.entities).1)
        × (((env.projection row.event_id row.columns p.entities).0 ≡ false)
            ⊎ (env.commits row.seq ≡ false))
  attempt-failed row p h = (
    ground arith,
    ground arith,
    elim (Bool-cases (env.projection row.event_id row.columns p.entities).0) [
      | inl returned ↦ inr (ground arith)
      | inr raised ↦ inl raised
    ],
  )

  -- What the loop has done with its rows: a part of them in front, in order, is projected.
  abbrev Split :
      List (EventRow E) → CatchUpResult → Progress S → CatchUpResult × Progress S → Type 0
  Split rows result p (result', p') =
      (done rest : List (EventRow E)) × (rows ≡ done ++ rest)
      × (result'.processed ≡ result.processed + length done)
      × (result'.checkpoint_seq ≡ last_seq_of result.checkpoint_seq done)
      × (get_last_seq p'.checkpoint ≡ last_seq_of (get_last_seq p.checkpoint) done)
      × Succeeds done p.entities
      × Ends rest (result'.failed) (project_all done p.entities) p'.entities

  loop-step :
      (row : EventRow E) (rows : List (EventRow E)) (result : CatchUpResult) (p : Progress S)
      (b : Bool)
      → (attempt env row p).0 ≡ b
      → catch_up_loop env (row ∷ rows) result p ≡ (elim b [
        | true ↦ catch_up_loop env rows (counted row result) (attempt env row p).1
        | false ↦ (record result { failed = result.failed + 1 }, (attempt env row p).1)
      ])
  unfolding catch_up_loop
  loop-step row rows result p b h =
      ap
        (λ (b : Bool). elim b as (λ _. CatchUpResult × Progress S) [
          | true ↦ catch_up_loop env rows (counted row result) (attempt env row p).1
          | false ↦ (record result { failed = result.failed + 1 }, (attempt env row p).1)
        ])
        h

  loop-Split :
      (rows : List (EventRow E)) (result : CatchUpResult) (p : Progress S)
      → result.failed ≡ 0
      → Split rows result p (catch_up_loop env rows result p)
  unfolding catch_up_loop project_all
  loop-Split [] result p clean =
      ([], [], refl, omega arith, refl, refl, tt, inl (refl, clean, refl))
  loop-Split (row ∷ rows) result p clean = elim (Bool-cases (attempt env row p).0) [
    | inl ok_ ↦
        let (seq, entities, returned, committed) = attempt-done row p ok_ in
        let next = catch_up_loop env rows (counted row result) (attempt env row p).1 in
        let (done, rest, split, processed, checkpoint, stored, good, ends) =
          loop-Split rows (counted row result) (attempt env row p).1 clean in
        subst (Split (row ∷ rows) result p) (sym (loop-step row rows result p true ok_)) (
          row ∷ done,
          rest,
          ap (λ t. row ∷ t) split,
          omega (arith, processed),
          checkpoint,
          stored ∙ ap (λ k. last_seq_of k done) seq,
          (returned, committed, subst (Succeeds done) entities good),
          subst (λ s. Ends rest next.0.failed (project_all done s) next.1.entities) entities ends,
        )
    | inr failed ↦
        let (checkpoint, entities, why) = attempt-failed row p failed in
        subst (Split (row ∷ rows) result p) (sym (loop-step row rows result p false failed)) (
          [],
          row ∷ rows,
          refl,
          omega arith,
          refl,
          ap get_last_seq checkpoint,
          tt,
          inr (row, rows, refl, omega (arith, clean), entities, why),
        )
  ]

  -- A pass over a log in order projects and commits a part `done` in front of the events that are above the
  -- checkpoint, each once and in order, and leaves exactly the others, `rest`, above the new
  -- checkpoint, where the next pass starts. It reports the length of `done` and the new checkpoint.
  -- Either `rest` is empty, no failure is reported and the entity store is that of the projection
  -- of `done`; or one failure is reported, and the projection or the commit of the first event of
  -- `rest` failed.
  pub catch_up-resumes :
      (n : ℕ) (log : List (EventRow E)) (p : Progress S)
      → Above n log
      → (done rest : List (EventRow E)) × (iter_after_seq (get_last_seq p.checkpoint) log
          ≡ done ++ rest)
        × (iter_after_seq (get_last_seq (catch_up env log p).1.checkpoint) log ≡ rest)
        × ((catch_up env log p).0.processed ≡ length done)
        × ((catch_up env log p).0.checkpoint_seq ≡ get_last_seq (catch_up env log p).1.checkpoint)
        × Succeeds done p.entities
        × Ends rest
            (catch_up env log p).0.failed
            (project_all done p.entities)
            (catch_up env log p).1.entities
  unfolding catch_up
  catch_up-resumes n log p h =
      let k = get_last_seq p.checkpoint in
      let start : CatchUpResult = record {
        processed = 0;
        failed = 0;
        checkpoint_seq = k;
        last_event_id = none;
      } in
      let (done, rest, split, processed, seq, stored, good, ends) =
        loop-Split (iter_after_seq k log) start p refl in
      let pending = sym (iter_after_seq-Above k n log h) ∙ split in
      let above = subst (Above k) pending (after-Above k n log h) in
      let le = last_seq_of-le k done rest above in
      (
        done,
        rest,
        split,
        ap (λ j. iter_after_seq j log) stored
            ∙ iter_after_seq-Above (last_seq_of k done) n log h
            ∙ after-after k (last_seq_of k done) log le
            ∙ ap (after (last_seq_of k done)) pending
            ∙ after-split k done rest above,
        omega (arith, processed),
        seq ∙ sym stored,
        good,
        ends,
      )

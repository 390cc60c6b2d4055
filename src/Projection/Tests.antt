-- ===== src/Projection/Tests.antt =====
-- The event log and its catch-up on concrete logs. An event's data is a number.
use tactical_core.Base.{
  ◌*◌, ℕ, ◌+◌, ◌<◌, ◌≡◌, refl, true, String, none, some, List, [], ◌∷◌, ◌++◌, All, arith, length,
  ltb, ◌⊎◌,
}
use tactical_core.Base.Result.{ok}
use tactical_core.Projection.EventLog.{EventRow, exists, save, delete, iter_after_seq}
use tactical_core.Projection.EventLog.Sequence.{LogCall, run_log, IsSequenced, run_log-IsSequenced}
use tactical_core.Projection.EventLog.Deliveries.{
  Store, new_deliveries, save_with_deliveries, has_delivery, save_with_deliveries_complete,
}
use tactical_core.Projection.CatchUp.{get_last_seq, Environment, Progress, catch_up}
use tactical_core.Projection.CatchUp.Resume.{project_all, Succeeds, Ends, catch_up-resumes}
use tactical_core.Projection.CatchUp.Skipped.{saved_after_delete_skipped}
use tactical_core.Projection.Health.{
  ProjectionRecoveryState, new_recovery, record_recovery, backlog_count, classify,
}
use tactical_core.Projection.Health.Backlog.{reads, catch_up-classified}

abbrev row : ℕ → String → EventRow ℕ
row n id = record { seq = n; event_id = id; columns = n * 10 }

abbrev log : List (EventRow ℕ)
log = row 1 "a" ∷ row 2 "b" ∷ row 4 "c" ∷ []

log-IsSequenced : IsSequenced log
unfolding exists
log-IsSequenced = ((omega arith, (omega arith, (omega arith, tt))), (refl, (refl, (refl, tt))))

abbrev calls : List (LogCall ℕ)
calls =
    LogCall.saving "d" 5
    ∷ LogCall.saving "a" 6
    ∷ LogCall.saving_many (("e", 7) ∷ ("b", 8) ∷ [])
    ∷ LogCall.deleting "b"
    ∷ []

run_log-IsSequenced_example : IsSequenced (run_log calls log)
run_log-IsSequenced_example = run_log-IsSequenced calls log log-IsSequenced

abbrev store : Store ℕ
store = record { log = log; deliveries = [] }

abbrev consumers : List (String × String)
consumers = ("u1", "ui") ∷ ("u2", "bot") ∷ []

save_with_deliveries_complete_example :
    (s : Store ℕ) × (save_with_deliveries 100 "d" 5 consumers store ≡ ok s)
    × (s.log ≡ save "d" 5 log)
    × (exists "d" s.log ≡ true)
    × (s.deliveries ≡ [] ++ new_deliveries 100 "d" consumers [])
    × All (λ (k : String × String). has_delivery "d" k.1 s.deliveries ≡ true) consumers
save_with_deliveries_complete_example =
    save_with_deliveries_complete 100 "d" 5 consumers store (refl, (refl, tt))

-- Sums the data of the events, and fails on the event "c".
abbrev env : Environment ℕ ℕ
env = record { projection = λ id n s. (ltb n 40, s + n); commits = λ seq. true }

abbrev behind : Progress ℕ
behind = record {
  checkpoint = some (record { last_seq = 1; last_event_id = some "a" });
  entities = 10;
}

catch_up-resumes_example :
    (done rest : List (EventRow ℕ)) × (iter_after_seq (get_last_seq behind.checkpoint) log
      ≡ done ++ rest)
    × (iter_after_seq (get_last_seq (catch_up env log behind).1.checkpoint) log ≡ rest)
    × ((catch_up env log behind).0.processed ≡ length done)
    × ((catch_up env log behind).0.checkpoint_seq
        ≡ get_last_seq (catch_up env log behind).1.checkpoint)
    × Succeeds env done behind.entities
    × Ends env rest
        (catch_up env log behind).0.failed
        (project_all env done behind.entities)
        (catch_up env log behind).1.entities
catch_up-resumes_example = catch_up-resumes env 0 log behind log-IsSequenced.0

saved_after_delete_skipped_example :
    (exists "d" (save "d" 5 (delete "c" log).1) ≡ true)
    × (iter_after_seq 4 (save "d" 5 (delete "c" log).1) ≡ [])
unfolding exists
saved_after_delete_skipped_example =
    saved_after_delete_skipped 0 4 (row 1 "a" ∷ row 2 "b" ∷ []) (row 4 "c") "d" 5
      (omega arith, (omega arith, (omega arith, tt))) refl refl (omega arith)

catch_up-classified_example :
    (((catch_up env log behind).0.failed ≡ 0)
      × (backlog_count (reads log (catch_up env log behind).1.checkpoint) ≡ 0)
      × (classify
            (reads log (catch_up env log behind).1.checkpoint)
            (record_recovery 7 (some (catch_up env log behind).0) none new_recovery)
          ≡ ProjectionRecoveryState.healthy))
    ⊎ (((catch_up env log behind).0.failed ≡ 1)
        × (0 < backlog_count (reads log (catch_up env log behind).1.checkpoint))
        × (classify
              (reads log (catch_up env log behind).1.checkpoint)
              (record_recovery 7 (some (catch_up env log behind).0) none new_recovery)
            ≡ ProjectionRecoveryState.degraded))
catch_up-classified_example = catch_up-classified env 0 7 log behind new_recovery log-IsSequenced.0

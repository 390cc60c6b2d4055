-- ===== src/Projection/Health.antt =====
-- backend/app/projection/recovery_health.py: what `ProjectionRecoveryHealth` records of the last
-- recovery and how it classifies the projection. A repository that is absent is `none`; a read of
-- it gives a number, or `none` where it raises.
pub mod Backlog
use tactical_core.Base.{
  ℕ, ◌-◌, zero, suc, String, Bool, true, false, ◌&&◌, Option, none, some, ltb, ◌==◌, if◌then◌else◌,
}
use tactical_core.Projection.CatchUp.{CatchUpResult}

pub data RecoveryStatus : Type 0 where
  never_run succeeded failed : RecoveryStatus

pub data ProjectionRecoveryState : Type 0 where
  healthy degraded recovering unavailable : ProjectionRecoveryState

-- the record of the latest recovery
pub record Recovery : Type 0 where
  pub status : RecoveryStatus
  pub last_processed : ℕ
  pub last_failed : ℕ
  pub last_error : Option String
  pub last_at : Option ℕ

-- `__init__`
abbrev pub new_recovery : Recovery
new_recovery = record {
  status = never_run;
  last_processed = 0;
  last_failed = 0;
  last_error = none;
  last_at = none;
}

-- `record_recovery`, with the text of the error
unfoldable pub record_recovery : ℕ → Option CatchUpResult → Option String → Recovery → Recovery
record_recovery now result (some error) r = record {
  status = failed;
  last_processed = 0;
  last_failed = 0;
  last_error = some error;
  last_at = some now;
}
record_recovery now none none r = record {
  status = succeeded;
  last_processed = 0;
  last_failed = 0;
  last_error = none;
  last_at = some now;
}
record_recovery now (some result) none r = record {
  status = if ltb 0 result.failed then failed else succeeded;
  last_processed = result.processed;
  last_failed = result.failed;
  last_error = none;
  last_at = some now;
}

-- what the checkpoint repository answers: `get_last_seq` and `get_last_event_id`
pub record CheckpointReads : Type 0 where
  pub last_seq : Option ℕ
  pub last_event_id : Option (Option String)

-- The two repositories, where they are configured.
pub record Repositories : Type 0 where
  pub checkpoints : Option CheckpointReads
  pub max_seq : Option (Option ℕ)

-- the first `try` of `_durable_state`
unfoldable pub read_checkpoint : Option CheckpointReads → ℕ × Option String
read_checkpoint none = (0, none)
read_checkpoint (some c) = elim c.last_seq [
  | none ↦ (0, none)
  | some seq ↦ (seq, (elim c.last_event_id [ none ↦ none | some id ↦ id ]))
]

-- its second `try`
unfoldable pub read_latest : Option (Option ℕ) → ℕ
read_latest none = 0
read_latest (some none) = 0
read_latest (some (some m)) = m

unfoldable pub persistence_active : Repositories → Bool
persistence_active repositories = elim repositories.checkpoints [
  | none ↦ false
  | some c ↦ elim repositories.max_seq [ none ↦ false | some m ↦ true ]
]

-- `max(0, latest_seq - checkpoint_seq)`
unfoldable pub backlog_count : Repositories → ℕ
unfolding read_checkpoint read_latest
backlog_count repositories =
    read_latest repositories.max_seq - (read_checkpoint repositories.checkpoints).0

abbrev pub has_failed : RecoveryStatus → Bool
has_failed never_run = false
has_failed succeeded = false
has_failed failed = true

unfoldable pub classify : Repositories → Recovery → ProjectionRecoveryState
unfolding persistence_active backlog_count
classify repositories r =
    if persistence_active repositories
    then (if has_failed r.status
        then degraded
        else (if backlog_count repositories == 0 then healthy else recovering))
    else unavailable

pub record Snapshot : Type 0 where
  pub state : ProjectionRecoveryState
  pub checkpoint_seq : ℕ
  pub checkpoint_event_id : Option String
  pub latest_seq : ℕ
  pub backlog : ℕ
  pub recovery : Recovery
  pub active : Bool

-- `snapshot`; the recovery's five fields stand together
unfoldable pub snapshot : Repositories → Recovery → Snapshot
unfolding classify
snapshot repositories r =
    let (checkpoint_seq, checkpoint_event_id) = read_checkpoint repositories.checkpoints in
    record {
      state = classify repositories r;
      checkpoint_seq = checkpoint_seq;
      checkpoint_event_id = checkpoint_event_id;
      latest_seq = read_latest repositories.max_seq;
      backlog = backlog_count repositories;
      recovery = r;
      active = persistence_active repositories;
    }

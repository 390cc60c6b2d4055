-- ===== src/Projection/CatchUp.antt =====
-- backend/app/projection/catch_up.py and checkpoint.py: one pass of the catch-up of a projection,
-- and the checkpoint row that it advances. The projection callable and the outcome of the
-- checkpoint's commit are parameters.
pub mod Resume
pub mod Skipped
use tactical_core.Base.{
  ℕ, ◌+◌, String, Bool, true, false, ◌&&◌, Option, none, some, List, [], ◌∷◌, if◌then◌else◌,
}
use tactical_core.Projection.EventLog.{EventRow, iter_after_seq}

-- `ProjectionCheckpoint`
pub record Checkpoint : Type 0 where
  pub last_seq : ℕ
  pub last_event_id : Option String

unfoldable pub get_last_seq : Option Checkpoint → ℕ
get_last_seq none = 0
get_last_seq (some c) = c.last_seq

unfoldable pub get_last_event_id : Option Checkpoint → Option String
get_last_event_id none = none
get_last_event_id (some c) = c.last_event_id

-- `advance`
unfoldable pub advance : ℕ → Option String → Option Checkpoint → Option Checkpoint
advance seq id none = some (record { last_seq = seq; last_event_id = id })
advance seq id (some c) = some (record c { last_seq = seq; last_event_id = id })

pub record CatchUpResult : Type 0 where
  pub processed : ℕ
  pub failed : ℕ
  pub checkpoint_seq : ℕ
  pub last_event_id : Option String

-- What a pass calls: the projection of an event, with whether it returned and what it left in the
-- entity store, and whether the commit of a checkpoint succeeds.
pub record Environment (E S : Type 0) : Type 0 where
  pub projection : String → E → S → Bool × S
  pub commits : ℕ → Bool

pub record Progress (S : Type 0) : Type 0 where
  pub checkpoint : Option Checkpoint
  pub entities : S

-- the result after one more event
abbrev pub counted : {E : Type 0} → EventRow E → CatchUpResult → CatchUpResult
counted row result = record {
  processed = result.processed + 1;
  failed = result.failed;
  checkpoint_seq = row.seq;
  last_event_id = some row.event_id;
}

module _ {E S : Type 0} (env : Environment E S) where
  -- the `try` block: whether it raised nothing
  abbrev pub attempt : EventRow E → Progress S → Bool × Progress S
  attempt row p =
      let (returned, entities) = env.projection row.event_id row.columns p.entities in
      if returned && env.commits row.seq
      then (
        true,
        record {
          checkpoint = advance row.seq (some row.event_id) p.checkpoint;
          entities = entities;
        },
      )
      else (false, record p { entities = entities })

  unfoldable pub catch_up_loop :
      List (EventRow E) → CatchUpResult → Progress S → CatchUpResult × Progress S
  unfolding advance
  catch_up_loop [] result p = (result, p)
  catch_up_loop (row ∷ rows) result p =
      let (done, p') = attempt row p in
      elim done [
        | true ↦ catch_up_loop rows (counted row result) p'
        | false ↦ (record result { failed = result.failed + 1 }, p')
      ]

  -- `ProjectionCatchUp.run`
  unfoldable pub catch_up : List (EventRow E) → Progress S → CatchUpResult × Progress S
  unfolding catch_up_loop get_last_seq iter_after_seq
  catch_up log p =
      let last_seq = get_last_seq p.checkpoint in
      catch_up_loop (iter_after_seq last_seq log)
        (record { processed = 0; failed = 0; checkpoint_seq = last_seq; last_event_id = none }) p

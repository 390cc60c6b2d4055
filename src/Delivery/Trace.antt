-- ===== src/Delivery/Trace.antt =====
-- Runs of the outbox: the state-changing methods of outbox_repository.py, in any order.
use tactical_core.Base.{ℕ, String, Option, List, [], ◌∷◌}
use tactical_core.Delivery.Row.{Row}
use tactical_core.Delivery.Outbox
use tactical_core.Delivery.Outbox.{
  Policy, claim_pending, mark_delivered, mark_pending, mark_failed, mark_dead_letter,
  requeue_dead_letter,
}

-- A call with the values of the clock and of `uuid4` that it reads.
pub data Call : Type 0 where
  enqueue : String → ℕ → String → String → Call
  claim : ℕ → ℕ → Option (List String) → Call
  delivered : ℕ → String → String → Call
  returned : ℕ → String → String → Call
  failed : ℕ → ℕ → String → String → List ℕ → Call
  buried : ℕ → String → String → List ℕ → Call
  requeued : ℕ → String → String → Call

-- The table after a call.
unfoldable pub after : Policy → Call → List Row → List Row
after p (Call.enqueue uuid now e c) rows = (Outbox.enqueue uuid now e c rows).1
after p (Call.claim now limit consumers) rows = (claim_pending p now limit consumers rows).1
after p (Call.delivered now e c) rows = mark_delivered now e c rows
after p (Call.returned now e c) rows = mark_pending now e c rows
after p (Call.failed now later e c error) rows = mark_failed p now later e c error rows
after p (Call.buried now e c error) rows = mark_dead_letter now e c error rows
after p (Call.requeued now e c) rows = (requeue_dead_letter now e c rows).1

unfoldable pub run : Policy → List Call → List Row → List Row
unfolding after
run p [] rows = rows
run p (call ∷ calls) rows = run p calls (after p call rows)

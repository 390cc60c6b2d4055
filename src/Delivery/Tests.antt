-- ===== src/Delivery/Tests.antt =====
-- Runs of the delivery outbox on concrete tables.
use tactical_core.Base.{
  ℕ, ◌+◌, ◌≤◌, ◌≡◌, refl, true, false, String, none, some, List, [], ◌∷◌, All, arith, length,
  filter, ltb, if◌then◌else◌,
}
use tactical_core.Delivery.Row.{Row, State, find_pair}
use tactical_core.Delivery.Outbox.{Policy, is_eligible, claim_pending, get_state}
use tactical_core.Delivery.Trace.{Call, run}
use tactical_core.Delivery.Budget.{InBudget, run-InBudget}
use tactical_core.Delivery.Keys.{keys, IsUnique, run-IsUnique}
use tactical_core.Delivery.Schedule.{IsTaken, claim_pending_complete}
use tactical_core.Delivery.Claim.{Attempt, wins, wins_of, claimed_once}
use tactical_core.Delivery.Dispatcher.{Dispatcher, Callback, has_consumer, deliver_loop}
use tactical_core.Delivery.Settle.{is_settled, loop_settles}
use tactical_core.Delivery.Ledger.{
  Plugin, redeliver, until_success, has_delivered, redeliver-until_success,
}

abbrev policy : Policy
policy = record { stale_lease = 300_000_000; max_attempts = 3; backoff_base = 1_000_000 }

abbrev waiting_row : Row
waiting_row = record {
  id = "r1";
  event_id = "e1";
  consumer_id = "ui";
  state = State.pending;
  attempts = 0;
  next_attempt_at = none;
  last_error = none;
  created_at = 10;
  updated_at = 10;
}

abbrev taken_row : Row
taken_row = record waiting_row {
  id = "r2";
  consumer_id = "bot";
  state = State.in_flight;
  attempts = 1;
}

abbrev table : List Row
table = waiting_row ∷ taken_row ∷ []

abbrev calls : List Call
calls = Call.claim 20 5 none ∷ Call.failed 30 31 "e1" "ui" [] ∷ Call.enqueue "r3" 40 "e2" "ui" ∷ []

table-InBudget : All (InBudget policy) table
table-InBudget = (
  record { bounded = omega arith; waiting = λ h. omega arith },
  (record { bounded = omega arith; waiting = λ h. omega arith }, tt),
)

run-InBudget_example : All (InBudget policy) (run policy calls table)
run-InBudget_example =
    run-InBudget policy calls table (omega arith) (refl, (refl, (refl, tt))) table-InBudget

run-IsUnique_example : IsUnique (keys (run policy calls table))
run-IsUnique_example = run-IsUnique policy calls table (refl, (refl, tt))

claim_pending_complete_example :
    All
      (IsTaken policy 50
        (claim_pending policy 50 2 none table).0
        (claim_pending policy 50 2 none table).1)
      table
    × All (λ r. is_eligible policy 50 r ≡ false) (claim_pending policy 50 2 none table).1
claim_pending_complete_example =
    claim_pending_complete policy 50 2 table (omega arith) ((refl, tt), (tt, tt))

abbrev race : List Attempt
race =
    record { worker = "a"; now = 50; rid = "r1" }
    ∷ record { worker = "b"; now = 51; rid = "r1" }
    ∷ []

claimed_once_example : wins_of "r1" (wins policy race table) ≤ 1
claimed_once_example =
    claimed_once policy "r1" 50 race table ((refl, tt), (tt, tt))
      ((omega arith, omega arith), ((omega arith, omega arith), tt))

-- Counts its calls, and raises on the second.
abbrev raises_once : Callback ℕ String
raises_once t w = (if ltb w 1 then true else false, w + 1)

abbrev dispatcher : Dispatcher ℕ String
dispatcher = record { policy = policy; events = none; consumers = ("ui", raises_once) ∷ [] }

abbrev clock : ℕ → ℕ
clock n = 100 + n

loop_settles_example :
    All
      (λ r.
        is_settled
          (has_consumer dispatcher r.consumer_id)
          (get_state r.event_id r.consumer_id (deliver_loop dispatcher clock 1 table 0 table).2)
        ≡ true)
      table
    × ((deliver_loop dispatcher clock 1 table 0 table).0
        ≡ length (filter (λ r. has_consumer dispatcher r.consumer_id) table))
unfolding find_pair
loop_settles_example =
    loop_settles dispatcher clock 1 table 0 table (refl, (refl, tt)) (refl, (refl, tt))

abbrev raising : Plugin ℕ ℕ
raising w = (none, w + 1)

abbrev returning : Plugin ℕ ℕ
returning w = (some w, w + 10)

redeliver-until_success_example :
    (redeliver "e1" "map" (raising ∷ returning ∷ returning ∷ []) 0 []).0 ≡ (
      if has_delivered "e1" "map" []
      then 0
      else until_success (raising ∷ returning ∷ returning ∷ []) 0)
redeliver-until_success_example =
    redeliver-until_success "e1" "map" (raising ∷ returning ∷ returning ∷ []) 0 []

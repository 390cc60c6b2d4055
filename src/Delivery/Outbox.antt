-- ===== src/Delivery/Outbox.antt =====
-- backend/app/event_delivery/outbox_repository.py: `SQLAlchemyOutboxRepository`. A method takes the
-- table and returns it beside its result. The clock and `uuid4` are arguments.
use tactical_core.Base.{
  ℕ, ◌+◌, ◌-◌, ◌*◌, ◌^◌, min, String, Bool, true, false, ◌&&◌, ◌||◌, Option, none, some, List, [],
  ◌∷◌, ◌++◌, str_eq, if◌then◌else◌, ltb, leb, ◌==◌, map, filter, take, any, length,
}
use tactical_core.Delivery.Row.{
  State, state_eq, Row, find_pair, modify_pair, update_where, rowcount, find_id, order_by_created,
}

pub record Policy : Type 0 where
  pub stale_lease : ℕ
  pub max_attempts : ℕ
  pub backoff_base : ℕ

abbrev pub set_retry_policy : Policy → Option ℕ → Option ℕ → Option ℕ → Policy
set_retry_policy p max_attempts backoff_base stale_lease = record {
  stale_lease = elim stale_lease [ none ↦ p.stale_lease | some s ↦ s ];
  max_attempts = elim max_attempts [ none ↦ p.max_attempts | some m ↦ m ];
  backoff_base = elim backoff_base [ none ↦ p.backoff_base | some b ↦ b ];
}

-- the row that `enqueue` adds
abbrev pub fresh_row : String → String → String → ℕ → Row
fresh_row uuid e c now = record {
  id = uuid;
  event_id = e;
  consumer_id = c;
  state = State.pending;
  attempts = 0;
  next_attempt_at = none;
  last_error = none;
  created_at = now;
  updated_at = now;
}

unfoldable pub enqueue : String → ℕ → String → String → List Row → Bool × List Row
unfolding find_pair
enqueue uuid now e c rows = elim (find_pair e c rows) [
  | some _ ↦ (false, rows)
  | none ↦ (true, rows ++ fresh_row uuid e c now ∷ [])
]

-- one `uuid4` result goes with each consumer
unfoldable pub enqueue_many : ℕ → String → List (String × String) → List Row → ℕ × List Row
unfolding enqueue
enqueue_many now e [] rows = (0, rows)
enqueue_many now e ((uuid, c) ∷ rest) rows =
    let (created, rows1) = enqueue uuid now e c rows in
    let (n, rows2) = enqueue_many now e rest rows1 in ((if created then 1 else 0) + n, rows2)

-- `next_attempt_at IS NULL OR next_attempt_at <= now`
abbrev pub is_due : Option ℕ → ℕ → Bool
is_due none now = true
is_due (some t) now = leb t now

-- IN_FLIGHT, and the lease is over: `updated_at < now - stale_lease`
abbrev pub is_stale : Policy → ℕ → Row → Bool
is_stale p now r = state_eq r.state State.in_flight && ltb (r.updated_at) (now - p.stale_lease)

-- the condition of the candidate select, and of the conditional update
unfoldable pub is_eligible : Policy → ℕ → Row → Bool
is_eligible p now r =
    state_eq r.state State.pending
    || (state_eq r.state State.failed
        && (ltb r.attempts p.max_attempts && is_due r.next_attempt_at now))
    || (is_stale p now r && ltb r.attempts p.max_attempts)

unfoldable pub is_exhausted : Policy → ℕ → Row → Bool
is_exhausted p now r = is_stale p now r && leb p.max_attempts r.attempts

abbrev pub retired : ℕ → Row → Row
retired now r = record r { state = State.dead_letter; next_attempt_at = none; updated_at = now }

-- the first update of `claim_pending`
unfoldable pub retire_exhausted : Policy → ℕ → List Row → List Row
unfolding update_where is_exhausted
retire_exhausted p now rows = update_where (is_exhausted p now) (retired now) rows

-- `consumer_ids` is falsy when it is None or empty
unfoldable pub is_wanted : Option (List String) → Row → Bool
is_wanted none r = true
is_wanted (some []) r = true
is_wanted (some (c ∷ cs)) r = any (str_eq r.consumer_id) (c ∷ cs)

unfoldable pub candidate_ids : Policy → ℕ → ℕ → Option (List String) → List Row → List String
unfolding is_eligible is_wanted order_by_created
candidate_ids p now limit consumers rows =
    map (λ r. r.id)
      (take limit
        (order_by_created (filter (λ r. is_eligible p now r && is_wanted consumers r) rows)))

abbrev pub claimed : ℕ → Row → Row
claimed now r = record r { state = State.in_flight; attempts = r.attempts + 1; updated_at = now }

abbrev pub claimable : Policy → ℕ → String → Row → Bool
claimable p now rid r = str_eq r.id rid && is_eligible p now r

-- one round of the claiming loop: the conditional update, and the row if it matched exactly one
unfoldable pub claim_one : Policy → ℕ → String → List Row → Option Row × List Row
unfolding is_eligible update_where rowcount find_id
claim_one p now rid rows =
    let rows' = update_where (claimable p now rid) (claimed now) rows in
    ((if rowcount (claimable p now rid) rows == 1 then find_id rid rows' else none), rows')

abbrev pub keep : Option Row → List Row → List Row
keep none rest = rest
keep (some r) rest = r ∷ rest

unfoldable pub claim_loop : Policy → ℕ → List String → List Row → List Row × List Row
unfolding claim_one
claim_loop p now [] rows = ([], rows)
claim_loop p now (rid ∷ rids) rows =
    let (won, rows1) = claim_one p now rid rows in
    let (rest, rows2) = claim_loop p now rids rows1 in (keep won rest, rows2)

unfoldable pub claim_pending :
    Policy → ℕ → ℕ → Option (List String) → List Row → List Row × List Row
unfolding retire_exhausted candidate_ids claim_loop
claim_pending p now limit consumers rows =
    let rows1 = retire_exhausted p now rows in
    claim_loop p now (candidate_ids p now limit consumers rows1) rows1

abbrev pub set_delivered : ℕ → Row → Row
set_delivered now r = record r {
  state = State.delivered;
  next_attempt_at = none;
  last_error = none;
  updated_at = now;
}

unfoldable pub mark_delivered : ℕ → String → String → List Row → List Row
unfolding modify_pair
mark_delivered now e c rows = modify_pair e c (set_delivered now) rows

-- `next_attempt_at` and `attempts` keep their values
abbrev pub set_pending : ℕ → Row → Row
set_pending now r = record r { state = State.pending; updated_at = now }

unfoldable pub mark_pending : ℕ → String → String → List Row → List Row
unfolding modify_pair
mark_pending now e c rows = modify_pair e c (set_pending now) rows

abbrev pub backoff_cap : ℕ
backoff_cap = 60_000_000

unfoldable pub backoff_delay : Policy → ℕ → ℕ
backoff_delay p completed = min (p.backoff_base * 2 ^ (completed - 1)) backoff_cap

-- `now` is the clock for `updated_at`, and `later` its second reading
abbrev pub set_failed : Policy → ℕ → ℕ → List ℕ → Row → Row
set_failed p now later error r =
    if leb p.max_attempts r.attempts
    then record r {
      state = State.dead_letter;
      next_attempt_at = none;
      last_error = some (take 500 error);
      updated_at = now;
    }
    else record r {
      state = State.failed;
      next_attempt_at = some (later + backoff_delay p r.attempts);
      last_error = some (take 500 error);
      updated_at = now;
    }

unfoldable pub mark_failed : Policy → ℕ → ℕ → String → String → List ℕ → List Row → List Row
unfolding modify_pair backoff_delay
mark_failed p now later e c error rows = modify_pair e c (set_failed p now later error) rows

abbrev pub set_dead_letter : ℕ → List ℕ → Row → Row
set_dead_letter now error r = record r {
  state = State.dead_letter;
  next_attempt_at = none;
  last_error = some (take 500 error);
  updated_at = now;
}

unfoldable pub mark_dead_letter : ℕ → String → String → List ℕ → List Row → List Row
unfolding modify_pair
mark_dead_letter now e c error rows = modify_pair e c (set_dead_letter now error) rows

abbrev pub set_requeued : ℕ → Row → Row
set_requeued now r = record r {
  state = State.pending;
  attempts = 0;
  next_attempt_at = none;
  last_error = none;
  updated_at = now;
}

unfoldable pub requeue_dead_letter : ℕ → String → String → List Row → Bool × List Row
unfolding find_pair modify_pair
requeue_dead_letter now e c rows = elim (find_pair e c rows) [
  | none ↦ (false, rows)
  | some r ↦
      if state_eq r.state State.dead_letter
      then (true, modify_pair e c (set_requeued now) rows)
      else (false, rows)
]

unfoldable pub get_state : String → String → List Row → Option State
unfolding find_pair
get_state e c rows = elim (find_pair e c rows) [ none ↦ none | some r ↦ some r.state ]

unfoldable pub count_by_state : State → List Row → ℕ
count_by_state s rows = length (filter (λ r. state_eq r.state s) rows)

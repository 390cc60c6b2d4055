-- ===== src/Delivery/Settle.antt =====
-- What a pass of `DurableDeliveryDispatcher.deliver_pending` leaves behind.
use tactical_core.Base.{
  ℕ, ◌+◌, String, ◌≡◌, refl, Bool, true, false, ◌&&◌, Option, none, some, List, [], ◌∷◌, str_eq,
  codes, if◌then◌else◌, All, arith, eq_iff, Bool-cases, Option-cases, inl, inr, length, filter, ◌∙◌,
  All-mono, ap, eq_refl,
}
use mathlib.Core.Bool.{false≢true}
use mathlib.Core.Option
use tactical_core.Delivery.Row.{Row, State, find_pair, modify_pair}
use tactical_core.Delivery.Outbox.{Policy, get_state, set_failed, set_delivered, set_pending}
use tactical_core.Delivery.Keys.{keys, holds, IsUnique}
use tactical_core.Delivery.Dispatcher.{
  Dispatcher, Callback, Resolved, consumer, resolve, has_consumer, deliver_one, deliver_loop,
}

-- Changing the record of one pair changes what is found for that pair alone.
pub find_pair-modify_pair :
    (e c e' c' : String) (f : Row → Row) (rows : List Row)
    → ((r : Row) → ((f r).event_id ≡ r.event_id) × ((f r).consumer_id ≡ r.consumer_id))
    → find_pair e c (modify_pair e' c' f rows) ≡ (
        if str_eq e e' && str_eq c c'
        then Option.map f (find_pair e c rows)
        else find_pair e c rows)
unfolding find_pair modify_pair
find_pair-modify_pair e c e' c' f [] k = ground arith
find_pair-modify_pair e c e' c' f (r ∷ rs) k = ground (
  arith,
  k r,
  find_pair-modify_pair e c e' c' f rs k,
  eq_iff e e',
  eq_iff c c',
  eq_iff r.event_id e,
  eq_iff r.event_id e',
  eq_iff r.consumer_id c,
  eq_iff r.consumer_id c',
)

-- The states that a pass may leave for a claimed record, by whether its consumer is registered.
abbrev pub is_settled : Bool → Option State → Bool
is_settled true (some State.delivered) = true
is_settled true (some State.failed) = true
is_settled true (some State.dead_letter) = true
is_settled false (some State.pending) = true
is_settled _ _ = false

abbrev pub is_present : String → String → List Row → Bool
is_present e c rows = elim (find_pair e c rows) [ none ↦ false | some _ ↦ true ]

pub set_failed-key :
    (p : Policy) (now later : ℕ) (error : List ℕ) (r : Row)
    → ((set_failed p now later error r).event_id ≡ r.event_id)
      × ((set_failed p now later error r).consumer_id ≡ r.consumer_id)
set_failed-key p now later error r = ground arith

module _ {W E : Type 0} (d : Dispatcher W E) (now later : ℕ) where
  -- `deliver_one` changes the record of one pair, by a function that settles it
  data Settles (r : Row) (rows : List Row) : List Row → Type 0 where
    by_function :
        (f : Row → Row)
        → ((s : Row) → ((f s).event_id ≡ s.event_id) × ((f s).consumer_id ≡ s.consumer_id))
        → ((s : Row) → is_settled (has_consumer d r.consumer_id) (some (f s).state) ≡ true)
        → Settles r rows (modify_pair r.event_id r.consumer_id f rows)

  failed-settles :
      (error : List ℕ) (s : Row)
      → is_settled true (some (set_failed d.policy now later error s).state) ≡ true
  failed-settles error s = ground arith

  deliver_one-Settles :
      (r : Row) (w : W) (rows : List Row) → Settles r rows (deliver_one d now later r w rows).2
  unfolding deliver_one has_consumer
  deliver_one-Settles r w rows = go (consumer r.consumer_id d.consumers) refl
    where
      attempted :
          (callback : Callback W E) (x : Resolved E)
          → consumer r.consumer_id d.consumers ≡ some callback
          → resolve d r ≡ x
          → Settles r rows (deliver_one d now later r w rows).2
      attempted callback (Resolved.refused error) eq res =
          rw (eq, deliver_one, res)
            (by_function (set_failed d.policy now later error)
              (set_failed-key d.policy now later error)
              (λ s. rw (eq, has_consumer) (failed-settles error s)))
      attempted callback (Resolved.target t) eq res = elim (Bool-cases (callback t w).0) [
        | inl returned ↦
            rw (eq, deliver_one, res, returned)
              (by_function (set_delivered now) (λ s. (refl, refl)) (λ s. rw (eq, has_consumer)))
        | inr threw ↦
            rw (eq, deliver_one, res, threw)
              (by_function (set_failed d.policy now later (codes "consumer raised"))
                (set_failed-key d.policy now later (codes "consumer raised"))
                (λ s. rw (eq, has_consumer) (failed-settles (codes "consumer raised") s)))
      ]

      go :
          (o : Option (Callback W E))
          → consumer r.consumer_id d.consumers ≡ o
          → Settles r rows (deliver_one d now later r w rows).2
      go none eq =
          rw (eq, deliver_one)
            (by_function (set_pending now) (λ s. (refl, refl)) (λ s. rw (eq, has_consumer)))
      go (some callback) eq = attempted callback (resolve d r) eq refl

  Settles-self :
      (r : Row) {rows rows' : List Row}
      → Settles r rows rows'
      → is_present r.event_id r.consumer_id rows ≡ true
      → is_settled (has_consumer d r.consumer_id) (get_state r.event_id r.consumer_id rows') ≡ true
  unfolding get_state
  Settles-self r {rows} (by_function f keeps settles) there =
      elim (Option-cases (find_pair r.event_id r.consumer_id rows)) [
        | inl gone ↦ absurd (false≢true (rw (gone, is_present) at there))
        | inr (s, found) ↦
            let changed : find_pair r.event_id r.consumer_id
                  (modify_pair r.event_id r.consumer_id f rows)
                ≡ some (f s) =
              find_pair-modify_pair r.event_id r.consumer_id r.event_id r.consumer_id f rows keeps
              ∙ rw (eq_refl, eq_refl, found) in
            rw (changed, get_state) (settles s)
      ]

  Settles-other :
      (r : Row) {rows rows' : List Row} (e c : String)
      → Settles r rows rows'
      → (str_eq e r.event_id && str_eq c r.consumer_id) ≡ false
      → find_pair e c rows' ≡ find_pair e c rows
  Settles-other r {rows} e c (by_function f keeps settles) other =
      find_pair-modify_pair e c r.event_id r.consumer_id f rows keeps ∙ rw other

  Settles-present :
      (r : Row) {rows rows' : List Row} (e c : String)
      → Settles r rows rows'
      → is_present e c rows' ≡ is_present e c rows
  Settles-present r {rows} e c (by_function f keeps settles) =
      ground (arith, find_pair-modify_pair e c r.event_id r.consumer_id f rows keeps)

  counts-registered :
      (r : Row) (w : W) (rows : List Row)
      → (deliver_one d now later r w rows).0 ≡ has_consumer d r.consumer_id
  unfolding deliver_one has_consumer
  counts-registered r w rows = ground arith

pub get_state-cong :
    (e c : String) (rows rows' : List Row)
    → find_pair e c rows ≡ find_pair e c rows'
    → get_state e c rows ≡ get_state e c rows'
unfolding get_state
get_state-cong e c rows rows' h = rw (h, get_state)

module _ {W E : Type 0} (d : Dispatcher W E) (clock : ℕ → ℕ) where
  -- The loop over claimed records leaves the record of every other pair as it was.
  pub loop-other :
      (n : ℕ) (claimed : List Row) (w : W) (rows : List Row) (e c : String)
      → holds e c (keys claimed) ≡ false
      → find_pair e c (deliver_loop d clock n claimed w rows).2 ≡ find_pair e c rows
  unfolding deliver_loop
  loop-other n [] w rows e c free = refl
  loop-other n (r ∷ claimed) w rows e c free =
      let step = deliver_one d (clock n) (clock (n + 1)) r w rows in
      loop-other (n + 2) claimed step.1 step.2 e c (ground arith)
      ∙ Settles-other d (clock n) (clock (n + 1)) r e c
          (deliver_one-Settles d (clock n) (clock (n + 1)) r w rows)
          (ground (
            arith,
            eq_iff e r.event_id,
            eq_iff r.event_id e,
            eq_iff c r.consumer_id,
            eq_iff r.consumer_id c,
          ))

  loop-count :
      (n : ℕ) (claimed : List Row) (w : W) (rows : List Row)
      → (deliver_loop d clock n claimed w rows).0
        ≡ length (filter (λ r. has_consumer d r.consumer_id) claimed)
  unfolding deliver_loop
  loop-count n [] w rows = refl
  loop-count n (r ∷ claimed) w rows =
      let step = deliver_one d (clock n) (clock (n + 1)) r w rows in
      ground (
        arith,
        counts-registered d (clock n) (clock (n + 1)) r w rows,
        loop-count (n + 2) claimed step.1 step.2,
      )

  -- After the loop over claimed records, which the table holds and of which no two are for the
  -- same event and consumer, each record of a registered consumer is DELIVERED, FAILED or in
  -- DEAD_LETTER and each other one is PENDING, whatever the other consumers did; and the count is
  -- that of the records of registered consumers.
  pub loop_settles :
      (n : ℕ) (claimed : List Row) (w : W) (rows : List Row)
      → IsUnique (keys claimed)
      → All (λ r. is_present r.event_id r.consumer_id rows ≡ true) claimed
      → All
          (λ r.
            is_settled
              (has_consumer d r.consumer_id)
              (get_state r.event_id r.consumer_id (deliver_loop d clock n claimed w rows).2)
            ≡ true)
          claimed
        × ((deliver_loop d clock n claimed w rows).0
            ≡ length (filter (λ r. has_consumer d r.consumer_id) claimed))
  unfolding deliver_loop
  loop_settles n [] w rows u there = (tt, refl)
  loop_settles n (r ∷ claimed) w rows u there =
      let now = clock n in
      let later = clock (n + 1) in
      let step = deliver_one d now later r w rows in
      let settled = deliver_one-Settles d now later r w rows in
      let still_there =
        All-mono (λ s. is_present s.event_id s.consumer_id rows ≡ true)
          (λ s. is_present s.event_id s.consumer_id step.2 ≡ true) claimed
          (λ s h. Settles-present d now later r s.event_id s.consumer_id settled ∙ h) there.1 in
      let (rest, count) = loop_settles (n + 2) claimed step.1 step.2 u.1 still_there in
      let same = loop-other (n + 2) claimed step.1 step.2 r.event_id r.consumer_id u.0 in
      (
        (
          ap (is_settled (has_consumer d r.consumer_id))
                (get_state-cong r.event_id r.consumer_id _ _ same)
              ∙ Settles-self d now later r settled there.0,
          rest,
        ),
        loop-count n (r ∷ claimed) w rows,
      )

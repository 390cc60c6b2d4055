-- ===== src/Delivery/Dispatcher.antt =====
-- backend/app/event_delivery/delivery_dispatcher.py: `DurableDeliveryDispatcher.deliver_pending`.
-- A consumer's callback acts on the world `W`, which the dispatcher does not read, and returns or
-- raises. The durable event repository is a function, or absent.
use tactical_core.Base.{
  ℕ, ◌+◌, String, Bool, true, false, Option, none, some, List, [], ◌∷◌, str_eq, codes,
  if◌then◌else◌,
}
use tactical_core.Delivery.Row.{Row}
use tactical_core.Delivery.Outbox.{
  Policy, enqueue_many, claim_pending, mark_delivered, mark_pending, mark_failed,
}

-- The result of `event_repository.get`.
pub data Lookup (E : Type 0) : Type 0 where
  raised missing : Lookup E
  found : E → Lookup E

-- What a callback is called with: the event, or the record where no repository is given.
pub data Target (E : Type 0) : Type 0 where
  event : E → Target E
  bare_record : Row → Target E

abbrev pub Callback : Type 0 → Type 0 → Type 0
Callback W E = Target E → W → Bool × W

pub record Dispatcher (W E : Type 0) : Type 0 where
  pub policy : Policy
  pub events : Option (String → Lookup E)
  pub consumers : List (String × Callback W E)

module _ {W E : Type 0} where
  -- `dict.get`
  unfoldable pub consumer : String → List (String × Callback W E) → Option (Callback W E)
  consumer c [] = none
  consumer c ((d, f) ∷ rest) = if str_eq d c then some f else consumer c rest

  -- `self._consumers[consumer_id] = callback`: a key that is there keeps its place
  unfoldable pub set_consumer :
      String → Callback W E → List (String × Callback W E) → List (String × Callback W E)
  set_consumer c g [] = (c, g) ∷ []
  set_consumer c g ((d, f) ∷ rest) =
      let others = set_consumer c g rest in if str_eq d c then (d, g) ∷ rest else (d, f) ∷ others

  unfoldable pub without_consumer :
      String → List (String × Callback W E) → List (String × Callback W E)
  without_consumer c [] = []
  without_consumer c ((d, f) ∷ rest) =
      let others = without_consumer c rest in if str_eq d c then others else (d, f) ∷ others

  unfoldable pub register_consumer : String → Callback W E → Dispatcher W E → Dispatcher W E
  unfolding set_consumer
  register_consumer c f d = record d { consumers = set_consumer c f d.consumers }

  unfoldable pub has_consumer : Dispatcher W E → String → Bool
  unfolding consumer
  has_consumer d c = elim (consumer c d.consumers) [ none ↦ false | some _ ↦ true ]

  unfoldable pub unregister_consumer : String → Dispatcher W E → Bool × Dispatcher W E
  unfolding without_consumer has_consumer
  unregister_consumer c d =
      (has_consumer d c, record d { consumers = without_consumer c d.consumers })

-- What `deliver_pending` calls the consumer with, or the error that it records.
pub data Resolved (E : Type 0) : Type 0 where
  refused : List ℕ → Resolved E
  target : Target E → Resolved E

resolve_lookup : {E : Type 0} → Lookup E → Resolved E
resolve_lookup raised = refused (codes "event lookup failed")
resolve_lookup missing = refused (codes "canonical event not found")
resolve_lookup (found e) = target (event e)

module _ {W E : Type 0} where
  unfoldable pub resolve : Dispatcher W E → Row → Resolved E
  unfolding resolve_lookup
  resolve d r = elim d.events [
    | none ↦ target (bare_record r)
    | some get ↦ resolve_lookup (get r.event_id)
  ]

  -- one round of the loop, at the clock readings `now` and `later`: whether the record counts as
  -- processed, the world and the table
  unfoldable pub deliver_one : Dispatcher W E → ℕ → ℕ → Row → W → List Row → Bool × W × List Row
  unfolding consumer resolve mark_delivered mark_failed mark_pending
  deliver_one d now later r w rows = elim (consumer r.consumer_id d.consumers) [
    | none ↦ (false, w, mark_pending now r.event_id r.consumer_id rows)
    | some callback ↦ elim (resolve d r) [
      | refused error ↦
          (true, w, mark_failed d.policy now later r.event_id r.consumer_id error rows)
      | target t ↦
          let (returned, w') = callback t w in
          (
            true,
            w',
            (if returned
                then mark_delivered now r.event_id r.consumer_id rows
                else mark_failed d.policy now later r.event_id r.consumer_id
                    (codes "consumer raised") rows),
          )
    ]
  ]

  -- the loop: `clock n` is the n-th reading of the clock, and a record takes two
  unfoldable pub deliver_loop :
      Dispatcher W E → (ℕ → ℕ) → ℕ → List Row → W → List Row → ℕ × W × List Row
  unfolding deliver_one
  deliver_loop d clock n [] w rows = (0, w, rows)
  deliver_loop d clock n (r ∷ claimed) w rows =
      let (counts, w1, rows1) = deliver_one d (clock n) (clock (n + 1)) r w rows in
      let (processed, w2, rows2) = deliver_loop d clock (n + 2) claimed w1 rows1 in
      ((if counts then 1 else 0) + processed, w2, rows2)

  unfoldable pub deliver_pending :
      Dispatcher W E → (ℕ → ℕ) → ℕ → Option (List String) → W → List Row → ℕ × W × List Row
  unfolding claim_pending deliver_loop
  deliver_pending d clock limit consumer_ids w rows =
      let (claimed, rows1) = claim_pending d.policy (clock 0) limit consumer_ids rows in
      deliver_loop d clock 1 claimed w rows1

-- `DurableDeliveryDispatcher.enqueue`
unfoldable pub enqueue : ℕ → String → List (String × String) → List Row → ℕ × List Row
unfolding enqueue_many
enqueue now event_id consumer_ids rows = enqueue_many now event_id consumer_ids rows

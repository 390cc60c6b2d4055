-- ===== src/Pipeline/Bus.antt =====
-- backend/app/event_bus/event_bus.py and subscription.py: the in-memory bus. A callback acts on the
-- world `W` and returns or raises; `publish` reads the subscribers before it calls any of them.
pub mod Registry
use tactical_core.Base.{
  ℕ, ◌+◌, String, str_eq, Bool, true, false, not, Option, none, some, List, [], ◌∷◌, ◌++◌, filter,
  length, ltb, if◌then◌else◌,
}

pub record Subscription (W V : Type 0) : Type 0 where
  pub event_type : String
  pub callback : V → W → Bool × W
  pub id : String

-- The dict of the lists of subscriptions, by event type.
abbrev pub Subscriptions : Type 0 → Type 0 → Type 0
Subscriptions W V = List (String × List (Subscription W V))

module _ {W V : Type 0} where
  -- `dict.get`
  unfoldable pub subscriptions_of : String → Subscriptions W V → Option (List (Subscription W V))
  subscriptions_of t [] = none
  subscriptions_of t ((k, subs) ∷ bus) = if str_eq k t then some subs else subscriptions_of t bus

  -- the list under a key is changed, or set
  unfoldable pub set_subscriptions :
      String → List (Subscription W V) → Subscriptions W V → Subscriptions W V
  set_subscriptions t subs [] = (t, subs) ∷ []
  set_subscriptions t subs ((k, old) ∷ bus) =
      let rest = set_subscriptions t subs bus in
      if str_eq k t then (k, subs) ∷ bus else (k, old) ∷ rest

  -- `self._subscriptions.get(event_type, [])`
  unfoldable pub get_subscribers : String → Subscriptions W V → List (Subscription W V)
  unfolding subscriptions_of
  get_subscribers t bus = elim (subscriptions_of t bus) [ none ↦ [] | some subs ↦ subs ]

  -- `id` is the `uuid4` result
  unfoldable pub subscribe :
      String
      → String
      → (V → W → Bool × W)
      → Subscriptions W V
      → Subscription W V × Subscriptions W V
  unfolding set_subscriptions get_subscribers
  subscribe id t callback bus =
      let sub : Subscription W V = record { event_type = t; callback = callback; id = id } in
      (sub, set_subscriptions t (get_subscribers t bus ++ sub ∷ []) bus)

  abbrev pub other_id : Subscription W V → Subscription W V → Bool
  other_id sub s = not (str_eq s.id sub.id)

  unfoldable pub unsubscribe : Subscription W V → Subscriptions W V → Bool × Subscriptions W V
  unfolding subscriptions_of set_subscriptions
  unsubscribe sub bus = elim (subscriptions_of sub.event_type bus) [
    | none ↦ (false, bus)
    | some subs ↦
        let left = filter (other_id sub) subs in
        (ltb (length left) (length subs), set_subscriptions sub.event_type left bus)
  ]

  -- the loop of `publish`: the number of callbacks that returned
  unfoldable pub call_all : List (Subscription W V) → V → W → ℕ × W
  call_all [] v w = (0, w)
  call_all (sub ∷ subs) v w =
      let (returned, w1) = sub.callback v w in
      let (successes, w2) = call_all subs v w1 in ((if returned then 1 else 0) + successes, w2)

  -- `event_type` is the attribute of the event, if it has one
  unfoldable pub publish : Subscriptions W V → (V → Option String) → V → W → ℕ × W
  unfolding call_all get_subscribers
  publish bus event_type v w = elim (event_type v) [
    | none ↦ (0, w)
    | some t ↦ call_all (get_subscribers t bus) v w
  ]

  unfoldable pub clear : Subscriptions W V → Subscriptions W V
  clear bus = []

  unfoldable pub subscriber_count : Subscriptions W V → ℕ
  subscriber_count [] = 0
  subscriber_count ((k, subs) ∷ bus) = length subs + subscriber_count bus

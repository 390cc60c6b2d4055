-- ===== src/Pipeline/Bus/Registry.antt =====
-- The bus of event_bus.py against one list of subscriptions in the order in which they were made.
use tactical_core.Base.{
  ℕ, suc, ◌+◌, String, ◌≡◌, refl, ap, sym, ◌∙◌, str_eq, Bool, not, ◌&&◌, Option, none, some, List,
  [], ◌∷◌, ◌++◌, filter, any, length, length-append, length-filter-le, Option-cases, ltb,
  if◌then◌else◌, arith, eq_iff, Bool-cases, inl, inr,
}
use tactical_core.Pipeline.Bus.{
  Subscription, Subscriptions, subscriptions_of, set_subscriptions, get_subscribers, subscribe,
  unsubscribe, clear, other_id, subscriber_count, publish, call_all,
}

-- The calls that change the bus.
pub data Call (W V : Type 0) : Type 0 where
  subscribing : String → String → (V → W → Bool × W) → Call W V
  unsubscribing : Subscription W V → Call W V
  clearing : Call W V

-- How many of the outcomes are `true`.
abbrev pub returned : List Bool → ℕ
returned os = length (filter (λ b. b) os)

module _ {W V : Type 0} where
  unfoldable pub after : Call W V → Subscriptions W V → Subscriptions W V
  unfolding subscribe unsubscribe clear
  after (subscribing id t callback) bus = (subscribe id t callback bus).1
  after (unsubscribing sub) bus = (unsubscribe sub bus).1
  after clearing bus = clear bus

  unfoldable pub run : List (Call W V) → Subscriptions W V → Subscriptions W V
  unfolding after
  run [] bus = bus
  run (call ∷ calls) bus = run calls (after call bus)

  -- The abstract registry.
  abbrev pub same_handle : Subscription W V → Subscription W V → Bool
  same_handle sub s = str_eq sub.event_type s.event_type && str_eq s.id sub.id

  abbrev pub registered : Call W V → List (Subscription W V) → List (Subscription W V)
  registered (subscribing id t callback) subs =
      subs ++ record { event_type = t; callback = callback; id = id } ∷ []
  registered (unsubscribing sub) subs = filter (λ s. not (same_handle sub s)) subs
  registered clearing subs = []

  pub registry : List (Call W V) → List (Subscription W V) → List (Subscription W V)
  registry [] subs = subs
  registry (call ∷ calls) subs = registry calls (registered call subs)

  abbrev pub of_type : String → List (Subscription W V) → List (Subscription W V)
  of_type t = filter (λ s. str_eq t s.event_type)

  -- The bus holds what the registry holds.
  pub record Holds (subs : List (Subscription W V)) (bus : Subscriptions W V) : Type 0 where
    pub lists : (t : String) → get_subscribers t bus ≡ of_type t subs
    pub counted : subscriber_count bus ≡ length subs

  get-set :
      (t u : String) (subs : List (Subscription W V)) (bus : Subscriptions W V)
      → get_subscribers u (set_subscriptions t subs bus)
        ≡ (if str_eq t u then subs else get_subscribers u bus)
  unfolding get_subscribers subscriptions_of set_subscriptions
  get-set t u subs [] = ground arith
  get-set t u subs ((k, old) ∷ bus) =
      ground (arith, get-set t u subs bus, eq_iff t u, eq_iff k t, eq_iff k u)

  count-set :
      (t : String) (subs : List (Subscription W V)) (bus : Subscriptions W V)
      → subscriber_count (set_subscriptions t subs bus) + length (get_subscribers t bus)
        ≡ subscriber_count bus + length subs
  unfolding get_subscribers subscriptions_of set_subscriptions subscriber_count
  count-set t subs [] = ground arith
  count-set t subs ((k, old) ∷ bus) = ground (arith, count-set t subs bus, eq_iff k t)

  of_type-unsubscribe :
      (sub : Subscription W V) (t : String) (subs : List (Subscription W V))
      → of_type t (filter (λ s. not (same_handle sub s)) subs) ≡ (
          if str_eq sub.event_type t
          then filter (other_id sub) (of_type t subs)
          else of_type t subs)
  of_type-unsubscribe sub t [] = ground arith
  of_type-unsubscribe sub t (s ∷ subs) = ground (
    arith,
    of_type-unsubscribe sub t subs,
    eq_iff sub.event_type t,
    eq_iff sub.event_type s.event_type,
    eq_iff t s.event_type,
  )

  length-unsubscribe :
      (sub : Subscription W V) (subs : List (Subscription W V))
      → length (filter (λ s. not (same_handle sub s)) subs) + length (of_type sub.event_type subs)
        ≡ length subs + length (filter (other_id sub) (of_type sub.event_type subs))
  length-unsubscribe sub [] = refl
  length-unsubscribe sub (s ∷ subs) = ground (arith, length-unsubscribe sub subs)

  any-unsubscribe :
      (sub : Subscription W V) (subs : List (Subscription W V))
      → ltb
          (length (filter (other_id sub) (of_type sub.event_type subs)))
          (length (of_type sub.event_type subs))
        ≡ any (same_handle sub) subs
  any-unsubscribe sub [] = ground arith
  any-unsubscribe sub (s ∷ subs) = ground (
    arith,
    any-unsubscribe sub subs,
    length-filter-le (other_id sub) (of_type sub.event_type subs),
  )

  get_subscribers-none :
      (t : String) (bus : Subscriptions W V)
      → subscriptions_of t bus ≡ none
      → get_subscribers t bus ≡ []
  unfolding get_subscribers
  get_subscribers-none t bus eq = rw (eq, get_subscribers)

  get_subscribers-some :
      (t : String) (bus : Subscriptions W V) (subs : List (Subscription W V))
      → subscriptions_of t bus ≡ some subs
      → get_subscribers t bus ≡ subs
  unfolding get_subscribers
  get_subscribers-some t bus subs eq = rw (eq, get_subscribers)

  unsubscribe-Holds :
      (sub : Subscription W V) (subs : List (Subscription W V)) (bus : Subscriptions W V)
      → Holds subs bus
      → Holds (registered (unsubscribing sub) subs) (unsubscribe sub bus).1
        × ((unsubscribe sub bus).0 ≡ any (same_handle sub) subs)
  unfolding unsubscribe
  unsubscribe-Holds sub subs bus h = elim (Option-cases (subscriptions_of sub.event_type bus)) [
    | inl eq ↦
        let empty = sym (h.lists sub.event_type) ∙ get_subscribers-none sub.event_type bus eq in
        rw (eq, unsubscribe)
          (
            record {
              lists = λ t. ground (
                arith,
                h.lists t,
                of_type-unsubscribe sub t subs,
                eq_iff sub.event_type t,
                empty,
              );
              counted = ground (arith, h.counted, length-unsubscribe sub subs, empty);
            },
            ground (arith, any-unsubscribe sub subs, empty),
          )
    | inr (old, eq) ↦
        let is_old =
          sym (get_subscribers-some sub.event_type bus old eq) ∙ h.lists sub.event_type in
        rw (eq, unsubscribe)
          (
            record {
              lists = λ t. ground (
                arith,
                h.lists t,
                of_type-unsubscribe sub t subs,
                get-set sub.event_type t (filter (other_id sub) old) bus,
                eq_iff sub.event_type t,
                is_old,
              );
              counted = ground (
                arith,
                h.counted,
                length-unsubscribe sub subs,
                count-set sub.event_type (filter (other_id sub) old) bus,
                is_old,
                h.lists sub.event_type,
              );
            },
            ground (arith, any-unsubscribe sub subs, is_old),
          )
  ]

  of_type-append :
      (u : String) (subs : List (Subscription W V)) (sub : Subscription W V)
      → of_type u (subs ++ sub ∷ [])
        ≡ (if str_eq sub.event_type u then of_type u subs ++ sub ∷ [] else of_type u subs)
  of_type-append u [] sub = ground (arith, eq_iff u sub.event_type, eq_iff sub.event_type u)
  of_type-append u (s ∷ subs) sub = ground (arith, of_type-append u subs sub)

  subscribe-Holds :
      (id t : String) (callback : V → W → Bool × W) (subs : List (Subscription W V))
      (bus : Subscriptions W V)
      → Holds subs bus
      → Holds (registered (subscribing id t callback) subs) (subscribe id t callback bus).1
  unfolding subscribe
  subscribe-Holds id t callback subs bus h =
      let sub : Subscription W V = record { event_type = t; callback = callback; id = id } in
      let list = get_subscribers t bus ++ sub ∷ [] in
      record {
        lists = λ u. get-set t u list bus ∙ (elim (Bool-cases (str_eq t u)) [
          | inl same ↦ rw same (
              ap (λ l. l ++ sub ∷ [])
                (ap (λ k. get_subscribers k bus) ((eq_iff t u).0 same) ∙ h.lists u)
              ∙ sym (of_type-append u subs sub ∙ rw same))
          | inr other ↦ rw other (h.lists u ∙ sym (of_type-append u subs sub ∙ rw other))
        ]);
        counted = ground (
          arith,
          count-set t list bus,
          h.counted,
          length-append (get_subscribers t bus) (sub ∷ []),
          length-append subs (sub ∷ []),
        );
      }

  after-Holds :
      (call : Call W V) (subs : List (Subscription W V)) (bus : Subscriptions W V)
      → Holds subs bus
      → Holds (registered call subs) (after call bus)
  unfolding after clear get_subscribers subscriptions_of subscriber_count
  after-Holds (subscribing id t callback) subs bus h = subscribe-Holds id t callback subs bus h
  after-Holds (unsubscribing sub) subs bus h = (unsubscribe-Holds sub subs bus h).0
  after-Holds clearing subs bus h = record { lists = λ t. refl; counted = refl }

  run-Holds :
      (calls : List (Call W V)) (subs : List (Subscription W V)) (bus : Subscriptions W V)
      → Holds subs bus
      → Holds (registry calls subs) (run calls bus)
  unfolding run registry
  run-Holds [] subs bus h = h
  run-Holds (call ∷ calls) subs bus h =
      run-Holds calls (registered call subs) (after call bus) (after-Holds call subs bus h)

  -- What each callback of a list does in its turn, in the world that the ones before it left,
  -- whether it returned (`true`) or raised.
  pub outcomes : List (Subscription W V) → V → W → List Bool
  outcomes [] v w = []
  outcomes (sub ∷ subs) v w = (sub.callback v w).0 ∷ outcomes subs v (sub.callback v w).1

  -- The world after all of them.
  pub world_after : List (Subscription W V) → V → W → W
  world_after [] v w = w
  world_after (sub ∷ subs) v w = world_after subs v (sub.callback v w).1

  call_all-outcomes :
      (subs : List (Subscription W V)) (v : V) (w : W)
      → call_all subs v w ≡ (returned (outcomes subs v w), world_after subs v w)
  unfolding call_all outcomes world_after
  call_all-outcomes [] v w = refl
  call_all-outcomes (sub ∷ subs) v w = ground (arith, call_all-outcomes subs v (sub.callback v w).1)

  length-outcomes :
      (subs : List (Subscription W V)) (v : V) (w : W) → length (outcomes subs v w) ≡ length subs
  unfolding outcomes
  length-outcomes [] v w = refl
  length-outcomes (sub ∷ subs) v w = ap suc (length-outcomes subs v (sub.callback v w).1)

  -- After any run of `subscribe`, `unsubscribe` and `clear` on a new bus: publishing an event calls
  -- every registered subscription of its type once, in the order in which they were made, each in
  -- the world that the ones before it left, whether they returned or raised, and counts those that
  -- returned; `subscriber_count` is the number of registered subscriptions; and a further
  -- `unsubscribe` returns whether the subscription is registered.
  pub run-registry :
      (calls : List (Call W V)) (event_type : V → Option String) (v : V) (w : W) (t : String)
      (sub : Subscription W V)
      → event_type v ≡ some t
      → (publish (run calls []) event_type v w ≡ (
        returned (outcomes (of_type t (registry calls [])) v w),
        world_after (of_type t (registry calls [])) v w,
      ))
        × (length (outcomes (of_type t (registry calls [])) v w)
            ≡ length (of_type t (registry calls [])))
        × (subscriber_count (run calls []) ≡ length (registry calls []))
        × ((unsubscribe sub (run calls [])).0 ≡ any (same_handle sub) (registry calls []))
  unfolding publish get_subscribers subscriptions_of subscriber_count
  run-registry calls event_type v w t sub typed =
      let h = run-Holds calls [] [] (record { lists = λ u. refl; counted = refl }) in
      (
        rw (typed, publish)
            (ap (λ subs. call_all subs v w) (h.lists t)
              ∙ call_all-outcomes (of_type t (registry calls [])) v w),
        length-outcomes (of_type t (registry calls [])) v w,
        h.counted,
        (unsubscribe-Holds sub (registry calls []) (run calls []) h).1,
      )

-- ===== src/Pipeline/Process/HotPath.antt =====
-- The hot path of `EventPipeline._process_durable`: the committed event goes to each registered
-- consumer of the list, and its delivery record is marked.
use tactical_core.Base.{
  ℕ, ◌+◌, ◌<◌, String, ◌≡◌, refl, ap, ◌∙◌, Bool, true, false, none, some, List, [], ◌∷◌, All,
  All-mono, ◌⊎◌, inl, inr, arith, str_eq, eq_iff, eq_refl, codes, any, Bool-cases, Option-cases,
}
use mathlib.Core.Bool.{false≢true}
use tactical_core.Delivery.Row.{Row, State as RowState, find_pair, modify_pair}
use tactical_core.Delivery.Outbox.{get_state, set_failed, set_delivered, is_eligible, backoff_delay}
use tactical_core.Delivery.Settle.{
  find_pair-modify_pair, set_failed-key, is_settled, is_present, get_state-cong,
}
use tactical_core.Delivery.Dispatcher.{Dispatcher, Callback, Target, consumer, has_consumer}
use tactical_core.Pipeline.Effects.{Value, canonical, State}
use tactical_core.Pipeline.Process.{hot_one, hot_path}

module _ {W E X : Type 0} (d : Dispatcher W (Value E X)) (id : String) (columns : E) where
  abbrev event : Value E X
  event = canonical id columns

  -- One round for a consumer: it is not registered and the state stays; or it is called once with
  -- the event, and its record of the event changes by a function that settles it.
  data Round (c : String) (s s' : State W E) : Type 0 where
    skipped : has_consumer d c ≡ false → s' ≡ s → Round c s s'
    called :
        (callback : Callback W (Value E X)) (f : Row → Row)
        → consumer c d.consumers ≡ some callback
        → ((r : Row) → ((f r).event_id ≡ r.event_id) × ((f r).consumer_id ≡ r.consumer_id))
        → ((r : Row) → is_settled true (some (f r).state) ≡ true)
        → s'.world ≡ (callback (Target.event event) s.world).1
        → s'.store.deliveries ≡ modify_pair id c f s.store.deliveries
        → Round c s s'

  hot_one-Round :
      (now later : ℕ) (c : String) (s : State W E) → Round c s (hot_one d now later event c s)
  unfolding hot_one has_consumer
  hot_one-Round now later c s = elim (Option-cases (consumer c d.consumers)) [
    | inl eq ↦ skipped (rw (eq, has_consumer)) (rw (eq, hot_one))
    | inr (f, eq) ↦ elim (Bool-cases (f (Target.event event) s.world).0) [
      | inl returned ↦
          called f (set_delivered now) eq (λ r. (refl, refl)) (λ r. refl) (rw (eq, hot_one))
            (rw (eq, hot_one, returned))
      | inr threw ↦
          called f (set_failed d.policy now later (codes "consumer raised")) eq
            (set_failed-key d.policy now later (codes "consumer raised")) (λ r. ground arith)
            (rw (eq, hot_one)) (rw (eq, hot_one, threw))
    ]
  ]

  -- What the hot path makes of the record of one consumer.
  abbrev pub Sent : String → List Row → List Row → Type 0
  Sent c rows rows' =
      ((has_consumer d c ≡ true) × (is_settled true (get_state id c rows') ≡ true))
      ⊎ ((has_consumer d c ≡ false) × (find_pair id c rows' ≡ find_pair id c rows))

  Round-self :
      (c : String) {s s' : State W E}
      → Round c s s'
      → is_present id c s.store.deliveries ≡ true
      → Sent c s.store.deliveries s'.store.deliveries
  unfolding get_state has_consumer
  Round-self c (skipped none_there same) there =
      inr (none_there, ap (λ (t : State W E). find_pair id c t.store.deliveries) same)
  Round-self c {s} {s'} (called callback f eq keeps settles world rows) there =
      elim (Option-cases (find_pair id c s.store.deliveries)) [
        | inl gone ↦ absurd (false≢true (rw (gone, is_present) at there))
        | inr (r, found) ↦
            let changed : find_pair id c (modify_pair id c f s.store.deliveries) ≡ some (f r) =
              find_pair-modify_pair id c id c f s.store.deliveries keeps
              ∙ rw (eq_refl id, eq_refl c, found) in
            inl (
              rw (eq, has_consumer),
              ap (λ t. is_settled true (get_state id c t)) rows
                  ∙ rw (changed, get_state) (settles r),
            )
      ]

  Round-other :
      (c c' : String) {s s' : State W E}
      → Round c s s'
      → str_eq c' c ≡ false
      → find_pair id c' s'.store.deliveries ≡ find_pair id c' s.store.deliveries
  Round-other c c' (skipped none_there same) other =
      ap (λ (t : State W E). find_pair id c' t.store.deliveries) same
  Round-other c c' {s} (called callback f eq keeps settles world rows) other =
      ap (find_pair id c') rows
      ∙ find_pair-modify_pair id c' id c f s.store.deliveries keeps
      ∙ rw (other, eq_refl)

  Round-present :
      (c c' : String) {s s' : State W E}
      → Round c s s'
      → is_present id c' s.store.deliveries ≡ true
      → is_present id c' s'.store.deliveries ≡ true
  Round-present c c' {s} (skipped none_there same) there =
      ap (λ (t : State W E). is_present id c' t.store.deliveries) same ∙ there
  Round-present c c' {s} (called callback f eq keeps settles world rows) there =
      ap (is_present id c') rows
      ∙ ground (arith, there, find_pair-modify_pair id c' id c f s.store.deliveries keeps)

  -- One call for each registered consumer, in the order of the list.
  unfoldable pub notify : List String → W → W
  notify [] w = w
  notify (c ∷ cs) w = notify cs (elim (consumer c d.consumers) [
    | none ↦ w
    | some callback ↦ (callback (Target.event event) w).1
  ])

  abbrev pub named : String → List String → Bool
  named c = any (str_eq c)

  abbrev pub AllDistinct : List String → Type 0
  AllDistinct [] = Unit
  AllDistinct (c ∷ cs) = (named c cs ≡ false) × AllDistinct cs

  Sent-later :
      (c : String) (before after later : List Row)
      → find_pair id c later ≡ find_pair id c after
      → Sent c before after
      → Sent c before later
  Sent-later c before after later same (inl (registered, settled)) =
      inl (registered, ap (is_settled true) (get_state-cong id c later after same) ∙ settled)
  Sent-later c before after later same (inr (unknown, kept)) = inr (unknown, same ∙ kept)

  Sent-earlier :
      (c : String) (earlier before after : List Row)
      → find_pair id c before ≡ find_pair id c earlier
      → Sent c before after
      → Sent c earlier after
  Sent-earlier c earlier before after same (inl (registered, settled)) = inl (registered, settled)
  Sent-earlier c earlier before after same (inr (unknown, kept)) = inr (unknown, kept ∙ same)

  Round-rest :
      (c : String) (cs : List String) {s s' : State W E} (after : List Row)
      → Round c s s'
      → named c cs ≡ false
      → All (λ c'. Sent c' s'.store.deliveries after) cs
      → All (λ c'. Sent c' s.store.deliveries after) cs
  Round-rest c [] after round other sent = tt
  Round-rest c (c' ∷ cs) {s} {s'} after round other sent = (
    Sent-earlier c' s.store.deliveries s'.store.deliveries after
        (Round-other c c' round (ground (arith, other, eq_iff c c', eq_iff c' c))) sent.0,
    Round-rest c cs after round (ground (arith, other)) sent.1,
  )

  Round-world : (c : String) {s s' : State W E} → Round c s s' → s'.world ≡ notify (c ∷ []) s.world
  unfolding notify has_consumer
  Round-world c (skipped none_there same) = ground arith
  Round-world c (called callback f eq keeps settles world rows) = ground arith

  module _ (clock : ℕ → ℕ) where
    hot_path-other :
        (n : ℕ) (c' : String) (cs : List String) (s : State W E)
        → named c' cs ≡ false
        → find_pair id c' (hot_path d clock n event cs s).store.deliveries
          ≡ find_pair id c' s.store.deliveries
    unfolding hot_path
    hot_path-other n c' [] s other = refl
    hot_path-other n c' (c ∷ cs) s other =
        let s1 = hot_one d (clock n) (clock (n + 1)) event c s in
        hot_path-other (n + 2) c' cs s1 (ground arith)
        ∙ Round-other c c' (hot_one-Round (clock n) (clock (n + 1)) c s) (ground arith)

    hot_path-Sent :
        (n : ℕ) (cs : List String) (s : State W E)
        → AllDistinct cs
        → All (λ c. is_present id c s.store.deliveries ≡ true) cs
        → All (λ c. Sent c s.store.deliveries (hot_path d clock n event cs s).store.deliveries) cs
    unfolding hot_path
    hot_path-Sent n [] s distinct there = tt
    hot_path-Sent n (c ∷ cs) s distinct there =
        let s1 = hot_one d (clock n) (clock (n + 1)) event c s in
        let round = hot_one-Round (clock n) (clock (n + 1)) c s in
        let after = (hot_path d clock (n + 2) event cs s1).store.deliveries in
        let still_there =
          All-mono (λ c'. is_present id c' s.store.deliveries ≡ true)
            (λ c'. is_present id c' s1.store.deliveries ≡ true) cs
            (λ c' h. Round-present c c' round h) there.1 in
        (
          Sent-later c s.store.deliveries s1.store.deliveries after
              (hot_path-other (n + 2) c cs s1 distinct.0) (Round-self c round there.0),
          Round-rest c cs after round distinct.0
              (hot_path-Sent (n + 2) cs s1 distinct.1 still_there),
        )

    hot_path-notify :
        (n : ℕ) (cs : List String) (s : State W E)
        → (hot_path d clock n event cs s).world ≡ notify cs s.world
    unfolding hot_path notify
    hot_path-notify n [] s = refl
    hot_path-notify n (c ∷ cs) s =
        hot_path-notify (n + 2) cs (hot_one d (clock n) (clock (n + 1)) event c s)
        ∙ ap (notify cs) (Round-world c (hot_one-Round (clock n) (clock (n + 1)) c s))

    -- For a list of consumers that are all different, each with a delivery record of the event, the
    -- hot path calls each registered one exactly once, in the order of the list, with the event
    -- itself; it leaves their records DELIVERED, FAILED or in DEAD_LETTER, whatever the other
    -- consumers did, and the records of the consumers that are not registered as they were.
    pub hot_path_settles :
        (n : ℕ) (cs : List String) (s : State W E)
        → AllDistinct cs
        → All (λ c. is_present id c s.store.deliveries ≡ true) cs
        → ((hot_path d clock n event cs s).world ≡ notify cs s.world)
          × All (λ c. Sent c s.store.deliveries (hot_path d clock n event cs s).store.deliveries) cs
    hot_path_settles n cs s distinct there =
        (hot_path-notify n cs s, hot_path-Sent n cs s distinct there)

  -- The hot path does not look at the state of a record: if a registered consumer raises for an
  -- event whose record is DELIVERED with attempts left, the record becomes FAILED, keeps its
  -- attempts, and the outbox offers it again when its backoff is over.
  pub hot_one-reopens :
      (now later : ℕ) (c : String) (s : State W E) (callback : Callback W (Value E X)) (r : Row)
      → consumer c d.consumers ≡ some callback
      → (callback (Target.event event) s.world).0 ≡ false
      → find_pair id c s.store.deliveries ≡ some r
      → r.state ≡ RowState.delivered
      → r.attempts < d.policy.max_attempts
      → (r' : Row) × (find_pair id c (hot_one d now later event c s).store.deliveries ≡ some r')
        × (r'.state ≡ RowState.failed)
        × (r'.attempts ≡ r.attempts)
        × (is_eligible d.policy (later + backoff_delay d.policy r.attempts) r' ≡ true)
  unfolding hot_one is_eligible
  hot_one-reopens now later c s callback r eq threw found delivered left =
      let f = set_failed d.policy now later (codes "consumer raised") in
      let r' = f r in
      (
        f r,
        rw (eq, hot_one, threw)
            (find_pair-modify_pair id c id c f s.store.deliveries
                (set_failed-key d.policy now later (codes "consumer raised"))
              ∙ rw (eq_refl id, eq_refl c, found)),
        ground arith,
        ground arith,
        ground arith,
      )

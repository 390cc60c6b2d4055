-- ===== src/Audio/FlowRouter/Eviction.antt =====
-- backend/app/audio/flow_router.py: which flows are shut down, and that no recorder is lost.
use tactical_core.Audio.Stream.{no_stats}
use tactical_core.Base.{
  All, subst, leb→le, ℕ, suc, ◌+◌, ◌≤◌, ◌≡◌, refl, sym, ap, ◌∙◌, String, Option, none, List, [],
  ◌∷◌, ◌++◌, length, leb, arith, Bool-cases, Option-cases, inl, inr, ◌⊎◌,
}
use tactical_core.Base.Result.{Result, ok, err}
use tactical_core.Audio.FlowRouter.{
  FlowKey, FlowPipeline, FlowRouter, find_flow, evict, create_flow, new_router, get_or_create,
  shutdown_all,
}
use tactical_core.Audio.FlowRouter.Order.{IsByUse, IsOlder, IsByUse-IsOlder, evict-split}
use tactical_core.Audio.FlowRouter.Recency.{
  FlowCall, run_flows, last_uses, IsClocked, run_flows-IsByUse,
}

module _ {R : Type 0} where
  pub evict-kept :
      (limit : ℕ) (ps : List (FlowPipeline R)) → 1 ≤ limit → suc (length (evict limit ps).1) ≤ limit
  unfolding evict
  evict-kept limit [] h = omega (arith, h)
  evict-kept limit (p ∷ ps) h = elim (Bool-cases (leb limit (suc (length ps)))) [
    | inl full ↦ rw full (evict-kept limit ps h)
    | inr room ↦ rw room (ground arith)
  ]

  evict-needed :
      (limit : ℕ) (ps : List (FlowPipeline R))
      → 1 ≤ limit
      → ((evict limit ps).0 ≡ []) ⊎ (length (evict limit ps).1 + 1 ≡ limit)
  unfolding evict
  evict-needed limit [] h = inl refl
  evict-needed limit (p ∷ ps) h = elim (Bool-cases (leb limit (suc (length ps)))) [
    | inl full ↦ elim (evict-needed limit ps h) [
      | inl all ↦
          let same = ap length (evict-split limit ps ∙ ap (λ t. t ++ (evict limit ps).1) all) in
          rw full
            (inr (omega (arith, evict-kept limit ps h, leb→le limit (suc (length ps)) full, same)))
      | inr exact ↦ rw full (inr exact)
    ]
    | inr room ↦ rw room (inl refl)
  ]

  -- What becomes of a router when a flow that is not there sends a packet, where `used` has the
  -- times of the last packets.
  abbrev pub Evicts :
      (FlowKey → Option ℕ)
      → FlowKey
      → FlowRouter R
      → Result String (Option R)
      → Result String (FlowPipeline R) × FlowRouter R
      → Type 0
  Evicts used key router c (result, router') =
      (evicted kept : List (FlowPipeline R)) × (router.pipelines ≡ evicted ++ kept)
      × All (λ p. All (IsOlder used p) kept) evicted
      × (router'.finalized ≡ router.finalized ++ evicted)
      × (length kept + 1 ≤ router.max_flows)
      × ((evicted ≡ []) ⊎ (length kept + 1 ≡ router.max_flows))
      × (((message : String) × (c ≡ err message)
            × (result ≡ err message)
            × (router'.pipelines ≡ kept))
          ⊎ ((p : FlowPipeline R) × (c ≡ ok p.recorder)
              × (p.flow_key ≡ key)
              × (result ≡ ok p)
              × (router'.pipelines ≡ kept ++ p ∷ [])))

  evict-IsOlder :
      (used : FlowKey → Option ℕ) (now limit : ℕ) (ps : List (FlowPipeline R))
      → IsByUse used now ps
      → All (λ p. All (IsOlder used p) (evict limit ps).1) (evict limit ps).0
  evict-IsOlder used now limit ps h =
      IsByUse-IsOlder used now (evict limit ps).0 (evict limit ps).1
        (subst (IsByUse used now) (evict-split limit ps) h)

  create_flow-max :
      (now : ℕ) (key : FlowKey) (router : FlowRouter R) (c : Result String (Option R))
      → ((create_flow now key router c).1.max_flows ≡ router.max_flows)
        × ((create_flow now key router c).1.recorder_factory ≡ router.recorder_factory)
  unfolding create_flow
  create_flow-max now key router (err message) = (refl, refl)
  create_flow-max now key router (ok recorder) = (refl, refl)

  get_or_create-max :
      (now : ℕ) (key : FlowKey) (router : FlowRouter R)
      → ((get_or_create now key router).1.max_flows ≡ router.max_flows)
        × ((get_or_create now key router).1.recorder_factory ≡ router.recorder_factory)
  unfolding get_or_create
  get_or_create-max now key router = elim (Option-cases (find_flow key router.pipelines)) [
    | inl absent ↦
        rw (absent, get_or_create) (create_flow-max now key router (router.recorder_factory key))
    | inr (p, found) ↦ rw (found, get_or_create) (refl, refl)
  ]

  create_flow-Evicts :
      (used : FlowKey → Option ℕ) (now t : ℕ) (key : FlowKey) (router : FlowRouter R)
      (c : Result String (Option R))
      → 1 ≤ router.max_flows
      → IsByUse used now router.pipelines
      → Evicts used key router c (create_flow t key router c)
  unfolding create_flow
  create_flow-Evicts used now t key router (err message) h order =
      let limit = router.max_flows in
      let ps = router.pipelines in
      (
        (evict limit ps).0,
        (evict limit ps).1,
        evict-split limit ps,
        evict-IsOlder used now limit ps order,
        refl,
        omega (arith, evict-kept limit ps h),
        evict-needed limit ps h,
        inl (message, refl, refl, refl),
      )
  create_flow-Evicts used now t key router (ok recorder) h order =
      let created : FlowPipeline R = record {
        flow_key = key;
        tracker = no_stats;
        recorder = recorder;
        created_at = t;
        last_access = t;
      } in
      let limit = router.max_flows in
      let ps = router.pipelines in
      (
        (evict limit ps).0,
        (evict limit ps).1,
        evict-split limit ps,
        evict-IsOlder used now limit ps order,
        refl,
        omega (arith, evict-kept limit ps h),
        evict-needed limit ps h,
        inr (created, refl, refl, refl, refl),
      )

  run_flows-max :
      (calls : List FlowCall) (router : FlowRouter R)
      → ((run_flows calls router).max_flows ≡ router.max_flows)
        × ((run_flows calls router).recorder_factory ≡ router.recorder_factory)
  unfolding run_flows shutdown_all
  run_flows-max [] router = (refl, refl)
  run_flows-max (FlowCall.packet_from now key ∷ calls) router =
      let (limit, factory) = get_or_create-max now key router in
      let (limit', factory') = run_flows-max calls (get_or_create now key router).1 in
      (limit' ∙ limit, factory' ∙ factory)
  run_flows-max (FlowCall.shutting_down ∷ calls) router = run_flows-max calls (shutdown_all router)

  -- After any packets and shutdowns from a new router on, with readings of the clock that do not
  -- fall, a packet of a flow that is not there shuts down the recorders of the least recently used
  -- flows, those whose last packets came no later than the last packets of all flows that stay, once
  -- each and no more of them than needed; the other flows stay, in their order, with a place free
  -- among them. If the recorder factory returns, the new flow follows them with its recorder; if it
  -- raises, its error is passed on and nothing is added.
  pub get_or_create-Evicts :
      (factory : FlowKey → Result String (Option R)) (max_flows : ℕ) (calls : List FlowCall)
      (now : ℕ) (key : FlowKey)
      → IsClocked 0 calls now
      → find_flow key (run_flows calls (new_router factory max_flows)).pipelines ≡ none
      → Evicts
          (last_uses calls (λ k. none))
          key
          (run_flows calls (new_router factory max_flows))
          (factory key)
          (get_or_create now key (run_flows calls (new_router factory max_flows)))
  unfolding get_or_create new_router
  get_or_create-Evicts factory max_flows calls now key clocked absent =
      let router = run_flows calls (new_router factory max_flows) in
      let (limit, same) = run_flows-max calls (new_router factory max_flows) in
      let order =
        run_flows-IsByUse calls 0 now (λ k. none) (new_router factory max_flows) clocked tt in
      let created : get_or_create now key router ≡ create_flow now key router (factory key) =
        rw (absent, get_or_create) (ap (λ f. create_flow now key router (f key)) same) in
      subst (Evicts (last_uses calls (λ k. none)) key router (factory key)) (sym created)
        (create_flow-Evicts _ now now key router (factory key) (omega (arith, limit)) order)

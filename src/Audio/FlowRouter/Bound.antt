-- ===== src/Audio/FlowRouter/Bound.antt =====
-- backend/app/audio/flow_router.py: the number of flows stays within its maximum.
use tactical_core.Base.{
  ℕ, suc, ◌≤◌, ◌≡◌, refl, sym, ap, ◌∙◌, String, Option, some, List, [], ◌∷◌, length, length-append,
  arith, Bool-cases, Option-cases, inl, inr, if◌then◌else◌,
}
use tactical_core.Base.Result.{Result, ok, err}
use tactical_core.Audio.FlowRouter.{
  FlowKey, FlowPipeline, FlowRouter, key_eq, find_flow, without_flow, evict, create_flow,
  get_or_create, flow_count, shutdown_all,
}
use tactical_core.Audio.FlowRouter.Recency.{FlowCall, run_flows}
use tactical_core.Audio.FlowRouter.Eviction.{evict-kept}

module _ {R : Type 0} where
  without_flow-length :
      (key : FlowKey) (ps : List (FlowPipeline R)) {q : FlowPipeline R}
      → find_flow key ps ≡ some q
      → suc (length (without_flow key ps)) ≡ length ps
  unfolding find_flow without_flow
  without_flow-length key [] h = ground arith
  without_flow-length key (p ∷ ps) h = elim (Bool-cases (key_eq p.flow_key key)) [
    | inl here ↦ rw here refl
    | inr later ↦
        let found = sym (ap (λ b. if b then some p else find_flow key ps) later) ∙ h in
        rw later (ap suc (without_flow-length key ps found))
  ]

  create_flow-count :
      (now : ℕ) (key : FlowKey) (router : FlowRouter R) (c : Result String (Option R))
      → 1 ≤ router.max_flows
      → (flow_count (create_flow now key router c).1 ≤ router.max_flows)
        × ((create_flow now key router c).1.max_flows ≡ router.max_flows)
  unfolding create_flow flow_count
  create_flow-count now key router (err message) h =
      (omega (arith, evict-kept router.max_flows router.pipelines h), refl)
  create_flow-count now key router (ok recorder) h =
      let kept = (evict router.max_flows router.pipelines).1 in
      (
        omega (arith, evict-kept router.max_flows router.pipelines h, length-append kept (_ ∷ [])),
        refl,
      )

  get_or_create-count :
      (now : ℕ) (key : FlowKey) (router : FlowRouter R)
      → 1 ≤ router.max_flows
      → flow_count router ≤ router.max_flows
      → (flow_count (get_or_create now key router).1 ≤ router.max_flows)
        × ((get_or_create now key router).1.max_flows ≡ router.max_flows)
  unfolding get_or_create flow_count
  get_or_create-count now key router h room = elim (Option-cases (find_flow key router.pipelines)) [
    | inl absent ↦
        rw (absent, get_or_create)
          (create_flow-count now key router (router.recorder_factory key) h)
    | inr (p, found) ↦
        rw (found, get_or_create)
          (
            omega (
              arith,
              room,
              length-append (without_flow key router.pipelines)
                  (record p { last_access = now } ∷ []),
              without_flow-length key router.pipelines found,
            ),
            refl,
          )
  ]

  shutdown-room : (router : FlowRouter R) → flow_count (shutdown_all router) ≤ router.max_flows
  unfolding flow_count shutdown_all
  shutdown-room router = omega arith

  -- Whatever flows send packets, in whatever order, with shutdowns between, and whatever the recorder
  -- factory does: a router that is within its positive maximum of flows stays within it.
  pub run_flows_bounded :
      (calls : List FlowCall) (router : FlowRouter R)
      → 1 ≤ router.max_flows
      → flow_count router ≤ router.max_flows
      → flow_count (run_flows calls router) ≤ router.max_flows
  unfolding run_flows shutdown_all
  run_flows_bounded [] router h room = room
  run_flows_bounded (FlowCall.packet_from now key ∷ calls) router h room =
      let (within, same) = get_or_create-count now key router h room in
      let next = (get_or_create now key router).1 in
      omega (
        arith,
        same,
        run_flows_bounded calls next (omega (arith, h, same)) (omega (arith, within, same)),
      )
  run_flows_bounded (FlowCall.shutting_down ∷ calls) router h room =
      run_flows_bounded calls (shutdown_all router) h (shutdown-room router)

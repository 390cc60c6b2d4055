-- ===== src/Audio/FlowRouter/Recency.antt =====
-- backend/app/audio/flow_router.py: the flows stand in the order of their last packets.
use tactical_core.Base.{
  ℕ, ◌≤◌, ◌≡◌, refl, String, false, Option, List, [], ◌∷◌, All-mono, Option-cases, inl, inr,
}
use tactical_core.Base.Result.{Result, ok, err}
use tactical_core.Audio.FlowRouter.{
  FlowKey, FlowPipeline, FlowRouter, key_eq, find_flow, without_flow, evict, create_flow,
  get_or_create, shutdown_all,
}
use tactical_core.Audio.FlowRouter.Order.{
  with_use, IsByUse, IsWithout, key_eq_self, key_eq-third, IsByUse-use, IsByUse-later,
  without_flow-IsByUse, append-IsByUse, absent-IsWithout, find_flow-key, kept-IsByUse,
}

-- A call of the router.
pub data FlowCall : Type 0 where
  packet_from : ℕ → FlowKey → FlowCall
  shutting_down : FlowCall

-- The time of the last packet of each flow among calls, after `used` for the earlier ones.
pub last_uses : List FlowCall → (FlowKey → Option ℕ) → FlowKey → Option ℕ
last_uses [] used = used
last_uses (FlowCall.packet_from now key ∷ calls) used = last_uses calls (with_use key now used)
last_uses (FlowCall.shutting_down ∷ calls) used = last_uses calls used

-- The readings of the monotonic clock, from `start` to `now`.
abbrev pub IsClocked : ℕ → List FlowCall → ℕ → Type 0
IsClocked start [] now = start ≤ now
IsClocked start (FlowCall.packet_from t key ∷ calls) now = (start ≤ t) × IsClocked t calls now
IsClocked start (FlowCall.shutting_down ∷ calls) now = IsClocked start calls now

module _ {R : Type 0} where
  unfoldable pub run_flows : List FlowCall → FlowRouter R → FlowRouter R
  run_flows [] router = router
  run_flows (FlowCall.packet_from now key ∷ calls) router =
      run_flows calls (get_or_create now key router).1
  run_flows (FlowCall.shutting_down ∷ calls) router = run_flows calls (shutdown_all router)

  create_flow-IsByUse :
      (now t : ℕ) (key : FlowKey) (used : FlowKey → Option ℕ) (router : FlowRouter R)
      (c : Result String (Option R))
      → now ≤ t
      → IsWithout key router.pipelines
      → IsByUse used now router.pipelines
      → IsByUse (with_use key t used) t (create_flow t key router c).1.pipelines
  unfolding create_flow
  create_flow-IsByUse now t key used router (err message) le other h =
      (kept-IsByUse now t key used router.max_flows router.pipelines le other h).0
  create_flow-IsByUse now t key used router (ok recorder) le other h =
      let (kept, without) =
        kept-IsByUse now t key used router.max_flows router.pipelines le other h in
      append-IsByUse (with_use key t used) t (evict router.max_flows router.pipelines).1 _ kept
        without (rw (key_eq_self key) refl) refl

  get_or_create-IsByUse :
      (now t : ℕ) (key : FlowKey) (used : FlowKey → Option ℕ) (router : FlowRouter R)
      → now ≤ t
      → IsByUse used now router.pipelines
      → IsByUse (with_use key t used) t (get_or_create t key router).1.pipelines
  unfolding get_or_create
  get_or_create-IsByUse now t key used router le h =
      elim (Option-cases (find_flow key router.pipelines)) [
        | inl absent ↦
            rw (absent, get_or_create)
              (create_flow-IsByUse now t key used router (router.recorder_factory key) le
                (absent-IsWithout key router.pipelines absent) h)
        | inr (p, found) ↦
            let (left, gone) = without_flow-IsByUse used now key router.pipelines h in
            let same = find_flow-key key router.pipelines p found in
            rw (found, get_or_create)
              (append-IsByUse (with_use key t used) t (without_flow key router.pipelines)
                (record p { last_access = t }) (IsByUse-use key now t used _ le gone left)
                (All-mono (λ (q : FlowPipeline R). key_eq q.flow_key key ≡ false)
                  (λ (q : FlowPipeline R). key_eq q.flow_key p.flow_key ≡ false) _
                  (λ q other. key_eq-third p.flow_key q.flow_key key same other) gone)
                (rw same refl) refl)
      ]

  -- After any calls with rising readings of the clock, the flows stand in the order of the times of
  -- their last packets.
  pub run_flows-IsByUse :
      (calls : List FlowCall) (start now : ℕ) (used : FlowKey → Option ℕ) (router : FlowRouter R)
      → IsClocked start calls now
      → IsByUse used start router.pipelines
      → IsByUse (last_uses calls used) now (run_flows calls router).pipelines
  unfolding run_flows last_uses shutdown_all
  run_flows-IsByUse [] start now used router clocked h =
      IsByUse-later used start now router.pipelines clocked h
  run_flows-IsByUse (FlowCall.packet_from t key ∷ calls) start now used router clocked h =
      run_flows-IsByUse calls t now (with_use key t used) (get_or_create t key router).1 clocked.1
        (get_or_create-IsByUse start t key used router clocked.0 h)
  run_flows-IsByUse (FlowCall.shutting_down ∷ calls) start now used router clocked h =
      run_flows-IsByUse calls start now used (shutdown_all router) clocked tt

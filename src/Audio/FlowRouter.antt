-- ===== src/Audio/FlowRouter.antt =====
-- backend/app/audio/flow_router.py: the pipelines of the UDP flows, least recently used first. A
-- recorder is of the type `R`; the ones that were shut down are kept in the order in which they were.
-- A recorder factory that raises gives `err`.
pub mod Eviction
pub mod Order
pub mod Recency
pub mod Bound
use tactical_core.Base.{
  ℕ, suc, ◌&&◌, ◌==◌, Bool, true, false, String, str_eq, Option, none, some, List, [], ◌∷◌, ◌++◌,
  length, leb, max, map, any, if◌then◌else◌,
}
use tactical_core.Base.Result.{Result, ok, err}
use tactical_core.Audio.Stream.{RtpStreamStats, no_stats}

pub record FlowKey : Type 0 where
  pub src_ip : String
  pub src_port : ℕ
  pub dst_port : ℕ

abbrev pub key_eq : FlowKey → FlowKey → Bool
key_eq k l = str_eq k.src_ip l.src_ip && (k.src_port == l.src_port && k.dst_port == l.dst_port)

pub record FlowPipeline (R : Type 0) : Type 0 where
  pub flow_key : FlowKey
  pub tracker : RtpStreamStats
  pub recorder : Option R
  pub created_at : ℕ
  pub last_access : ℕ

pub record FlowRouter (R : Type 0) : Type 0 where
  pub recorder_factory : FlowKey → Result String (Option R)
  pub max_flows : ℕ
  pub pipelines : List (FlowPipeline R)
  pub finalized : List (FlowPipeline R)

module _ {R : Type 0} where
  -- `__init__`
  unfoldable pub new_router : (FlowKey → Result String (Option R)) → ℕ → FlowRouter R
  new_router factory max_flows = record {
    recorder_factory = factory;
    max_flows = max 1 max_flows;
    pipelines = [];
    finalized = [];
  }

  -- `self._pipelines.get(flow_key)`
  unfoldable pub find_flow : FlowKey → List (FlowPipeline R) → Option (FlowPipeline R)
  find_flow key [] = none
  find_flow key (p ∷ ps) = if key_eq p.flow_key key then some p else find_flow key ps

  unfoldable pub without_flow : FlowKey → List (FlowPipeline R) → List (FlowPipeline R)
  without_flow key [] = []
  without_flow key (p ∷ ps) =
      let rest = without_flow key ps in if key_eq p.flow_key key then ps else p ∷ rest

  -- the `while` of `get_or_create`: the evicted pipelines and the ones that stay
  unfoldable pub evict : ℕ → List (FlowPipeline R) → List (FlowPipeline R) × List (FlowPipeline R)
  evict limit [] = ([], [])
  evict limit (p ∷ ps) =
      let (evicted, kept) = evict limit ps in
      if leb limit (suc (length ps)) then (p ∷ evicted, kept) else ([], p ∷ ps)

  -- `get_or_create` for a flow that is not there, from what the factory does
  unfoldable pub create_flow :
      ℕ
      → FlowKey
      → FlowRouter R
      → Result String (Option R)
      → Result String (FlowPipeline R) × FlowRouter R
  unfolding evict
  create_flow now key router (err message) =
      let (evicted, kept) = evict router.max_flows router.pipelines in
      (err message, record router { pipelines = kept; finalized = router.finalized ++ evicted })
  create_flow now key router (ok recorder) =
      let (evicted, kept) = evict router.max_flows router.pipelines in
      let pipeline : FlowPipeline R = record {
        flow_key = key;
        tracker = no_stats;
        recorder = recorder;
        created_at = now;
        last_access = now;
      } in
      (
        ok pipeline,
        record router {
          pipelines = kept ++ pipeline ∷ [];
          finalized = router.finalized ++ evicted;
        },
      )

  -- `get_or_create`, at the reading `now` of the monotonic clock
  unfoldable pub get_or_create :
      ℕ → FlowKey → FlowRouter R → Result String (FlowPipeline R) × FlowRouter R
  unfolding find_flow without_flow create_flow
  get_or_create now key router = elim (find_flow key router.pipelines) [
    | none ↦ create_flow now key router (router.recorder_factory key)
    | some p ↦
        let touched = record p { last_access = now } in
        (
          ok touched,
          record router { pipelines = without_flow key router.pipelines ++ touched ∷ [] },
        )
  ]

  unfoldable pub has_flow : FlowKey → FlowRouter R → Bool
  has_flow key router = any (λ (p : FlowPipeline R). key_eq p.flow_key key) router.pipelines

  unfoldable pub flow_count : FlowRouter R → ℕ
  flow_count router = length router.pipelines

  unfoldable pub flows : FlowRouter R → List FlowKey
  flows router = map (λ (p : FlowPipeline R). p.flow_key) router.pipelines

  unfoldable pub shutdown_all : FlowRouter R → FlowRouter R
  shutdown_all router = record router {
    pipelines = [];
    finalized = router.finalized ++ router.pipelines;
  }

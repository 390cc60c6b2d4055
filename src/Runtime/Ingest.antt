-- ===== src/Runtime/Ingest.antt =====
-- backend/app/event_sources/runtime/adapter_runtime.py: `submit_raw`, the synchronous way in, with
-- `IngestStatus`, `IngestResult` and `_probe`. The factory, the pipeline and the probe are
-- parameters over a world `W` that the pipeline changes and the probe reads.
use tactical_core.Base.{
  ◌+◌, ◌≡◌, refl, Bool, true, false, String, Option, none, some, arith, ◌∙◌, ap, if◌then◌else◌, ◌⊎◌,
  inl, inr,
}
use tactical_core.Base.Result.{Result, ok, err, Result-cases}
use tactical_core.Runtime.Adapter.{Runtime}

pub data IngestStatus : Type 0 where
  new_event : IngestStatus
  duplicate : IngestStatus
  invalid : IngestStatus
  failure : IngestStatus

pub record IngestResult : Type 0 where
  pub status : IngestStatus
  pub event_id : Option String
  pub durable : Bool
  pub error : Option String

-- What `submit_raw` calls. A call that raises is an `err` with the error's text.
pub record Ingress (W R E : Type 0) : Type 0 where
  pub create_event : R → Result String E
  pub event_id : E → Option String
  pub process : E → W → Result String Bool × W
  pub durability_probe : Option (String → W → Result String Bool)

-- `_probe`
unfoldable pub probe :
    {W : Type 0} → Option (String → W → Result String Bool) → Option String → W → Bool
probe none event_id w = false
probe (some p) none w = false
probe (some p) (some id) w = elim (p id w) [ ok present ↦ present | err message ↦ false ]

-- `submit_raw` after the pipeline has accepted the event
unfoldable pub confirm :
    {W : Type 0}
    → Option (String → W → Result String Bool)
    → Option String
    → Bool
    → W
    → IngestResult
unfolding probe
confirm none id already_present w = record {
  status = IngestStatus.new_event;
  event_id = id;
  durable = false;
  error = none;
}
confirm (some p) id already_present w =
    if probe (some p) id w
    then record {
      status = if already_present then IngestStatus.duplicate else IngestStatus.new_event;
      event_id = id;
      durable = true;
      error = none;
    }
    else record {
      status = IngestStatus.failure;
      event_id = id;
      durable = false;
      error = some "durable persistence not confirmed";
    }

-- `submit_raw` after the pipeline has returned or raised
unfoldable pub answer :
    {W : Type 0}
    → Option (String → W → Result String Bool)
    → Option String
    → Bool
    → Result String Bool × W
    → Runtime
    → IngestResult × (W × Runtime)
unfolding confirm
answer p id already_present (err message, w) r = (
  record { status = IngestStatus.failure; event_id = id; durable = false; error = some message },
  (w, r),
)
answer p id already_present (ok false, w) r = (
  record {
    status = IngestStatus.invalid;
    event_id = id;
    durable = false;
    error = some "pipeline rejected event";
  },
  (w, r),
)
answer p id already_present (ok true, w) r =
    (confirm p id already_present w, (w, record r { events_processed = r.events_processed + 1 }))

-- `submit_raw` after the factory has returned or raised
unfoldable pub submit_created :
    {W R E : Type 0} → Ingress W R E → W → Runtime → Result String E → IngestResult × (W × Runtime)
unfolding answer probe
submit_created i w r (err message) = (
  record { status = IngestStatus.invalid; event_id = none; durable = false; error = some message },
  (w, r),
)
submit_created i w r (ok e) =
    answer i.durability_probe (i.event_id e) (probe i.durability_probe (i.event_id e) w)
      (i.process e w) r

unfoldable pub submit_raw :
    {W R E : Type 0} → Ingress W R E → R → W → Runtime → IngestResult × (W × Runtime)
unfolding submit_created
submit_raw i raw w r = submit_created i w r (i.create_event raw)

abbrev pub status_of : Bool → IngestStatus
status_of present = if present then IngestStatus.duplicate else IngestStatus.new_event

probe-true :
    {W : Type 0} (p : String → W → Result String Bool) (o : Option String) (w : W)
    → probe (some p) o w ≡ true
    → (id : String) × (o ≡ some id) × (p id w ≡ ok true)
unfolding probe
probe-true p none w h = ground arith
probe-true p (some id) w h = elim (Result-cases (p id w)) [
  | inl (true, eq) ↦ (id, refl, eq)
  | inl (false, eq) ↦ ground arith
  | inr (message, eq) ↦ ground arith
]

confirm-durable :
    {W : Type 0} (o : Option (String → W → Result String Bool)) (id : Option String)
    (already : Bool) (w : W)
    → (confirm o id already w).durable ≡ true
    → (p : String → W → Result String Bool) × (o ≡ some p)
      × (probe (some p) id w ≡ true)
      × ((confirm o id already w).status ≡ status_of already)
unfolding confirm
confirm-durable none id already w h = ground arith
confirm-durable (some p) id already w h = (p, refl, ground arith, ground arith)

answer-durable :
    {W : Type 0} (o : Option (String → W → Result String Bool)) (id : Option String)
    (already : Bool) (outcome : Result String Bool × W) (r : Runtime)
    → (answer o id already outcome r).0.durable ≡ true
    → (p : String → W → Result String Bool) × (o ≡ some p)
      × (outcome.0 ≡ ok true)
      × (probe (some p) id (outcome.1) ≡ true)
      × ((answer o id already outcome r).0.status ≡ status_of already)
unfolding answer
answer-durable o id already (err message, w) r h = ground arith
answer-durable o id already (ok false, w) r h = ground arith
answer-durable o id already (ok true, w) r h =
    let (p, is, present, status) = confirm-durable o id already w h in
    (p, is, refl, present, status)

answer-runtime :
    {W : Type 0} (o : Option (String → W → Result String Bool)) (id : Option String)
    (already : Bool) (outcome : Result String Bool × W) (r : Runtime)
    → ((answer o id already outcome r).1.1 ≡ r)
      ⊎ ((outcome.0 ≡ ok true)
          × ((answer o id already outcome r).1.1
              ≡ record r { events_processed = r.events_processed + 1 }))
unfolding answer
answer-runtime o id already (err message, w) r = inl refl
answer-runtime o id already (ok false, w) r = inl refl
answer-runtime o id already (ok true, w) r = inr (refl, refl)

created-durable :
    {W R E : Type 0} (i : Ingress W R E) (w : W) (r : Runtime) (c : Result String E)
    → (submit_created i w r c).0.durable ≡ true
    → (e : E) × (p : String → W → Result String Bool) × (id : String) × (c ≡ ok e)
      × (i.durability_probe ≡ some p)
      × (i.event_id e ≡ some id)
      × ((i.process e w).0 ≡ ok true)
      × (p id (i.process e w).1 ≡ ok true)
      × ((submit_created i w r c).0.status ≡ status_of (probe (some p) (some id) w))
unfolding submit_created
created-durable i w r (err message) h = ground arith
created-durable i w r (ok e) h =
    let already = probe i.durability_probe (i.event_id e) w in
    let (p, set, accepted, present, status) =
      answer-durable i.durability_probe (i.event_id e) already (i.process e w) r h in
    let (id, has, now) = probe-true p (i.event_id e) (i.process e w).1 present in
    (
      e,
      p,
      id,
      refl,
      set,
      has,
      accepted,
      now,
      status
          ∙ ap status_of
              (ap (λ o. probe o (i.event_id e) w) set ∙ ap (λ o. probe (some p) o w) has),
    )

created-runtime :
    {W R E : Type 0} (i : Ingress W R E) (w : W) (r : Runtime) (c : Result String E)
    → ((submit_created i w r c).1.1 ≡ r)
      ⊎ ((e : E) × (c ≡ ok e)
          × ((i.process e w).0 ≡ ok true)
          × ((submit_created i w r c).1.1 ≡ record r { events_processed = r.events_processed + 1 }))
unfolding submit_created
created-runtime i w r (err message) = inl refl
created-runtime i w r (ok e) =
    elim (answer-runtime i.durability_probe (i.event_id e)
      (probe i.durability_probe (i.event_id e) w) (i.process e w) r) [
        | inl same ↦ inl same
        | inr (accepted, counted) ↦ inr (e, refl, accepted, counted)
      ]

-- If `submit_raw` answers that an event is durable, the factory made an event with an id, a probe is
-- set, the pipeline returned true, and the probe, asked about that id after the pipeline has
-- finished, said yes; the status is DUPLICATE if the probe said yes before the pipeline ran too, and
-- NEW otherwise.
pub submit_raw-durable :
    {W R E : Type 0} (i : Ingress W R E) (raw : R) (w : W) (r : Runtime)
    → (submit_raw i raw w r).0.durable ≡ true
    → (e : E) × (p : String → W → Result String Bool) × (id : String) × (i.create_event raw ≡ ok e)
      × (i.durability_probe ≡ some p)
      × (i.event_id e ≡ some id)
      × ((i.process e w).0 ≡ ok true)
      × (p id (i.process e w).1 ≡ ok true)
      × ((submit_raw i raw w r).0.status ≡ status_of (probe (some p) (some id) w))
unfolding submit_raw
submit_raw-durable i raw w r h = created-durable i w r (i.create_event raw) h

-- Whatever the factory, the pipeline and the probe do, `submit_raw` changes at most the count of
-- processed events of the runtime, by one, and only if the pipeline accepted the event.
pub submit_raw-runtime :
    {W R E : Type 0} (i : Ingress W R E) (raw : R) (w : W) (r : Runtime)
    → ((submit_raw i raw w r).1.1 ≡ r)
      ⊎ ((e : E) × (i.create_event raw ≡ ok e)
          × ((i.process e w).0 ≡ ok true)
          × ((submit_raw i raw w r).1.1 ≡ record r { events_processed = r.events_processed + 1 }))
unfolding submit_raw
submit_raw-runtime i raw w r = created-runtime i w r (i.create_event raw)

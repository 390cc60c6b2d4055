-- ===== src/Audio/Segmenter.antt =====
-- backend/app/audio/segmenter.py: `TransmissionSegmenter`. Durations are floats and times are
-- datetimes in the source; both are parameters, with the operations that the code calls.
pub mod Segments
pub mod PreRoll
use tactical_core.Base.{
  ℕ, ◌+◌, ◌-◌, Bool, true, false, ◌&&◌, Option, none, some, List, [], ◌∷◌, ◌++◌, length, ltb,
  if◌then◌else◌,
}

pub data SegmentState : Type 0 where
  idle recording tail : SegmentState

pub data FinalizeReason : Type 0 where
  silence_timeout max_segment source_shutdown force : FinalizeReason

-- Durations `D` and times `T`; `frame_ms` is `_frame_ms` at the configured rate and width.
pub record Floats (D T : Type 0) : Type 0 where
  pub zero_ms : D
  pub plus : D → D → D
  pub minus : D → D → D
  pub at_least : D → D → Bool
  pub or_zero : D → D
  pub frame_ms : ℕ → D
  pub earlier : T → D → T

-- `SegmentConfig`, with the derived `prebuffer_bytes` and `_finalize_silence_ms`
pub record SegmentConfig (D : Type 0) : Type 0 where
  pub pre_roll_ms : D
  pub min_speech_ms : D
  pub max_segment_ms : D
  pub finalize_silence_ms : D
  pub prebuffer_bytes : ℕ

pub record SegmentResult (D T : Type 0) : Type 0 where
  pub pcm : List ℕ
  pub started_at : T
  pub ended_at : T
  pub duration_ms : D
  pub reason : FinalizeReason
  pub pre_roll_ms : D
  pub speech_ms : D

pub record Segmenter (D T : Type 0) : Type 0 where
  pub state : SegmentState
  pub prebuffer : List (List ℕ)
  pub prebuffer_ms : D
  pub pending : List ℕ
  pub pending_ms : D
  pub recorded : List ℕ
  pub recording_ms : D
  pub silence_ms : D
  pub recording_started_at : Option T
  pub last_speech_at : Option T

abbrev pub join : List (List ℕ) → List ℕ
join [] = []
join (b ∷ bs) = b ++ join bs

abbrev pub is_idle : SegmentState → Bool
is_idle idle = true
is_idle recording = false
is_idle tail = false

abbrev pub is_recording_state : SegmentState → Bool
is_recording_state recording = true
is_recording_state idle = false
is_recording_state tail = false

abbrev pub value_or : {T : Type 0} → T → Option T → T
value_or default none = default
value_or default (some t) = t

module _ {D T : Type 0} (f : Floats D T) (config : SegmentConfig D) where
  -- `__init__`, and what `_reset` leaves
  abbrev pub fresh : Segmenter D T
  fresh = record {
    state = idle;
    prebuffer = [];
    prebuffer_ms = f.zero_ms;
    pending = [];
    pending_ms = f.zero_ms;
    recorded = [];
    recording_ms = f.zero_ms;
    silence_ms = f.zero_ms;
    recording_started_at = none;
    last_speech_at = none;
  }

  -- `_finalize`, which ends with `_reset`
  unfoldable pub finalize : FinalizeReason → T → Segmenter D T → SegmentResult D T × Segmenter D T
  finalize reason now s = (
    record {
      pcm = s.recorded;
      started_at = value_or now s.recording_started_at;
      ended_at = now;
      duration_ms = s.recording_ms;
      reason = reason;
      pre_roll_ms = config.pre_roll_ms;
      speech_ms = f.or_zero (f.minus s.recording_ms s.silence_ms);
    },
    fresh,
  )

  abbrev pub finalized :
      FinalizeReason → T → Segmenter D T → Option (SegmentResult D T) × Segmenter D T
  finalized reason now s = let (result, s') = finalize reason now s in (some result, s')

  -- `_start_recording`
  unfoldable pub start_recording : T → Segmenter D T → Segmenter D T
  start_recording now s = record {
    state = recording;
    prebuffer = [];
    prebuffer_ms = f.zero_ms;
    pending = [];
    pending_ms = f.zero_ms;
    recorded = join s.prebuffer ++ s.pending;
    recording_ms = f.plus s.prebuffer_ms s.pending_ms;
    silence_ms = f.zero_ms;
    recording_started_at = some (f.earlier now (f.plus s.prebuffer_ms s.pending_ms));
    last_speech_at = some now;
  }

  -- the `while` of `_push_prebuffer`
  unfoldable pub trim : ℕ → List (List ℕ) → D → List (List ℕ) × D
  trim total [] ms = ([], ms)
  trim total (old ∷ []) ms = (old ∷ [], ms)
  trim total (old ∷ b ∷ bs) ms =
      let rest = trim (total - length old) (b ∷ bs) (f.minus ms (f.frame_ms (length old))) in
      if ltb config.prebuffer_bytes total then rest else (old ∷ b ∷ bs, ms)

  -- `_push_prebuffer`
  unfoldable pub push_prebuffer : List ℕ → D → Segmenter D T → Segmenter D T
  unfolding trim
  push_prebuffer pcm frame_ms s =
      let buffer = s.prebuffer ++ pcm ∷ [] in
      let (buffer', ms) = trim (length (join buffer)) buffer (f.plus s.prebuffer_ms frame_ms) in
      record s { prebuffer = buffer'; prebuffer_ms = ms }

  -- `process`, by the state it finds
  unfoldable pub process_idle : List ℕ → Bool → T → D → Segmenter D T → Segmenter D T
  unfolding start_recording push_prebuffer
  process_idle pcm vad_active now frame_ms s =
      if vad_active
      then (let s' = record s {
        pending = s.pending ++ pcm;
        pending_ms = f.plus s.pending_ms frame_ms;
      } in
          if f.at_least s'.pending_ms config.min_speech_ms then start_recording now s' else s')
      else record (push_prebuffer pcm frame_ms s) { pending = []; pending_ms = f.zero_ms }

  -- a frame of a transmission: the recording grows, and the state and the silence follow the VAD
  abbrev pub extended : List ℕ → D → Segmenter D T → Segmenter D T
  extended pcm frame_ms s = record s {
    recorded = s.recorded ++ pcm;
    recording_ms = f.plus s.recording_ms frame_ms;
  }

  abbrev pub spoken : T → Segmenter D T → Segmenter D T
  spoken now s = record s { state = recording; silence_ms = f.zero_ms; last_speech_at = some now }

  abbrev pub or_max : T → Segmenter D T → Option (SegmentResult D T) × Segmenter D T
  or_max now s =
      if f.at_least s.recording_ms config.max_segment_ms
      then finalized max_segment now s
      else (none, s)

  unfoldable pub process_recording :
      List ℕ → Bool → T → D → Segmenter D T → Option (SegmentResult D T) × Segmenter D T
  unfolding finalize
  process_recording pcm vad_active now frame_ms s =
      let s' = extended pcm frame_ms s in
      or_max now
        (if vad_active then spoken now s' else record s' { state = tail; silence_ms = frame_ms })

  unfoldable pub process_tail :
      List ℕ → Bool → T → D → Segmenter D T → Option (SegmentResult D T) × Segmenter D T
  unfolding finalize
  process_tail pcm vad_active now frame_ms s =
      let s' = extended pcm frame_ms s in
      if vad_active
      then or_max now (spoken now s')
      else (let s'' = record s' { silence_ms = f.plus s'.silence_ms frame_ms } in
          if f.at_least s''.silence_ms config.finalize_silence_ms
          then finalized silence_timeout now s''
          else or_max now s'')

  unfoldable pub process :
      List ℕ → Bool → T → Segmenter D T → Option (SegmentResult D T) × Segmenter D T
  unfolding process_idle process_recording process_tail
  process pcm vad_active now s =
      let frame_ms = f.frame_ms (length pcm) in
      if is_idle s.state
      then (none, process_idle pcm vad_active now frame_ms s)
      else if is_recording_state s.state
      then process_recording pcm vad_active now frame_ms s
      else process_tail pcm vad_active now frame_ms s

  unfoldable pub force_finalize :
      FinalizeReason → T → Segmenter D T → Option (SegmentResult D T) × Segmenter D T
  unfolding finalize
  force_finalize reason now s = if is_idle s.state then (none, s) else finalized reason now s

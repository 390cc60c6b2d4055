-- ===== src/Audio/Segmenter/PreRoll.antt =====
-- backend/app/audio/segmenter.py: the bound of the pre-roll buffer.
use tactical_core.Base.{
  ℕ, ◌-◌, ◌≤◌, ◌≡◌, refl, Bool, true, false, List, [], ◌∷◌, ◌++◌, length, length-append, ltb, arith,
  Bool-cases, inl, inr, ◌⊎◌,
}
use tactical_core.Audio.Segmenter.{
  SegmentState, Floats, SegmentConfig, Segmenter, join, is_idle, is_recording_state, finalize,
  extended, spoken, or_max, start_recording, trim, push_prebuffer, process_idle, process_recording,
  process_tail, process,
}
use tactical_core.Audio.Segmenter.Segments.{Frame}

module _ {D T : Type 0} (f : Floats D T) (config : SegmentConfig D) where
  -- The buffer fits the budget of the pre-roll, or holds a single frame at most.
  abbrev pub IsBounded : List (List ℕ) → Type 0
  IsBounded buffer = (length (join buffer) ≤ config.prebuffer_bytes) ⊎ (length buffer ≤ 1)

  trim-IsBounded :
      (total : ℕ) (buffer : List (List ℕ)) (ms : D)
      → total ≡ length (join buffer)
      → IsBounded (trim f config total buffer ms).0
  unfolding trim
  trim-IsBounded total [] ms eq = inr (omega arith)
  trim-IsBounded total (old ∷ []) ms eq = inr (omega arith)
  trim-IsBounded total (old ∷ b ∷ bs) ms eq = elim (Bool-cases (ltb config.prebuffer_bytes total)) [
    | inl over ↦ rw over (
        trim-IsBounded (total - length old) (b ∷ bs) (f.minus ms (f.frame_ms (length old)))
          (omega (arith, eq, length-append old (join (b ∷ bs)))))
    | inr fits ↦ rw fits (inl (ground (arith, eq)))
  ]

  or_max-IsBounded :
      (now : T) (s : Segmenter D T)
      → IsBounded s.prebuffer
      → IsBounded (or_max f config now s).1.prebuffer
  unfolding finalize
  or_max-IsBounded now s h = elim (Bool-cases (f.at_least s.recording_ms config.max_segment_ms)) [
    | inl full ↦ rw full (inr (omega arith))
    | inr room ↦ rw room h
  ]

  process_idle-IsBounded :
      (pcm : List ℕ) (vad_active : Bool) (now : T) (ms : D) (s : Segmenter D T)
      → IsBounded s.prebuffer
      → IsBounded (process_idle f config pcm vad_active now ms s).prebuffer
  unfolding process_idle start_recording push_prebuffer
  process_idle-IsBounded pcm true now ms s h =
      elim (Bool-cases (f.at_least (f.plus s.pending_ms ms) config.min_speech_ms)) [
        | inl enough ↦ rw enough (inr (omega arith))
        | inr little ↦ rw little h
      ]
  process_idle-IsBounded pcm false now ms s h =
      trim-IsBounded _ (s.prebuffer ++ pcm ∷ []) (f.plus s.prebuffer_ms ms) refl

  process_recording-IsBounded :
      (pcm : List ℕ) (vad_active : Bool) (now : T) (ms : D) (s : Segmenter D T)
      → IsBounded s.prebuffer
      → IsBounded (process_recording f config pcm vad_active now ms s).1.prebuffer
  unfolding process_recording
  process_recording-IsBounded pcm true now ms s h =
      or_max-IsBounded now (spoken f config now (extended f config pcm ms s)) h
  process_recording-IsBounded pcm false now ms s h =
      or_max-IsBounded now
        (record (extended f config pcm ms s) { state = SegmentState.tail; silence_ms = ms }) h

  process_tail-IsBounded :
      (pcm : List ℕ) (vad_active : Bool) (now : T) (ms : D) (s : Segmenter D T)
      → IsBounded s.prebuffer
      → IsBounded (process_tail f config pcm vad_active now ms s).1.prebuffer
  unfolding process_tail finalize
  process_tail-IsBounded pcm true now ms s h =
      or_max-IsBounded now (spoken f config now (extended f config pcm ms s)) h
  process_tail-IsBounded pcm false now ms s h =
      elim (Bool-cases (f.at_least (f.plus s.silence_ms ms) config.finalize_silence_ms)) [
        | inl silent ↦ rw silent (inr (omega arith))
        | inr not_yet ↦ rw not_yet (
            or_max-IsBounded now
              (record (extended f config pcm ms s) { silence_ms = f.plus s.silence_ms ms }) h)
      ]

  -- The segmenter after a sequence of frames, whatever they finalize.
  unfoldable pub after_frames : List (Frame T) → Segmenter D T → Segmenter D T
  after_frames [] s = s
  after_frames (x ∷ xs) s = after_frames xs (process f config x.pcm x.vad_active x.now s).1

  process-IsBounded :
      (pcm : List ℕ) (vad_active : Bool) (now : T) (s : Segmenter D T)
      → IsBounded s.prebuffer
      → IsBounded (process f config pcm vad_active now s).1.prebuffer
  unfolding process
  process-IsBounded pcm vad_active now s h =
      let ms = f.frame_ms (length pcm) in
      elim (Bool-cases (is_idle s.state)) [
        | inl idle ↦ rw (idle, process) (process_idle-IsBounded pcm vad_active now ms s h)
        | inr active ↦ elim (Bool-cases (is_recording_state s.state)) [
          | inl r ↦
              rw (active, process) (rw r (process_recording-IsBounded pcm vad_active now ms s h))
          | inr t ↦ rw (active, process) (rw t (process_tail-IsBounded pcm vad_active now ms s h))
        ]
      ]

  -- Whatever frames come, speech or not, with whatever durations: a pre-roll buffer that fits its
  -- budget of bytes, or holds a single frame at most, goes on to be such a buffer.
  pub after_frames-IsBounded :
      (frames : List (Frame T)) (s : Segmenter D T)
      → IsBounded s.prebuffer
      → IsBounded (after_frames frames s).prebuffer
  unfolding after_frames
  after_frames-IsBounded [] s h = h
  after_frames-IsBounded (x ∷ xs) s h =
      after_frames-IsBounded xs (process f config x.pcm x.vad_active x.now s).1
        (process-IsBounded x.pcm x.vad_active x.now s h)

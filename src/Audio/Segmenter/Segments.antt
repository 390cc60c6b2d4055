-- ===== src/Audio/Segmenter/Segments.antt =====
-- backend/app/audio/segmenter.py: what a finalized transmission holds.
use tactical_core.Base.{
  ℕ, ◌≡◌, refl, sym, ap, subst, ◌∙◌, Bool, true, false, Option, none, some, List, [], ◌∷◌, ◌++◌,
  length, if◌then◌else◌, Bool-cases, inl, inr, ◌⊎◌,
}
use mathlib.Core.List.{append-nil, append_assoc}
use tactical_core.Audio.Segmenter.{
  SegmentState, FinalizeReason, Floats, SegmentConfig, SegmentResult, Segmenter, is_idle,
  is_recording_state, fresh, finalize, finalized, extended, spoken, or_max, process_recording,
  process_tail, process_idle, process,
}

-- A frame: its PCM, what the VAD says of it, and its time.
pub record Frame (T : Type 0) : Type 0 where
  pub pcm : List ℕ
  pub vad_active : Bool
  pub now : T

abbrev pub audio : {T : Type 0} → List (Frame T) → List ℕ
audio [] = []
audio (x ∷ xs) = x.pcm ++ audio xs

module _ {D T : Type 0} (f : Floats D T) (config : SegmentConfig D) where
  -- Frames are processed up to the first that finalizes a transmission; the others are left over.
  unfoldable pub feed :
      List (Frame T) → Segmenter D T → Option (SegmentResult D T) × Segmenter D T × List (Frame T)
  feed [] s = (none, s, [])
  feed (x ∷ xs) s =
      let (o, s') = process f config x.pcm x.vad_active x.now s in
      elim o [ some r ↦ (some r, s', xs) | none ↦ feed xs s' ]

  -- The step ended the transmission with this audio, or it goes on with it, under the limit.
  abbrev pub EndsOrGrows : List ℕ → Option (SegmentResult D T) × Segmenter D T → Type 0
  EndsOrGrows pcm (o, s) =
      ((r : SegmentResult D T) × (o ≡ some r) × (r.pcm ≡ pcm) × (s ≡ fresh f config))
      ⊎ ((o ≡ none)
          × (is_idle s.state ≡ false)
          × (s.recorded ≡ pcm)
          × (f.at_least s.recording_ms config.max_segment_ms ≡ false))

  finalized-ends :
      (reason : FinalizeReason) (now : T) (s : Segmenter D T)
      → EndsOrGrows s.recorded (finalized f config reason now s)
  unfolding finalize
  finalized-ends reason now s = inl ((finalize f config reason now s).0, refl, refl, refl)

  or_max-ends :
      (now : T) (s : Segmenter D T)
      → is_idle s.state ≡ false
      → EndsOrGrows s.recorded (or_max f config now s)
  or_max-ends now s active = elim (Bool-cases (f.at_least s.recording_ms config.max_segment_ms)) [
    | inl full ↦
        subst (EndsOrGrows s.recorded)
          (sym (
            ap (λ b. if b then finalized f config FinalizeReason.max_segment now s else (none, s))
              full))
          (finalized-ends FinalizeReason.max_segment now s)
    | inr room ↦
        subst (EndsOrGrows s.recorded)
          (sym (
            ap (λ b. if b then finalized f config FinalizeReason.max_segment now s else (none, s))
              room))
          (inr (refl, active, refl, room))
  ]

  recording-ends :
      (pcm : List ℕ) (vad_active : Bool) (now : T) (ms : D) (s : Segmenter D T)
      → EndsOrGrows (s.recorded ++ pcm) (process_recording f config pcm vad_active now ms s)
  unfolding process_recording
  recording-ends pcm true now ms s =
      or_max-ends now (spoken f config now (extended f config pcm ms s)) refl
  recording-ends pcm false now ms s =
      or_max-ends now
        (record (extended f config pcm ms s) { state = SegmentState.tail; silence_ms = ms }) refl

  tail-ends :
      (pcm : List ℕ) (vad_active : Bool) (now : T) (ms : D) (s : Segmenter D T)
      → is_idle s.state ≡ false
      → EndsOrGrows (s.recorded ++ pcm) (process_tail f config pcm vad_active now ms s)
  unfolding process_tail
  tail-ends pcm true now ms s active =
      or_max-ends now (spoken f config now (extended f config pcm ms s)) refl
  tail-ends pcm false now ms s active =
      let s' : Segmenter D T = record (extended f config pcm ms s) {
        silence_ms = f.plus s.silence_ms ms;
      } in
      elim (Bool-cases (f.at_least s'.silence_ms config.finalize_silence_ms)) [
        | inl silent ↦
            subst (EndsOrGrows s'.recorded)
              (sym (
                ap
                  (λ b.
                    if b
                    then finalized f config FinalizeReason.silence_timeout now s'
                    else or_max f config now s')
                  silent))
              (finalized-ends FinalizeReason.silence_timeout now s')
        | inr not_yet ↦
            subst (EndsOrGrows s'.recorded)
              (sym (
                ap
                  (λ b.
                    if b
                    then finalized f config FinalizeReason.silence_timeout now s'
                    else or_max f config now s')
                  not_yet))
              (or_max-ends now s' active)
      ]

  process-ends :
      (pcm : List ℕ) (vad_active : Bool) (now : T) (s : Segmenter D T)
      → is_idle s.state ≡ false
      → EndsOrGrows (s.recorded ++ pcm) (process f config pcm vad_active now s)
  unfolding process
  process-ends pcm vad_active now s active =
      let ms = f.frame_ms (length pcm) in
      let pick : Bool → Bool → Option (SegmentResult D T) × Segmenter D T = λ a b.
        if a
        then (none, process_idle f config pcm vad_active now ms s)
        else if b
        then process_recording f config pcm vad_active now ms s
        else process_tail f config pcm vad_active now ms s in
      let picked = ap (λ a. pick a (is_recording_state s.state)) active in
      elim (Bool-cases (is_recording_state s.state)) [
        | inl r ↦
            subst (EndsOrGrows (s.recorded ++ pcm)) (sym (picked ∙ ap (pick false) r))
              (recording-ends pcm vad_active now ms s)
        | inr t ↦
            subst (EndsOrGrows (s.recorded ++ pcm)) (sym (picked ∙ ap (pick false) t))
              (tail-ends pcm vad_active now ms s active)
      ]

  -- While a transmission is recorded, whatever frames come: either no frame finalizes it, and it is
  -- still recorded, with the audio of all frames appended and, after the first frame, its duration
  -- under the maximum; or the frames up to one, `used`, end it, its PCM is what was recorded before followed by the audio of
  -- `used`, each byte once and in order, the segmenter is as new, and the other frames are left over.
  pub transmission_is_whole :
      (frames : List (Frame T)) (s : Segmenter D T)
      → is_idle s.state ≡ false
      → ((r : SegmentResult D T) × (used unused : List (Frame T)) × (frames ≡ used ++ unused)
          × (feed frames s ≡ (some r, fresh f config, unused))
          × (r.pcm ≡ s.recorded ++ audio used))
        ⊎ ((s' : Segmenter D T) × (feed frames s ≡ (none, s', []))
            × (is_idle s'.state ≡ false)
            × (s'.recorded ≡ s.recorded ++ audio frames)
            × ((frames ≡ []) ⊎ (f.at_least s'.recording_ms config.max_segment_ms ≡ false)))
  unfolding feed
  transmission_is_whole [] s active = inr (s, refl, active, sym (append-nil s.recorded), inl refl)
  transmission_is_whole (x ∷ xs) s active =
      let s' = (process f config x.pcm x.vad_active x.now s).1 in
      let go : Option (SegmentResult D T)
          → Option (SegmentResult D T) × Segmenter D T × List (Frame T) =
        λ o. elim o [ some r ↦ (some r, s', xs) | none ↦ feed xs s' ] in
      elim (process-ends x.pcm x.vad_active x.now s active) [
        | inl (r, result, pcm, left) ↦ inl (
          r,
          x ∷ [],
          xs,
          refl,
          ap go result ∙ ap (λ t. (some r, t, xs)) left,
          pcm ∙ ap (λ t. s.recorded ++ t) (sym (append-nil x.pcm)),
        )
        | inr (goes_on, still, recorded, under) ↦ elim (transmission_is_whole xs s' still) [
          | inl (r, used, unused, split, fed, pcm) ↦ inl (
            r,
            x ∷ used,
            unused,
            ap (λ t. x ∷ t) split,
            ap go goes_on ∙ fed,
            pcm ∙ ap (λ t. t ++ audio used) recorded ∙ append_assoc s.recorded x.pcm (audio used),
          )
          | inr (q, fed, on, pcm, bound) ↦ inr (
            q,
            ap go goes_on ∙ fed,
            on,
            pcm ∙ ap (λ t. t ++ audio xs) recorded ∙ append_assoc s.recorded x.pcm (audio xs),
            inr (elim bound [
              | inr below ↦ below
              | inl empty ↦
                  ap
                    (λ (t : Option (SegmentResult D T) × Segmenter D T × List (Frame T)).
                      f.at_least t.1.recording_ms config.max_segment_ms)
                    (sym fed ∙ ap (λ t. feed t s') empty)
                  ∙ under
            ]),
          )
        ]
      ]

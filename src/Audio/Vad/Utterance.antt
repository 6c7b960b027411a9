-- ===== src/Audio/Vad/Utterance.antt =====
-- The state machine of `EnergyVad::process`, crates/impossible-voice-audio/src/lib.rs, over the
-- verdicts on its frames.
use impossible_voice.Prelude.{
  ok, length, ℕ, ◌+◌, ◌≤◌, ◌<◌, ◌≡◌, ◌⊎◌, inl, inr, Bool, true, false, List, [], ◌∷◌, arith,
}
use impossible_voice.Audio.Float.{Floats}
use impossible_voice.Audio.Vad.{
  is_voiced, process, VadEvent, none, started, ended, EnergyVad, samples_for, advance,
}

abbrev pub total : List (Bool × ℕ) → ℕ
total [] = 0
total ((voiced, frame) ∷ frames) = frame + total frames

abbrev pub Ends : List VadEvent → Type 0
Ends [] = ⊥
Ends (e ∷ es) = (e ≡ ended) ⊎ Ends es

-- Frames without speech.
abbrev pub silent : List ℕ → List (Bool × ℕ)
silent [] = []
silent (n ∷ ns) = (false, n) ∷ silent ns

-- Started and ended take turns, beginning with the one that the state allows.
abbrev pub Alternates : Bool → List VadEvent → Type 0
Alternates active [] = Unit
Alternates active (none ∷ es) = Alternates active es
Alternates active (started ∷ es) = (active ≡ false) × Alternates true es
Alternates active (ended ∷ es) = (active ≡ true) × Alternates false es

module _ {F : Type 0} where
  -- What the counters say between two frames. An idle detector has heard less speech than it takes
  -- to open an utterance; in an open one the silence at the end is shorter than what closes it.
  pub record IsCounting (v : EnergyVad F) : Type 0 where
    pub idle :
        v.active ≡ false
        → (v.silence_run ≡ 0)
          × (v.utterance_samples ≡ 0)
          × (v.speech_run < samples_for v v.config.min_speech_ms)
    pub open_silence : v.active ≡ true → v.silence_run < samples_for v v.config.trailing_silence_ms
    pub one_run : (v.speech_run ≡ 0) ⊎ (v.silence_run ≡ 0)
    pub min_speech : 0 < samples_for v v.config.min_speech_ms
    pub trailing : 0 < samples_for v v.config.trailing_silence_ms

  -- Every frame keeps the counters so.
  pub advance-IsCounting :
      (v : EnergyVad F) (voiced : Bool) (frame : ℕ)
      → IsCounting v
      → IsCounting (advance v voiced frame).0
  unfolding advance samples_for
  advance-IsCounting v voiced frame c = ground arith

  -- The event tells how `active` changes: it starts in an idle state and ends in an active one.
  pub advance-event :
      (v : EnergyVad F) (voiced : Bool) (frame : ℕ)
      → (((advance v voiced frame).1 ≡ started)
          × (v.active ≡ false)
          × ((advance v voiced frame).0.active ≡ true))
        ⊎ ((((advance v voiced frame).1 ≡ ended)
              × (v.active ≡ true)
              × ((advance v voiced frame).0.active ≡ false))
            ⊎ (((advance v voiced frame).1 ≡ none)
                × ((advance v voiced frame).0.active ≡ v.active)))
  unfolding advance
  advance-event v voiced frame = ground arith

  abbrev pub utterance_limit : EnergyVad F → ℕ
  utterance_limit v = samples_for v v.config.max_utterance_ms

  abbrev pub silence_limit : EnergyVad F → ℕ
  silence_limit v = samples_for v v.config.trailing_silence_ms

  -- The verdicts on a row of frames with their lengths, and the events that they give.
  unfoldable pub run : EnergyVad F → List (Bool × ℕ) → List VadEvent
  run v [] = []
  run v ((voiced, frame) ∷ frames) = let (w, event) = advance v voiced frame in event ∷ run w frames

  open_step :
      (v : EnergyVad F) (voiced : Bool) (frame : ℕ)
      → v.active ≡ true
      → ((advance v voiced frame).1 ≡ ended)
        ⊎ (((advance v voiced frame).0.active ≡ true)
            × ((advance v voiced frame).0.utterance_samples ≡ v.utterance_samples + frame)
            × (v.utterance_samples + frame < utterance_limit v)
            × (utterance_limit (advance v voiced frame).0 ≡ utterance_limit v))
  unfolding advance samples_for
  open_step v voiced frame a = ground arith

  -- An open utterance ends, at the latest with the frame that brings it to its limit, whatever the
  -- verdicts on the frames.
  pub run-Ends :
      (v : EnergyVad F) (voiced : Bool) (frame : ℕ) (frames : List (Bool × ℕ))
      → v.active ≡ true
      → utterance_limit v ≤ v.utterance_samples + total ((voiced, frame) ∷ frames)
      → Ends (run v ((voiced, frame) ∷ frames))
  unfolding run
  run-Ends v voiced frame [] a h = elim (open_step v voiced frame a) [
    | inl e ↦ inl e
    | inr (_, _, below, _) ↦ absurd (omega arith)
  ]
  run-Ends v voiced frame ((voiced', frame') ∷ frames) a h = elim (open_step v voiced frame a) [
    | inl e ↦ inl e
    | inr (a', counted, below, same) ↦
        inr (run-Ends (advance v voiced frame).0 voiced' frame' frames a' (omega arith))
  ]

  silent_step :
      (v : EnergyVad F) (frame : ℕ)
      → v.active ≡ true
      → ((advance v false frame).1 ≡ ended)
        ⊎ (((advance v false frame).0.active ≡ true)
            × ((advance v false frame).0.silence_run ≡ v.silence_run + frame)
            × (v.silence_run + frame < silence_limit v)
            × (silence_limit (advance v false frame).0 ≡ silence_limit v))
  unfolding advance samples_for
  silent_step v frame a = ground arith

  -- Frames without speech end an open utterance once the silence at its end has reached the
  -- configured length.
  pub run-silent-Ends :
      (v : EnergyVad F) (frame : ℕ) (frames : List ℕ)
      → v.active ≡ true
      → silence_limit v ≤ v.silence_run + total (silent (frame ∷ frames))
      → Ends (run v (silent (frame ∷ frames)))
  unfolding run
  run-silent-Ends v frame [] a h = elim (silent_step v frame a) [
    | inl e ↦ inl e
    | inr (_, _, below, _) ↦ absurd (omega arith)
  ]
  run-silent-Ends v frame (frame' ∷ frames) a h = elim (silent_step v frame a) [
    | inl e ↦ inl e
    | inr (a', counted, below, same) ↦
        inr (run-silent-Ends (advance v false frame).0 frame' frames a' (omega arith))
  ]

  -- Over any row of frames, an utterance is started only where none is open and ended only where one
  -- is, in turns.
  pub run-Alternates :
      (frames : List (Bool × ℕ)) (v : EnergyVad F) → Alternates v.active (run v frames)
  unfolding run
  run-Alternates [] v = tt
  run-Alternates ((voiced, frame) ∷ frames) v =
      ground (arith, advance-event v voiced frame, run-Alternates frames (advance v voiced frame).0)

-- A frame that `process` accepts goes through `advance` with some verdict.
pub process-eq-ok :
    (fl : Floats) (v : EnergyVad fl.F32) (samples : List fl.F32) {r : EnergyVad fl.F32 × VadEvent}
    → process fl v samples ≡ ok r
    → (voiced : Bool) × (r ≡ advance v voiced (length samples))
unfolding process
process-eq-ok fl v samples h =
    (is_voiced fl v.config.rms_threshold (length samples) samples, ground arith)

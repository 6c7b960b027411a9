-- ===== src/Audio/Vad.antt =====
-- `EnergyVad` of crates/impossible-voice-audio/src/lib.rs: the voice-activity detector.
pub mod Utterance
use impossible_voice.Prelude.{
  ℕ, ◌+◌, ◌-◌, ◌*◌, ◌/◌, ◌≡◌, min, Bool, true, false, not, ◌&&◌, ◌||◌, List, [], ◌∷◌, ltb, leb,
  ◌==◌, if◌then◌else◌, length, is_empty, any, Result, ok, err, ◌>>=◌, ◌>>◌, reject_if, ok_or,
}
use impossible_voice.Prelude.Word.{u64_mod, u32_mod, fits, saturating_add, saturating_mul}
use impossible_voice.Audio.Float.{Floats}
use impossible_voice.Audio.Admission.{
  AudioError, vad_config_invalid, vad_frame_invalid, validate_rate,
}

pub record VadConfig (F : Type 0) : Type 0 where
  pub rms_threshold : F
  pub min_speech_ms : ℕ
  pub trailing_silence_ms : ℕ
  pub max_utterance_ms : ℕ

pub data VadEvent : Type 0 where
  none started ended : VadEvent

pub record EnergyVad (F : Type 0) : Type 0 where
  pub config : VadConfig F
  pub sample_rate : ℕ
  pub speech_run : ℕ
  pub silence_run : ℕ
  pub utterance_samples : ℕ
  pub active : Bool

abbrev pub reset : {F : Type 0} → EnergyVad F → EnergyVad F
reset v = record v { speech_run = 0; silence_run = 0; utterance_samples = 0; active = false }

-- A duration in samples. `usize` holds every u64.
unfoldable pub samples_for : {F : Type 0} → EnergyVad F → ℕ → ℕ
samples_for v milliseconds = saturating_mul u64_mod v.sample_rate milliseconds / 1_000

-- The part of `process` that counts: what it does once it knows whether the frame is voiced.
-- `frame` is the length of the frame.
unfoldable pub count_frame : {F : Type 0} → EnergyVad F → Bool → ℕ → EnergyVad F
count_frame v voiced frame =
    if voiced
    then record v { speech_run = saturating_add u64_mod v.speech_run frame; silence_run = 0 }
    else record v {
      speech_run = 0;
      silence_run = if v.active then saturating_add u64_mod v.silence_run frame else v.silence_run;
    }

abbrev pub add_utterance : {F : Type 0} → EnergyVad F → ℕ → EnergyVad F
add_utterance v frame = record v {
  utterance_samples = saturating_add u64_mod v.utterance_samples frame;
}

-- The transition that follows.
unfoldable pub transition : {F : Type 0} → EnergyVad F → ℕ → EnergyVad F × VadEvent
transition v frame =
    if v.active
    then (let w = add_utterance v frame in
        if leb (samples_for w w.config.trailing_silence_ms) w.silence_run
          || leb (samples_for w w.config.max_utterance_ms) w.utterance_samples
        then (reset w, ended)
        else (w, none))
    else if leb (samples_for v v.config.min_speech_ms) v.speech_run
    then (record v { active = true; utterance_samples = v.speech_run }, started)
    else (v, none)

-- Both, for a frame of a known verdict.
unfoldable pub advance : {F : Type 0} → EnergyVad F → Bool → ℕ → EnergyVad F × VadEvent
unfolding count_frame transition
advance v voiced frame = transition (count_frame v voiced frame) frame

module _ (fl : Floats) where
  open fl use {F32, F64}

  unfoldable pub new_vad : VadConfig F32 → ℕ → Result AudioError (EnergyVad F32)
  new_vad c rate = do
    validate_rate rate
    reject_if
        (not (fl.is_finite c.rms_threshold)
          || not (fl.le fl.zero c.rms_threshold && fl.le c.rms_threshold fl.one)
          || c.min_speech_ms == 0
          || c.trailing_silence_ms == 0
          || ltb c.max_utterance_ms c.min_speech_ms)
        vad_config_invalid
    ok (record {
      config = c;
      sample_rate = rate;
      speech_run = 0;
      silence_run = 0;
      utterance_samples = 0;
      active = false;
    })

  unfoldable pub sum_squares : F64 → List F32 → F64
  sum_squares acc [] = acc
  sum_squares acc (s ∷ rest) = sum_squares (fl.add64 acc (fl.mul64 (fl.widen s) (fl.widen s))) rest

  -- The root of the mean square against the threshold.
  unfoldable pub is_voiced : F32 → ℕ → List F32 → Bool
  is_voiced threshold frame_len samples =
      fl.le64 (fl.widen threshold)
        (fl.sqrt64 (fl.div64 (sum_squares fl.zero64 samples) (fl.of_u32 frame_len)))

  unfoldable pub process : EnergyVad F32 → List F32 → Result AudioError (EnergyVad F32 × VadEvent)
  process v samples = do
    reject_if (is_empty samples || any (λ s. not (fl.is_finite s)) samples) vad_frame_invalid
    frame_len ← ok_or (fits u32_mod (length samples)) vad_frame_invalid
    ok (advance v (is_voiced v.config.rms_threshold frame_len samples) (length samples))

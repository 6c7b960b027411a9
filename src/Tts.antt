-- ===== src/Tts.antt =====
-- crates/impossible-voice-tts/src/lib.rs: bounded speech synthesis. The native synthesizer and the
-- operations on UTF-8 text are parameters.
pub mod Chunking
pub mod Synthesize
use impossible_voice.Prelude.{
  ℕ, ◌+◌, ◌-◌, Bool, true, false, not, ◌&&◌, ◌||◌, Option, none, some, List, [], ◌∷◌, ltb, ◌==◌,
  if◌then◌else◌, length, chunks, div_ceil, Result, ok, err, ◌>>=◌, ◌>>◌, reject_if, map_err,
}
use impossible_voice.Audio.Float.{Floats}
use impossible_voice.Audio.Admission.{AudioError}
use impossible_voice.Audio.Pcm.{MonoPcm, new_pcm, to_pcm16_le}
use impossible_voice.Audio.Wav.{to_wav_pcm16}
use impossible_voice.Request.{Moment}
use impossible_voice.Request.Limiter.{Limiter, new_limiter, acquire, release}

pub data TtsError : Type 0 where
  invalid_input busy cancelled deadline_exceeded engine output : TtsError

pub record TtsLimits : Type 0 where
  pub max_concurrent : ℕ
  pub max_text_bytes : ℕ
  pub max_output_samples : ℕ
  pub max_chunk_samples : ℕ

abbrev pub default_tts_limits : TtsLimits
default_tts_limits = record {
  max_concurrent = 1;
  max_text_bytes = 4_096;
  max_output_samples = 6_615_000;
  max_chunk_samples = 22_050;
}

-- `str`, with what `synthesize` asks of it.
pub record Texts : Type 1 where
  pub Text : Type 0
  pub trim_is_empty : Text → Bool
  pub byte_len : Text → ℕ
  pub contains_nul : Text → Bool

pub record GeneratedAudio (F : Type 0) : Type 0 where
  pub sample_rate : ℕ
  pub samples : List F

pub record TransportChunk (F : Type 0) : Type 0 where
  pub samples : List F
  pub final_chunk : Bool

pub record Synthesis (F : Type 0) : Type 0 where
  pub audio : MonoPcm F
  pub max_chunk_samples : ℕ

unfoldable pub ensure_active : Moment → Result TtsError (Unit {0})
ensure_active m =
    if m.is_cancelled then err cancelled else if m.is_expired then err deadline_exceeded else ok tt

module _ {F : Type 0} where
  unfoldable pub from_audio : MonoPcm F → ℕ → Result TtsError (Synthesis F)
  from_audio audio max_chunk_samples = do
    reject_if (max_chunk_samples == 0) invalid_input
    ok (record { audio = audio; max_chunk_samples = max_chunk_samples })

  -- `enumerate` from `index` on, with the test for the last chunk.
  unfoldable pub label_chunks : ℕ → ℕ → List (List F) → List (TransportChunk F)
  label_chunks index count [] = []
  label_chunks index count (c ∷ cs) =
      record { samples = c; final_chunk = index + 1 == count } ∷ label_chunks (index + 1) count cs

  unfoldable pub transport_chunks : Synthesis F → List (TransportChunk F)
  transport_chunks s =
      let count = div_ceil (length s.audio.samples) s.max_chunk_samples in
      label_chunks 0 count (chunks s.max_chunk_samples s.audio.samples)

-- `with_backend`: the limiter of a new engine.
unfoldable pub with_backend : TtsLimits → Result TtsError Limiter
with_backend limits = do
  reject_if
      (limits.max_concurrent == 0
        || limits.max_text_bytes == 0
        || limits.max_output_samples == 0
        || limits.max_chunk_samples == 0)
      invalid_input
  ok (new_limiter limits.max_concurrent)

module _ (fl : Floats) (texts : Texts) where
  open fl use {F32}
  open texts use {Text, trim_is_empty, byte_len, contains_nul}

  unfoldable pub pcm16 : Synthesis F32 → List ℕ
  pcm16 s = to_pcm16_le fl s.audio

  unfoldable pub wav : Synthesis F32 → Result TtsError (List ℕ)
  wav s = map_err (λ e. output) (to_wav_pcm16 fl s.audio)

  -- The text and the speed, before anything is done.
  unfoldable pub input_is_invalid : TtsLimits → Text → F32 → Bool
  input_is_invalid limits text speed =
      trim_is_empty text
      || ltb limits.max_text_bytes (byte_len text)
      || contains_nul text
      || not (fl.is_finite speed)
      || not (fl.le fl.half speed && fl.le speed fl.two)

  abbrev pub Backend : Type 0
  Backend = Text → F32 → ℕ → Result TtsError (GeneratedAudio F32)

  -- What runs while the permit is held; `after` is the moment behind the native call.
  unfoldable pub generate :
      Backend → TtsLimits → Moment → Text → F32 → Result TtsError (Synthesis F32)
  unfolding ensure_active
  generate backend limits after text speed = do
    generated ← backend text speed limits.max_output_samples
    ensure_active after
    reject_if (ltb limits.max_output_samples (length generated.samples)) output
    audio ← map_err (λ e. output) (new_pcm fl generated.sample_rate generated.samples)
    ok (record { audio = audio; max_chunk_samples = limits.max_chunk_samples })

  -- The state of the limiter behind the call, and the result. The permit is dropped on every path.
  unfoldable pub synthesize :
      Backend
      → TtsLimits
      → Limiter
      → Moment
      → Moment
      → Text
      → F32
      → Limiter × Result TtsError (Synthesis F32)
  unfolding input_is_invalid ensure_active
  synthesize backend limits limiter before after text speed =
      if input_is_invalid limits text speed
      then (limiter, err invalid_input)
      else elim (ensure_active before) [
        | err e ↦ (limiter, err e)
        | ok _ ↦ elim (acquire limiter) [
          | none ↦ (limiter, err busy)
          | some held ↦ (release held, generate backend limits after text speed)
        ]
      ]

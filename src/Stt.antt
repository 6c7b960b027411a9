-- ===== src/Stt.antt =====
-- crates/impossible-voice-stt/src/lib.rs: bounded speech recognition. The native recognizer is a
-- parameter, with its streams and texts.
pub mod Session
pub mod Wellformed
pub mod Fencing
pub mod Updates
pub mod Start
pub mod Engine
use impossible_voice.Prelude.{
  ℕ, ◌*◌, Bool, ◌||◌, ◌==◌, Option, none, some, List, Result, ok, err, ◌>>=◌, ◌>>◌, reject_if,
  map_err, if◌then◌else◌,
}
use impossible_voice.Audio.Float.{Floats}
use impossible_voice.Audio.Admission.{AudioError, AudioLimits, default_limits}
use impossible_voice.Audio.Pcm.{MonoPcm, validate_pcm}
use impossible_voice.Audio.Resample.{resample}
use impossible_voice.Audio.Vad.{VadConfig, new_vad}
use impossible_voice.Request.{Moment}
use impossible_voice.Request.Limiter.{Limiter, new_limiter, acquire, release}

abbrev pub engine_sample_rate : ℕ
engine_sample_rate = 16_000

abbrev pub vad_frame_samples : ℕ
vad_frame_samples = 320

pub data SttError : Type 0 where
  invalid_input busy cancelled deadline_exceeded audio engine : SttError

pub record SttLimits : Type 0 where
  pub max_concurrent : ℕ
  pub max_chunk_bytes : ℕ
  pub audio : AudioLimits

abbrev pub default_stt_limits : SttLimits
default_stt_limits = record {
  max_concurrent = 2;
  max_chunk_bytes = 64 * 1_024;
  audio = default_limits;
}

pub data TranscriptKind : Type 0 where
  interim final : TranscriptKind

pub record Transcript (Text : Type 0) : Type 0 where
  pub kind : TranscriptKind
  pub text : Text

-- `Backend`, `BackendStream` and `String`. `open_stream n` is what the backend gives for the n-th
-- stream that it is asked for.
pub record Recognizer (F : Type 0) : Type 1 where
  pub Text : Type 0
  pub no_text : Text
  pub text_is_empty : Text → Bool
  pub text_eq : Text → Text → Bool
  pub Stream : Type 0
  pub open_stream : ℕ → Result SttError Stream
  pub accept : Stream → List F → Stream × Result SttError (Unit {0})
  pub read_interim : Stream → Result SttError Text
  pub read_final : Stream → Stream × Result SttError Text

unfoldable pub ensure_active : Moment → Result SttError (Unit {0})
ensure_active m =
    if m.is_cancelled then err cancelled else if m.is_expired then err deadline_exceeded else ok tt

module _ (fl : Floats) where
  open fl use {F32}

  -- The limiter of a new engine.
  unfoldable pub with_backend : SttLimits → VadConfig F32 → Result SttError Limiter
  with_backend limits vad = do
    reject_if (limits.max_concurrent == 0 || limits.max_chunk_bytes == 0) invalid_input
    checked ← map_err (λ e. invalid_input) (new_vad fl vad engine_sample_rate)
    ok (new_limiter limits.max_concurrent)

  module _ (rec : Recognizer F32) where
    open rec use {Text, Stream}

    -- The two calls on the stream, the second behind a look at the context.
    unfoldable pub recognize : Stream → List F32 → Moment → Moment → Result SttError Text
    unfolding ensure_active
    recognize stream samples behind_accept behind_finish = do
      let (listening, accepted) = rec.accept stream samples
      accepted
      ensure_active behind_accept
      text ← (rec.read_final listening).1
      ensure_active behind_finish
      ok text

    -- What runs while the permit is held. `opened` counts the streams asked for before.
    unfoldable pub convert_and_recognize :
        SttLimits → MonoPcm F32 → ℕ → Moment → Moment → Result SttError Text
    unfolding recognize
    convert_and_recognize limits recording opened behind_accept behind_finish = do
      map_err (λ e. audio) (validate_pcm fl limits.audio recording)
      converted ← map_err (λ e. audio) (resample fl recording engine_sample_rate)
      stream ← rec.open_stream opened
      recognize stream converted.samples behind_accept behind_finish

    -- The limiter behind the call, and the result: the permit is dropped on every path.
    unfoldable pub transcribe :
        SttLimits
        → Limiter
        → MonoPcm F32
        → ℕ
        → Moment
        → Moment
        → Moment
        → Limiter × Result SttError Text
    unfolding convert_and_recognize ensure_active
    transcribe limits limiter recording opened before behind_accept behind_finish =
        elim (ensure_active before) [
          | err e ↦ (limiter, err e)
          | ok _ ↦ elim (acquire limiter) [
            | none ↦ (limiter, err busy)
            | some held ↦ (
              release held,
              convert_and_recognize limits recording opened behind_accept behind_finish,
            )
          ]
        ]

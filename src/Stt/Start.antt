-- ===== src/Stt/Start.antt =====
-- `SttEngine::start_stream`, crates/impossible-voice-stt/src/lib.rs.
use impossible_voice.Prelude.{ℕ, false, none, some, [], Result, ok, err, ◌>>=◌, map_err}
use impossible_voice.Audio.Float.{Floats}
use impossible_voice.Audio.Incremental.{new_incremental}
use impossible_voice.Audio.Resample.{new_resampler}
use impossible_voice.Audio.Vad.{VadConfig, new_vad}
use impossible_voice.Request.{Moment}
use impossible_voice.Request.Limiter.{Limiter, acquire, release}
use impossible_voice.Stt.{
  SttError, SttLimits, Recognizer, engine_sample_rate, ensure_active, busy, audio,
}
use impossible_voice.Stt.Session.{StreamingSession}

module _ (fl : Floats) (rec : Recognizer fl.F32) where
  open fl use {F32}
  open rec use {Text, Stream}

  -- The session that `start_stream` builds once it has its permit: one look and one stream are
  -- behind it.
  unfoldable pub build_session :
      SttLimits → VadConfig F32 → ℕ → Result SttError (StreamingSession F32 Text Stream)
  build_session limits vad source_rate = do
    stream ← rec.open_stream 0
    decoder ← map_err (λ e. audio) (new_incremental fl source_rate limits.audio)
    resampler ← map_err (λ e. audio) (new_resampler fl source_rate engine_sample_rate)
    detector ← map_err (λ e. audio) (new_vad fl vad engine_sample_rate)
    ok (record {
      stream = stream;
      decoder = decoder;
      resampler = resampler;
      vad = detector;
      max_chunk_bytes = limits.max_chunk_bytes;
      residual = [];
      last_interim = rec.no_text;
      last_final = none;
      current_has_audio = false;
      finished = false;
      looks = 1;
      calls = [];
      opened = 1;
    })

  -- The session keeps the permit; an error gives it back.
  unfoldable pub hold_for_session :
      Limiter
      → Result SttError (StreamingSession F32 Text Stream)
      → Limiter × Result SttError (StreamingSession F32 Text Stream)
  hold_for_session held (ok session) = (held, ok session)
  hold_for_session held (err e) = (release held, err e)

  unfoldable pub start_stream :
      SttLimits
      → VadConfig F32
      → Limiter
      → Moment
      → ℕ
      → Limiter × Result SttError (StreamingSession F32 Text Stream)
  unfolding build_session hold_for_session
  start_stream limits vad limiter before source_rate = elim (ensure_active before) [
    | err e ↦ (limiter, err e)
    | ok _ ↦ elim (acquire limiter) [
      | none ↦ (limiter, err busy)
      | some held ↦ hold_for_session held (build_session limits vad source_rate)
    ]
  ]

-- ===== src/Tts/Synthesize.antt =====
-- `TtsEngine::synthesize`, crates/impossible-voice-tts/src/lib.rs.
use impossible_voice.Prelude.{◌≤◌, ◌<◌, ◌≡◌, ◌≢◌, false, not, [], arith, length, any, ok}
use impossible_voice.Audio.Float.{Floats, valid_sample}
use impossible_voice.Audio.Pcm.{new_pcm}
use impossible_voice.Request.{Moment}
use impossible_voice.Request.Limiter.{Limiter, acquire}
use impossible_voice.Tts.{
  TtsLimits, Texts, Synthesis, Backend, ensure_active, input_is_invalid, generate, synthesize,
}

module _ (fl : Floats) (texts : Texts) where
  open fl use {F32}
  open texts use {Text}

  -- An audio that is returned was asked for with a valid text and speed, was neither cancelled nor
  -- out of time before the native call nor behind it, had a permit, and is valid and bounded.
  pub synthesize-eq-ok :
      (backend : Backend fl texts) (limits : TtsLimits) (l : Limiter) (before after : Moment)
      (text : Text) (speed : F32) (s : Synthesis F32)
      → (synthesize fl texts backend limits l before after text speed).1 ≡ ok s
      → (input_is_invalid fl texts limits text speed ≡ false)
        × (before.is_cancelled ≡ false)
        × (before.is_expired ≡ false)
        × (after.is_cancelled ≡ false)
        × (after.is_expired ≡ false)
        × (l.active < l.maximum)
        × (s.audio.samples ≢ [])
        × (length s.audio.samples ≤ limits.max_output_samples)
        × (any (λ x. not (valid_sample fl x)) s.audio.samples ≡ false)
        × (s.max_chunk_samples ≡ limits.max_chunk_samples)
  unfolding synthesize generate acquire new_pcm ensure_active
  synthesize-eq-ok backend limits l before after text speed s h = ground arith

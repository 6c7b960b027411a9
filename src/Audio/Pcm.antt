-- ===== src/Audio/Pcm.antt =====
-- `MonoPcm` of crates/impossible-voice-audio/src/lib.rs: validation, and raw PCM16 both ways.
pub mod RoundTrip
use impossible_voice.Prelude.{
  ℕ, ◌/◌, ◌%◌, not, ◌||◌, List, [], ◌∷◌, ◌++◌, ◌==◌, if◌then◌else◌, length, is_empty, any, Result,
  ok, ◌>>=◌, ◌>>◌, reject_if, ok_or,
}
use impossible_voice.Prelude.Word.{u64_mod, checked_mul, u16_le, from_le2}
use impossible_voice.Audio.Float.{Floats, valid_sample, decode_sample}
use impossible_voice.Audio.Admission.{
  AudioError, AudioLimits, no_samples, samples_invalid, pcm16_length, encoded_too_large, admit,
  validate_rate,
}

pub record MonoPcm (F : Type 0) : Type 0 where
  pub sample_rate : ℕ
  pub samples : List F

module _ (fl : Floats) where
  open fl use {F32}

  unfoldable pub new_pcm : ℕ → List F32 → Result AudioError (MonoPcm F32)
  new_pcm rate samples = do
    validate_rate rate
    reject_if (is_empty samples) no_samples
    reject_if (any (λ s. not (valid_sample fl s)) samples) samples_invalid
    ok (record { sample_rate = rate; samples = samples })

  -- `chunks_exact(2)`: a last odd byte is left out.
  unfoldable pub decode_pairs : List ℕ → List F32
  decode_pairs [] = []
  decode_pairs (low ∷ []) = []
  decode_pairs (low ∷ (high ∷ rest)) = decode_sample fl (from_le2 low high) ∷ decode_pairs rest

  unfoldable pub from_pcm16_le : List ℕ → ℕ → AudioLimits → Result AudioError (MonoPcm F32)
  from_pcm16_le bytes rate limits = do
    validate_rate rate
    reject_if (is_empty bytes || not (length bytes % 2 == 0)) pcm16_length
    admit limits (length bytes) rate (length bytes / 2)
    new_pcm rate (decode_pairs bytes)

  unfoldable pub float_to_i16 : F32 → ℕ
  float_to_i16 s =
      if fl.le s fl.minus_one
      then 32_768
      else fl.to_i16 (
          fl.clamp (fl.round (fl.mul (fl.clamp s fl.minus_one fl.one) fl.scale)) (fl.of_i16 32_768)
            (fl.of_i16 32_767))

  unfoldable pub encode_samples : List F32 → List ℕ
  encode_samples [] = []
  encode_samples (s ∷ rest) = u16_le (float_to_i16 s) ++ encode_samples rest

  unfoldable pub to_pcm16_le : MonoPcm F32 → List ℕ
  unfolding encode_samples
  to_pcm16_le p = encode_samples p.samples

  unfoldable pub validate_pcm : AudioLimits → MonoPcm F32 → Result AudioError (Unit {0})
  validate_pcm limits p = do
    encoded ← ok_or (checked_mul u64_mod (length p.samples) 2) encoded_too_large
    admit limits encoded p.sample_rate (length p.samples)

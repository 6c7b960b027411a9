-- ===== src/Audio/Admission.antt =====
-- `AudioError`, `AudioLimits` and the checks that stand before the decoders in
-- crates/impossible-voice-audio/src/lib.rs.
use impossible_voice.Prelude.{
  ℕ, ◌*◌, ◌≤◌, ◌≡◌, Bool, false, ◌||◌, List, [], ◌∷◌, arith, ltb, ◌==◌, if◌then◌else◌, Result, ok,
  err, ◌>>=◌, ◌>>◌, reject_if, ok_or,
}
use impossible_voice.Prelude.Word.{u64_mod, checked_mul}

-- The messages that an `AudioError` carries. `index_out_of_range` is none of them: it stands for
-- the abort of the program by an index out of range.
pub data AudioError : Type 0 where
  limits_zero encoded_too_large duration_too_long no_samples samples_invalid : AudioError
  pcm16_length pcm16_partial rate_unsupported : AudioError
  wav_malformed wav_length wav_chunk_malformed wav_format_missing wav_data_missing : AudioError
  wav_format_malformed wav_encoding wav_too_large : AudioError
  resample_too_large resample_invalid vad_config_invalid vad_frame_invalid : AudioError
  index_out_of_range : AudioError

pub record AudioLimits : Type 0 where
  pub max_encoded_bytes : ℕ
  pub max_duration_ms : ℕ

unfoldable pub new_limits : ℕ → ℕ → Result AudioError AudioLimits
new_limits bytes ms =
    if bytes == 0 || ms == 0
    then err limits_zero
    else ok (record { max_encoded_bytes = bytes; max_duration_ms = ms })

abbrev pub default_limits : AudioLimits
default_limits = record { max_encoded_bytes = 33_554_432; max_duration_ms = 300_000 }

abbrev pub supported_sample_rates : List ℕ
supported_sample_rates = 8_000 ∷ 16_000 ∷ 22_050 ∷ 24_000 ∷ 32_000 ∷ 44_100 ∷ 48_000 ∷ []

abbrev contains : ℕ → List ℕ → Bool
contains a [] = false
contains a (x ∷ xs) = a == x || contains a xs

unfoldable pub validate_rate : ℕ → Result AudioError (Unit {0})
validate_rate rate = if contains rate supported_sample_rates then ok tt else err rate_unsupported

-- `usize` and `u64` have the same width, so `u64::try_from(samples)` is the identity.
unfoldable pub admit : AudioLimits → ℕ → ℕ → ℕ → Result AudioError (Unit {0})
admit l encoded_bytes sample_rate samples = do
  reject_if (ltb l.max_encoded_bytes encoded_bytes) encoded_too_large
  numerator ← ok_or (checked_mul u64_mod samples 1_000) duration_too_long
  limit ← ok_or (checked_mul u64_mod sample_rate l.max_duration_ms) duration_too_long
  reject_if (ltb limit numerator) duration_too_long

-- Admission of a larger stream admits every smaller one.
pub admit_mono :
    (l : AudioLimits) (b b' rate n n' : ℕ)
    → b ≤ b'
    → n ≤ n'
    → admit l b' rate n' ≡ ok tt
    → admit l b rate n ≡ ok tt
unfolding admit
admit_mono l b b' rate n n' hb hn h = ground arith

-- What admission bounds: the bytes, and the duration in milliseconds.
pub admit_bounds :
    (l : AudioLimits) (b rate n : ℕ)
    → admit l b rate n ≡ ok tt
    → (b ≤ l.max_encoded_bytes) × (n * 1_000 ≤ rate * l.max_duration_ms)
unfolding admit
admit_bounds l b rate n h = ground arith

pub validate_rate_bounds :
    (rate : ℕ) → validate_rate rate ≡ ok tt → (8_000 ≤ rate) × (rate ≤ 48_000)
unfolding validate_rate
validate_rate_bounds rate h = ground arith

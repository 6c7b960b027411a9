-- ===== src/Tests/Pcm.antt =====
-- The decoders and encoders of crates/impossible-voice-audio/src/lib.rs on small recordings.
use impossible_voice.Prelude.{
  get_elem?, length, ◌*◌, ℕ, ◌≤◌, ◌≡◌, ◌≢◌, refl, none, some, List, [], ◌∷◌, arith, ok, err, ◌>>=◌,
}
use impossible_voice.Audio.Fixed.{Fixed, fixed, fixed-ExactI16}
use impossible_voice.Audio.Admission.{
  default_limits, wav_malformed, pcm16_length, rate_unsupported, admit, validate_rate,
}
use impossible_voice.Audio.Pcm.{
  MonoPcm, new_pcm, decode_pairs, from_pcm16_le, float_to_i16, to_pcm16_le,
}
use impossible_voice.Audio.Pcm.RoundTrip.{from_pcm16_le-at, to_pcm16_le-from_pcm16_le}
use impossible_voice.Audio.Wav.{
  wav_bytes, from_wav, to_wav_pcm16, check_container, decode_chunks, chunk_loop, read_chunks,
  read_chunk, take_chunk, read_u32, parse_wave_format,
}
use impossible_voice.Audio.Wav.RoundTrip.{
  from_wav-to_wav_pcm16, from_wav-to_wav_pcm16-from_pcm16_le, from_wav-ne-none,
}
use impossible_voice.Audio.Incremental.{new_incremental, push_all, finish}
use impossible_voice.Audio.Incremental.Frames.{push_all-from_pcm16_le}

-- Three samples: 1, -32768 and -2.
abbrev bytes : List ℕ
bytes = 1 ∷ 0 ∷ 0 ∷ 128 ∷ 254 ∷ 255 ∷ []

abbrev recording : MonoPcm Fixed
recording = record { sample_rate = 8_000; samples = decode_pairs fixed bytes }

abbrev file : List ℕ
file = wav_bytes 42 8_000 16_000 6 bytes

decoded : from_pcm16_le fixed bytes 8_000 default_limits ≡ ok recording
unfolding from_pcm16_le new_pcm validate_rate admit decode_pairs
decoded = refl

written : to_wav_pcm16 fixed recording ≡ ok file
unfolding to_wav_pcm16 to_pcm16_le decode_pairs float_to_i16
written = refl

read_back : from_wav fixed file default_limits ≡ some (ok recording)
unfolding from_wav check_container decode_chunks chunk_loop read_chunks read_chunk take_chunk
    read_u32 parse_wave_format from_pcm16_le new_pcm validate_rate admit decode_pairs
read_back = refl

refused :
    (from_pcm16_le fixed (1 ∷ []) 8_000 default_limits ≡ err pcm16_length)
    × (from_pcm16_le fixed bytes 11_025 default_limits ≡ err rate_unsupported)
    × (from_wav fixed bytes default_limits ≡ some (err wav_malformed))
unfolding from_pcm16_le from_wav check_container validate_rate
refused = (refl, refl, refl)

eight_thousand : validate_rate 8_000 ≡ ok tt
unfolding validate_rate
eight_thousand = refl

admitted : (n : ℕ) (k : ℕ) → n ≤ 100 → k ≤ 100 → admit default_limits n 8_000 k ≡ ok tt
unfolding admit
admitted n k h l = ground arith

admitted_file : admit default_limits 50 48_000 0 ≡ ok tt
unfolding admit
admitted_file = refl

from_wav-to_wav_pcm16-from_pcm16_le_example :
    from_wav fixed file default_limits ≡ some (ok recording)
from_wav-to_wav_pcm16-from_pcm16_le_example =
    from_wav-to_wav_pcm16-from_pcm16_le fixed default_limits fixed-ExactI16 bytes 8_000 recording
      file (omega arith) decoded written (omega arith) admitted_file

from_wav-to_wav_pcm16_example :
    from_wav fixed file default_limits
    ≡ some (from_pcm16_le fixed (to_pcm16_le fixed recording) 8_000 default_limits)
from_wav-to_wav_pcm16_example =
    from_wav-to_wav_pcm16 fixed default_limits recording file written eight_thousand (omega arith)
      admitted_file

from_wav-ne-none_example : from_wav fixed bytes default_limits ≢ none
from_wav-ne-none_example = from_wav-ne-none fixed default_limits bytes

to_pcm16_le-from_pcm16_le_example :
    (to_pcm16_le fixed recording ≡ bytes) × (recording.sample_rate ≡ 8_000)
to_pcm16_le-from_pcm16_le_example =
    to_pcm16_le-from_pcm16_le fixed fixed-ExactI16 bytes 8_000 default_limits (omega arith) decoded

from_pcm16_le-at_example :
    (2 * length recording.samples ≡ length bytes)
    × (get_elem? recording.samples 1 ≡ some (fixed.div (fixed.of_i16 32_768) fixed.scale))
from_pcm16_le-at_example =
    from_pcm16_le-at fixed bytes 8_000 default_limits recording 1 0 128 decoded refl refl

abbrev frames : List (List ℕ)
frames = (1 ∷ []) ∷ ([] ∷ ((0 ∷ 0 ∷ 128 ∷ 254 ∷ []) ∷ ((255 ∷ []) ∷ [])))

push_all-from_pcm16_le_example :
    (do
      s ← new_incremental fixed 8_000 default_limits
      done ← push_all fixed s frames
      finish fixed done)
    ≡ from_pcm16_le fixed bytes 8_000 default_limits
push_all-from_pcm16_le_example =
    push_all-from_pcm16_le fixed 8_000 default_limits frames eight_thousand (λ e. cc) refl
      (omega arith) (admitted 6 3 (omega arith) (omega arith))

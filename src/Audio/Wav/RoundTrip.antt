-- ===== src/Audio/Wav/RoundTrip.antt =====
-- `from_wav` against `to_wav_pcm16`, crates/impossible-voice-audio/src/lib.rs.
use impossible_voice.Prelude.{
  ℕ, ◌+◌, ◌*◌, ◌%◌, ◌<◌, ◌≡◌, refl, ap, ◌∙◌, ◌≢◌, none, some, List, [], ◌∷◌, ◌++◌, arith, lt→ltb,
  le→ltb, append-nil, length, ok, ok_or, ◌>>=◌,
}
use impossible_voice.Prelude.Word.{
  u64_mod, u32_mod, fits, checked_add, checked_mul, u32_le, u16_le, from_le4-u32_le,
}
use impossible_voice.Audio.Float.{Floats, ExactI16}
use impossible_voice.Audio.Admission.{
  wav_too_large, AudioLimits, admit, validate_rate, validate_rate_bounds,
}
use impossible_voice.Audio.Pcm.{MonoPcm, from_pcm16_le, encode_samples, to_pcm16_le}
use impossible_voice.Audio.Pcm.RoundTrip.{AllBytes, to_pcm16_le-from_pcm16_le}
use impossible_voice.Audio.Wav.{
  Chunks, wav_bytes, read_u32, take_chunk, read_chunks, chunk_loop, parse_wave_format,
  check_container, decode_chunks, from_wav, to_wav_pcm16,
}
use impossible_voice.Audio.Wav.Loop.{read_chunk-IsChunk, chunk_loop-ne-none}

-- The body of the format chunk that `to_wav_pcm16` writes.
abbrev format_body : ℕ → List ℕ
format_body rate =
    u16_le 1 ++ (u16_le 1 ++ (u32_le rate ++ (u32_le (rate * 2) ++ (u16_le 2 ++ u16_le 16))))

parse_wave_format-format_body :
    (rate : ℕ) → validate_rate rate ≡ ok tt → parse_wave_format (format_body rate) ≡ ok rate
unfolding parse_wave_format
parse_wave_format-format_body rate v =
    let b = validate_rate_bounds rate v in
    rw (from_le4-u32_le rate (omega arith), from_le4-u32_le (rate * 2) (omega arith), v)
      (ground arith)

module _ (rate : ℕ) (v : validate_rate rate ≡ ok tt) (pcm : List ℕ) where
  module _ (small : length pcm + 44 < u32_mod) (even : length pcm % 2 ≡ 0) where
    abbrev written : List ℕ
    written = wav_bytes (length pcm + 36) rate (rate * 2) (length pcm) pcm

    chunk_loop-written :
        chunk_loop written ≡ some (ok (record { format = some rate; payload = some pcm }))
    unfolding chunk_loop read_chunks take_chunk
    chunk_loop-written = rw (
      lt→ltb 12 (length written) (omega arith),
      read_chunk-IsChunk written 12 b'f' b'm' b't' b' ' (format_body rate)
          (b'd' ∷ b'a' ∷ b't' ∷ b'a' ∷ (u32_le (length pcm) ++ pcm)) refl (omega arith)
          (omega arith) (record { format = none; payload = none })
          (record { format = some rate; payload = none })
          (rw (parse_wave_format-format_body rate v)),
      lt→ltb 36 (length written) (omega arith),
      read_chunk-IsChunk written 36 b'd' b'a' b't' b'a' pcm [] (rw (append-nil pcm)) (omega arith)
          (omega arith) (record { format = some rate; payload = none })
          (record { format = some rate; payload = some pcm }) refl,
      le→ltb (36 + 8 + length pcm + length pcm % 2) (length written) (omega arith),
    )

    -- The container checks accept the file if its size is admitted.
    check_container-written :
        (limits : AudioLimits)
        → admit limits (length written) 48_000 0 ≡ ok tt
        → check_container written limits ≡ ok tt
    unfolding check_container read_u32
    check_container-written limits a =
        rw
          (
            le→ltb (length written) 12 (omega arith),
            a,
            from_le4-u32_le (length pcm + 36) (omega arith),
            lt→ltb (length pcm + 36 + 8) u64_mod (omega arith),
          )
          (ground arith)

header_fields :
    (n rate : ℕ) (write : ℕ → ℕ → ℕ → List ℕ) (out : List ℕ)
    → (do
      data_len ← ok_or (fits u32_mod n) wav_too_large
      riff_len ← ok_or (checked_add u32_mod data_len 36) wav_too_large
      byte_rate ← ok_or (checked_mul u32_mod rate 2) wav_too_large
      ok (write riff_len byte_rate data_len))
      ≡ ok out
    → write (n + 36) (rate * 2) n ≡ out
header_fields n rate write out e = ground arith

length-encode_samples_even :
    (fl : Floats) (xs : List fl.F32) → length (encode_samples fl xs) % 2 ≡ 0
unfolding encode_samples
length-encode_samples_even fl [] = refl
length-encode_samples_even fl (x ∷ xs) = omega (arith, length-encode_samples_even fl xs)

module _ (fl : Floats) (limits : AudioLimits) where
  open fl use {F32}

  from_wav-chunk_loop :
      (bytes : List ℕ) (found : Chunks)
      → check_container bytes limits ≡ ok tt
      → chunk_loop bytes ≡ some (ok found)
      → from_wav fl bytes limits ≡ some (decode_chunks fl limits (ok found))
  unfolding from_wav
  from_wav-chunk_loop bytes found c l = rw (c, from_wav) (rw l)

  from_wav-file :
      (rate : ℕ) (pcm : List ℕ)
      → validate_rate rate ≡ ok tt
      → length pcm + 44 < u32_mod
      → length pcm % 2 ≡ 0
      → admit limits
          (length (wav_bytes (length pcm + 36) rate (rate * 2) (length pcm) pcm))
          48_000
          0
        ≡ ok tt
      → from_wav fl (wav_bytes (length pcm + 36) rate (rate * 2) (length pcm) pcm) limits
        ≡ some (from_pcm16_le fl pcm rate limits)
  unfolding decode_chunks
  from_wav-file rate pcm v small even a =
      from_wav-chunk_loop _ _ (check_container-written rate v pcm small even limits a)
        (chunk_loop-written rate v pcm small even)

  to_wav_pcm16-eq-ok :
      (p : MonoPcm F32) (file : List ℕ)
      → to_wav_pcm16 fl p ≡ ok file
      → wav_bytes
          (length (to_pcm16_le fl p) + 36)
          p.sample_rate
          (p.sample_rate * 2)
          (length (to_pcm16_le fl p))
          (to_pcm16_le fl p)
        ≡ file
  unfolding to_wav_pcm16
  to_wav_pcm16-eq-ok p file e =
      header_fields _ p.sample_rate (λ a b c. wav_bytes a p.sample_rate b c _) file e

  from_pcm16_le_rate :
      (bytes : List ℕ) (rate : ℕ) {p : MonoPcm F32}
      → from_pcm16_le fl bytes rate limits ≡ ok p
      → validate_rate rate ≡ ok tt
  unfolding from_pcm16_le
  from_pcm16_le_rate bytes rate e = ground arith

  -- A recording that `to_wav_pcm16` writes, at a supported rate, is read by `from_wav` as its raw
  -- PCM16 is read by `from_pcm16_le`, if the file is shorter than 4 GiB and its size is admitted.
  pub from_wav-to_wav_pcm16 :
      (p : MonoPcm F32) (file : List ℕ)
      → to_wav_pcm16 fl p ≡ ok file
      → validate_rate p.sample_rate ≡ ok tt
      → length file < u32_mod
      → admit limits (length file) 48_000 0 ≡ ok tt
      → from_wav fl file limits ≡ some (from_pcm16_le fl (to_pcm16_le fl p) p.sample_rate limits)
  unfolding to_pcm16_le
  from_wav-to_wav_pcm16 p out e v small a =
      let w = to_wav_pcm16-eq-ok p out e in
      rw (← w) (
        from_wav-file p.sample_rate (to_pcm16_le fl p) v (let s = rw (← w) at small in omega arith)
          (length-encode_samples_even fl p.samples) (rw (← w) at a))

  -- With floats that hold 16-bit samples exactly, a recording decoded from raw PCM16 bytes, written
  -- as a WAV file and read back, is the same recording, if the file is shorter than 4 GiB and its
  -- size is admitted.
  pub from_wav-to_wav_pcm16-from_pcm16_le :
      ExactI16 fl
      → (bytes : List ℕ) (rate : ℕ) (p : MonoPcm F32) (file : List ℕ) → AllBytes bytes
      → from_pcm16_le fl bytes rate limits ≡ ok p
      → to_wav_pcm16 fl p ≡ ok file
      → length file < u32_mod
      → admit limits (length file) 48_000 0 ≡ ok tt
      → from_wav fl file limits ≡ some (ok p)
  from_wav-to_wav_pcm16-from_pcm16_le ex bytes rate p out b d e small a =
      let (same, at_rate) = to_pcm16_le-from_pcm16_le fl ex bytes rate limits b d in
      from_wav-to_wav_pcm16 p out e (rw at_rate (from_pcm16_le_rate bytes rate d)) small a
      ∙ ap (λ b. some (from_pcm16_le fl b p.sample_rate limits)) same
      ∙ ap (λ r. some (from_pcm16_le fl bytes r limits)) at_rate
      ∙ ap some d

  -- `from_wav` returns on every input: the loop over the chunks ends.
  pub from_wav-ne-none : (bytes : List ℕ) → from_wav fl bytes limits ≢ none
  unfolding from_wav
  from_wav-ne-none bytes = ground (arith, chunk_loop-ne-none bytes)

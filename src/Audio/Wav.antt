-- ===== src/Audio/Wav.antt =====
-- RIFF/WAVE in crates/impossible-voice-audio/src/lib.rs: `from_wav`, `to_wav_pcm16` and the
-- functions that they call.
use impossible_voice.Prelude.{
  ℕ, zero, suc, ◌+◌, ◌-◌, ◌%◌, Bool, true, false, not, ◌&&◌, ◌||◌, Option, none, some, List, [],
  ◌∷◌, ◌++◌, ltb, ◌==◌, if◌then◌else◌, length, take, drop, Result, ok, err, ◌>>=◌, ◌>>◌, reject_if,
  ok_or,
}
use impossible_voice.Prelude.Word.{
  u64_mod, u32_mod, fits, checked_add, checked_mul, saturating_mul, u16_le, u32_le, from_le2,
  from_le4,
}
pub mod Loop
pub mod RoundTrip
use mathlib.Core.Option
use impossible_voice.Prelude.Bytes.{bytes_eq}
use impossible_voice.Audio.Float.{Floats}
use impossible_voice.Audio.Admission.{
  AudioError, AudioLimits, wav_malformed, wav_length, wav_chunk_malformed, wav_format_missing,
  wav_data_missing, wav_format_malformed, wav_encoding, wav_too_large, index_out_of_range, admit,
  validate_rate,
}
use impossible_voice.Audio.Pcm.{MonoPcm, from_pcm16_le, to_pcm16_le}

-- `&bytes[from..to]`, where the range lies within the bytes.
abbrev pub slice : List ℕ → ℕ → ℕ → List ℕ
slice bytes from to = take (to - from) (drop from bytes)

-- b"RIFF", b"WAVE", b"fmt " and b"data".
abbrev pub riff : List ℕ
riff = b'R' ∷ b'I' ∷ b'F' ∷ b'F' ∷ []

abbrev pub wave : List ℕ
wave = b'W' ∷ b'A' ∷ b'V' ∷ b'E' ∷ []

abbrev pub fmt_tag : List ℕ
fmt_tag = b'f' ∷ b'm' ∷ b't' ∷ b' ' ∷ []

abbrev pub data_tag : List ℕ
data_tag = b'd' ∷ b'a' ∷ b't' ∷ b'a' ∷ []

-- Four bytes or more give the word of the first four.
first_u32 : List ℕ → Result AudioError ℕ
first_u32 (a ∷ (b ∷ (c ∷ (d ∷ rest)))) = ok (from_le4 a b c d)
first_u32 _ = err wav_malformed

unfoldable pub read_u32 : List ℕ → ℕ → Result AudioError ℕ
unfolding first_u32
read_u32 bytes offset = first_u32 (drop offset bytes)

-- The checks of `parse_wave_format` on the fields that it reads.
unfoldable pub check_wave_format : ℕ → ℕ → ℕ → ℕ → ℕ → ℕ → Result AudioError ℕ
check_wave_format format channels sample_rate byte_rate block_align bits = do
  validate_rate sample_rate
  reject_if
      (not (format == 1)
        || not (channels == 1)
        || not (bits == 16)
        || not (block_align == 2)
        || not (byte_rate == saturating_mul u32_mod sample_rate 2))
      wav_encoding
  ok sample_rate

unfoldable pub parse_wave_format : List ℕ → Result AudioError ℕ
unfolding check_wave_format
parse_wave_format
      (f0
        ∷ (f1
            ∷ (c0
                ∷ (c1
                    ∷ (s0
                        ∷ (s1
                            ∷ (s2
                                ∷ (s3
                                    ∷ (r0
                                        ∷ (r1
                                            ∷ (r2
                                                ∷ (r3
                                                    ∷ (a0 ∷ (a1 ∷ (b0 ∷ (b1 ∷ rest)))))))))))))))) =
    check_wave_format (from_le2 f0 f1) (from_le2 c0 c1) (from_le4 s0 s1 s2 s3)
      (from_le4 r0 r1 r2 r3) (from_le2 a0 a1) (from_le2 b0 b1)
parse_wave_format _ = err wav_format_malformed

-- The chunks found so far: the sample rate of the first format chunk, and the first data chunk.
pub record Chunks : Type 0 where
  pub format : Option ℕ
  pub payload : Option (List ℕ)

abbrev pub is_none {ℓ} : {A : Type ℓ} → Option A → Bool
is_none none = true
is_none (some a) = false

-- The `match` on a chunk's tag.
unfoldable pub take_chunk : Chunks → List ℕ → List ℕ → Result AudioError Chunks
take_chunk found tag body =
    if bytes_eq tag fmt_tag && is_none found.format
    then (do rate ← parse_wave_format body; ok (record found { format = some rate }))
    else if bytes_eq tag data_tag && is_none found.payload
    then ok (record found { payload = some body })
    else ok found

-- One round of the `while` loop: the chunk at `offset`, and the offset behind it.
unfoldable pub read_chunk : List ℕ → ℕ → Chunks → Result AudioError (ℕ × Chunks)
read_chunk bytes offset found = do
  start ← ok_or (checked_add u64_mod offset 8) wav_chunk_malformed
  reject_if (ltb (length bytes) start) wav_chunk_malformed
  size ← read_u32 bytes (offset + 4)
  end ← ok_or (checked_add u64_mod start size) wav_chunk_malformed
  reject_if (ltb (length bytes) end) wav_chunk_malformed
  found' ← take_chunk found (slice bytes offset (offset + 4)) (slice bytes start end)
  next ← ok_or (checked_add u64_mod end (size % 2)) wav_chunk_malformed
  ok (next, found')

-- The loop. `none` means that the fuel ran out.
unfoldable pub read_chunks : ℕ → List ℕ → ℕ → Chunks → Option (Result AudioError Chunks)
read_chunks zero bytes offset found = none
read_chunks (suc fuel) bytes offset found =
    if ltb offset (length bytes)
    then elim (read_chunk bytes offset found) [
      | ok (next, found') ↦ read_chunks fuel bytes next found'
      | err e ↦ some (err e)
    ]
    else some (ok found)

unfoldable pub chunk_loop : List ℕ → Option (Result AudioError Chunks)
chunk_loop bytes =
    read_chunks (suc (length bytes)) bytes 12 (record { format = none; payload = none })

-- The checks before the loop.
unfoldable pub check_container : List ℕ → AudioLimits → Result AudioError (Unit {0})
check_container bytes limits = do
  reject_if
      (ltb (length bytes) 12
        || not (bytes_eq (take 4 bytes) riff)
        || not (bytes_eq (slice bytes 8 12) wave))
      wav_malformed
  admit limits (length bytes) 48_000 0
  size ← read_u32 bytes 4
  declared ← ok_or (checked_add u64_mod size 8) wav_malformed
  reject_if (not (declared == length bytes)) wav_length

-- The header and the samples.
abbrev pub wav_bytes : ℕ → ℕ → ℕ → ℕ → List ℕ → List ℕ
wav_bytes riff_len sample_rate byte_rate data_len pcm =
    riff
    ++ (u32_le riff_len
        ++ (wave
            ++ (fmt_tag
                ++ (u32_le 16
                    ++ (u16_le 1
                        ++ (u16_le 1
                            ++ (u32_le sample_rate
                                ++ (u32_le byte_rate
                                    ++ (u16_le 2
                                        ++ (u16_le 16
                                            ++ (data_tag ++ (u32_le data_len ++ pcm))))))))))))

module _ (fl : Floats) where
  open fl use {F32}

  -- What follows the loop.
  unfoldable pub decode_chunks :
      AudioLimits → Result AudioError Chunks → Result AudioError (MonoPcm F32)
  decode_chunks limits found = do
    chunks ← found
    sample_rate ← ok_or chunks.format wav_format_missing
    pcm ← ok_or chunks.payload wav_data_missing
    from_pcm16_le fl pcm sample_rate limits

  unfoldable pub from_wav : List ℕ → AudioLimits → Option (Result AudioError (MonoPcm F32))
  from_wav bytes limits = elim (check_container bytes limits) [
    | err e ↦ some (err e)
    | ok _ ↦ Option.map (decode_chunks limits) (chunk_loop bytes)
  ]

  unfoldable pub to_wav_pcm16 : MonoPcm F32 → Result AudioError (List ℕ)
  to_wav_pcm16 p = do
    let pcm = to_pcm16_le fl p
    data_len ← ok_or (fits u32_mod (length pcm)) wav_too_large
    riff_len ← ok_or (checked_add u32_mod data_len 36) wav_too_large
    byte_rate ← ok_or (checked_mul u32_mod p.sample_rate 2) wav_too_large
    ok (wav_bytes riff_len p.sample_rate byte_rate data_len pcm)

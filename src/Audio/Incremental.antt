-- ===== src/Audio/Incremental.antt =====
-- `IncrementalPcm16` of crates/impossible-voice-audio/src/lib.rs: PCM16 bytes in frames of any size.
pub mod Frames
use impossible_voice.Prelude.{
  ℕ, ◌+◌, ◌/◌, Bool, true, false, Option, none, some, List, [], ◌∷◌, ◌++◌, length, Result, ok, err,
  ◌>>=◌, ◌>>◌, reject_if, ok_or,
}
use impossible_voice.Prelude.Word.{u64_mod, checked_add, saturating_mul, from_le2}
use impossible_voice.Audio.Float.{Floats, decode_sample}
use impossible_voice.Audio.Admission.{
  AudioError, AudioLimits, encoded_too_large, pcm16_partial, admit, validate_rate,
}
use impossible_voice.Audio.Pcm.{MonoPcm, new_pcm}

-- `pending` is the low byte of a sample whose high byte has not come yet.
pub record IncrementalPcm16 (F : Type 0) : Type 0 where
  pub sample_rate : ℕ
  pub limits : AudioLimits
  pub samples : List F
  pub pending : Option ℕ

abbrev pub count_pending : Option ℕ → ℕ
count_pending none = 0
count_pending (some b) = 1

module _ (fl : Floats) where
  open fl use {F32}

  unfoldable pub new_incremental : ℕ → AudioLimits → Result AudioError (IncrementalPcm16 F32)
  new_incremental rate limits = do
    validate_rate rate
    ok (record { sample_rate = rate; limits = limits; samples = []; pending = none })

  -- The `while` loop over the pairs that are left, and the byte that it leaves over.
  unfoldable pub drain_pairs : List ℕ → List F32 × Option ℕ
  drain_pairs [] = ([], none)
  drain_pairs (low ∷ []) = ([], some low)
  drain_pairs (low ∷ (high ∷ rest)) =
      let (decoded, pending) = drain_pairs rest in
      (decode_sample fl (from_le2 low high) ∷ decoded, pending)

  -- The same from a pending byte on: the first byte of the frame completes it.
  unfoldable pub decode_frame : Option ℕ → List ℕ → List F32 × Option ℕ
  decode_frame none bytes = drain_pairs bytes
  decode_frame (some low) [] = ([], some low)
  decode_frame (some low) (high ∷ rest) =
      let (decoded, pending) = drain_pairs rest in
      (decode_sample fl (from_le2 low high) ∷ decoded, pending)

  abbrev pub existing_bytes : IncrementalPcm16 F32 → ℕ
  existing_bytes s = saturating_mul u64_mod (length s.samples) 2 + count_pending s.pending

  -- The new state and the samples that the frame completes.
  unfoldable pub push :
      IncrementalPcm16 F32 → List ℕ → Result AudioError (IncrementalPcm16 F32 × List F32)
  push s bytes = do
    total ← ok_or (checked_add u64_mod (existing_bytes s) (length bytes)) encoded_too_large
    admit s.limits total s.sample_rate (total / 2)
    let frame = decode_frame s.pending bytes
    ok (record s { samples = s.samples ++ frame.0; pending = frame.1 }, frame.0)

  abbrev pub has_pending : Option ℕ → Bool
  has_pending none = false
  has_pending (some b) = true

  unfoldable pub finish : IncrementalPcm16 F32 → Result AudioError (MonoPcm F32)
  finish s = do reject_if (has_pending s.pending) pcm16_partial; new_pcm fl s.sample_rate s.samples

  -- The frames one after the other; it stops at the first that is refused.
  unfoldable pub push_all :
      IncrementalPcm16 F32 → List (List ℕ) → Result AudioError (IncrementalPcm16 F32)
  push_all s [] = ok s
  push_all s (frame ∷ frames) = do pushed ← push s frame; push_all pushed.0 frames

-- ===== src/Audio/Wav/Loop.antt =====
-- The `while` loop of `from_wav`, crates/impossible-voice-audio/src/lib.rs: each round moves
-- forward, so the loop ends, and a well-formed chunk is read whole.
use impossible_voice.Prelude.{
  ℕ, zero, suc, ◌+◌, ◌%◌, ◌≤◌, ◌<◌, ◌≡◌, refl, ap, ◌∙◌, ◌≢◌, none, List, [], ◌∷◌, ◌++◌, arith,
  lt→ltb, le→ltb, length, take, drop, take-length, drop-add, Result, ok, err,
}
use impossible_voice.Prelude.Word.{u64_mod, u32_mod, u32_le, from_le4-u32_le}
use impossible_voice.Audio.Admission.{AudioError}
use impossible_voice.Audio.Wav.{
  Chunks, slice, read_u32, first_u32, take_chunk, read_chunk, read_chunks, chunk_loop,
}

read_chunk_advances :
    (bytes : List ℕ) (offset : ℕ) (found : Chunks) (next : ℕ) (found' : Chunks)
    → read_chunk bytes offset found ≡ ok (next, found')
    → offset + 8 ≤ next
unfolding read_chunk
read_chunk_advances bytes offset found next found' e = ground arith

read_chunks_total :
    (fuel : ℕ) (bytes : List ℕ) (offset : ℕ) (found : Chunks)
    → 0 < fuel
    → length bytes < offset + fuel
    → read_chunks fuel bytes offset found ≢ none
unfolding read_chunks
read_chunks_total zero bytes offset found p h = elim p [ ]
read_chunks_total (suc fuel) bytes offset found p h =
    go (read_chunk bytes offset found) refl (read_chunks_total fuel bytes)
  where
    go :
        (r : Result AudioError (ℕ × Chunks))
        → read_chunk bytes offset found ≡ r
        → ((next : ℕ) (f : Chunks)
            → 0 < fuel
            → length bytes < next + fuel
            → read_chunks fuel bytes next f ≢ none)
        → read_chunks (suc fuel) bytes offset found ≢ none
    go (ok (next, f)) e ih =
        rw (e, read_chunks)
          (ground (arith, read_chunk_advances bytes offset found next f e, ih next f))
    go (err x) e ih = rw (e, read_chunks) (ground arith)

-- The loop ends within its fuel on every input.
pub chunk_loop-ne-none : (bytes : List ℕ) → chunk_loop bytes ≢ none
unfolding chunk_loop
chunk_loop-ne-none bytes =
    read_chunks_total (suc (length bytes)) bytes 12 _ (omega arith) (omega arith)

module _ (bytes : List ℕ) (offset : ℕ) (t0 t1 t2 t3 : ℕ) (body tail : List ℕ) where
  -- The bytes from the offset on are a chunk with its header, and what follows it.
  abbrev pub IsChunk : Type 0
  IsChunk = drop offset bytes ≡ t0 ∷ (t1 ∷ (t2 ∷ (t3 ∷ (u32_le (length body) ++ (body ++ tail)))))

  module _ (at : IsChunk) (len : length bytes ≡ offset + 8 + length body + length tail)
      (small : length bytes < u32_mod) where
    slice_body : slice bytes (offset + 8) (offset + 8 + length body) ≡ body
    slice_body =
        ap (λ k. take k (drop (offset + 8) bytes)) {y = length body} (omega arith)
        ∙ ap (take (length body)) (drop-add offset 8 bytes ∙ ap (drop 8) at)
        ∙ take-length body tail

    slice_tag : slice bytes offset (offset + 4) ≡ t0 ∷ t1 ∷ t2 ∷ t3 ∷ []
    slice_tag = ap (λ k. take k (drop offset bytes)) {y = 4} (omega arith) ∙ ap (take 4) at

    size_field : read_u32 bytes (offset + 4) ≡ ok (length body)
    unfolding read_u32
    size_field =
        ap first_u32 (drop-add offset 4 bytes ∙ ap (drop 4) at)
        ∙ ap ok (from_le4-u32_le (length body) (omega arith))

    -- A round of the loop reads the chunk and moves behind it, past the pad byte of an odd body.
    pub read_chunk-IsChunk :
        (found found' : Chunks)
        → take_chunk found (t0 ∷ t1 ∷ t2 ∷ t3 ∷ []) body ≡ ok found'
        → read_chunk bytes offset found ≡ ok (offset + 8 + length body + length body % 2, found')
    unfolding read_chunk
    read_chunk-IsChunk found found' e = rw (
      lt→ltb (offset + 8) u64_mod (omega arith),
      le→ltb (length bytes) (offset + 8) (omega arith),
      size_field,
      lt→ltb (offset + 8 + length body) u64_mod (omega arith),
      le→ltb (length bytes) (offset + 8 + length body) (omega arith),
      slice_body,
      slice_tag,
      e,
      lt→ltb (offset + 8 + length body + length body % 2) u64_mod (omega arith),
    )

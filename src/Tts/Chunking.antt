-- ===== src/Tts/Chunking.antt =====
-- `Synthesis::transport_chunks`, crates/impossible-voice-tts/src/lib.rs.
use impossible_voice.Prelude.{
  ℕ, ◌+◌, ◌<◌, ◌≡◌, refl, ap, true, false, List, [], ◌∷◌, arith, length, concat, chunks, div_ceil,
  concat-chunks, length-chunks, Pieces, chunks-Pieces,
}
use impossible_voice.Tts.{TransportChunk, Synthesis, label_chunks, transport_chunks}

module _ {F : Type 0} where
  abbrev pub bodies : List (TransportChunk F) → List (List F)
  bodies [] = []
  bodies (c ∷ cs) = c.samples ∷ bodies cs

  -- The last chunk, and no other, is marked as final.
  abbrev pub LastIsFinal : List (TransportChunk F) → Type 0
  LastIsFinal [] = Unit
  LastIsFinal (c ∷ []) = c.final_chunk ≡ true
  LastIsFinal (c ∷ (d ∷ cs)) = (c.final_chunk ≡ false) × LastIsFinal (d ∷ cs)

  bodies-label_chunks :
      (index count : ℕ) (cs : List (List F)) → bodies (label_chunks index count cs) ≡ cs
  unfolding label_chunks
  bodies-label_chunks index count [] = refl
  bodies-label_chunks index count (c ∷ cs) = ap (◌∷◌ c) (bodies-label_chunks (index + 1) count cs)

  label_chunks-LastIsFinal :
      (index count : ℕ) (cs : List (List F))
      → index + length cs ≡ count
      → LastIsFinal (label_chunks index count cs)
  unfolding label_chunks
  label_chunks-LastIsFinal index count [] h = tt
  label_chunks-LastIsFinal index count (c ∷ []) h = ground arith
  label_chunks-LastIsFinal index count (c ∷ (d ∷ cs)) h =
      (ground arith, label_chunks-LastIsFinal (index + 1) count (d ∷ cs) (omega arith))

  -- The chunks in their order hold the samples, each at least one and at most the bound, and
  -- exactly the last is marked as final, if the bound is not zero.
  pub transport_chunks_lem :
      (s : Synthesis F)
      → 0 < s.max_chunk_samples
      → (concat (bodies (transport_chunks s)) ≡ s.audio.samples)
        × Pieces s.max_chunk_samples (bodies (transport_chunks s))
        × LastIsFinal (transport_chunks s)
  unfolding transport_chunks
  transport_chunks_lem s h =
      let n = s.max_chunk_samples in
      let xs = s.audio.samples in
      (
        rw (bodies-label_chunks 0 (div_ceil (length xs) n) (chunks n xs)) (concat-chunks n xs h),
        rw (bodies-label_chunks 0 (div_ceil (length xs) n) (chunks n xs)) (chunks-Pieces n xs h),
        label_chunks-LastIsFinal 0 (div_ceil (length xs) n) (chunks n xs)
            (omega (arith, length-chunks n xs h)),
      )

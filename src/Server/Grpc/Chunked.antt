-- ===== src/Server/Grpc/Chunked.antt =====
-- The chunks of `stream_synthesize` in crates/impossible-voice-server/src/grpc.rs.
use impossible_voice.Prelude.{
  ℕ, ◌+◌, ◌^◌, ◌≤◌, ◌<◌, ◌≡◌, refl, ap, Bool, true, false, List, [], ◌∷◌, Result, ok, err, lt→ltb,
  ◌==◌, length, concat, chunks, div_ceil, concat-chunks, length-chunks, Pieces, chunks-Pieces,
  arith,
}
use impossible_voice.Prelude.Bytes.{Bytes, ascii}
use impossible_voice.Server.Grpc.{Status, grpc_chunk_bytes}
use impossible_voice.Server.Grpc.Speech.{AudioChunk, send_chunks, stream_chunks}

abbrev pub payloads : List (Result Status AudioChunk) → List Bytes
payloads [] = []
payloads (ok c ∷ items) = c.audio ∷ payloads items
payloads (err failure ∷ items) = payloads items

-- Chunks that are numbered from an index on, of which the last and no other is marked as final.
abbrev pub IsNumbered : ℕ → List (Result Status AudioChunk) → Type 0
IsNumbered index [] = Unit
IsNumbered index (err failure ∷ items) = ⊥
IsNumbered index (ok c ∷ []) = (c.sequence ≡ index) × (c.is_final ≡ true)
IsNumbered index (ok c ∷ (d ∷ items)) =
    (c.sequence ≡ index) × (c.is_final ≡ false) × IsNumbered (index + 1) (d ∷ items)

abbrev chunk_at : ℕ → ℕ → ℕ → Bytes → AudioChunk
chunk_at rate count index audio = record {
  audio = audio;
  sequence = index;
  is_final = index + 1 == count;
  sample_rate = rate;
  channels = 1;
  chunking = ascii "post_synthesis_transport";
}

-- The chunks when all of them are sent.
unfoldable labelled : ℕ → ℕ → ℕ → List Bytes → List (Result Status AudioChunk)
labelled rate count index [] = []
labelled rate count index (audio ∷ rest) =
    ok (record {
      audio = audio;
      sequence = index;
      is_final = index + 1 == count;
      sample_rate = rate;
      channels = 1;
      chunking = ascii "post_synthesis_transport";
    })
    ∷ labelled rate count (index + 1) rest

labelled-payloads :
    (rate count index : ℕ) (cs : List Bytes) → payloads (labelled rate count index cs) ≡ cs
unfolding labelled
labelled-payloads rate count index [] = refl
labelled-payloads rate count index (c ∷ cs) =
    ap (◌∷◌ c) (labelled-payloads rate count (index + 1) cs)

labelled-IsNumbered :
    (rate count index : ℕ) (cs : List Bytes)
    → index + length cs ≡ count
    → IsNumbered index (labelled rate count index cs)
unfolding labelled
labelled-IsNumbered rate count index [] e = tt
labelled-IsNumbered rate count index (c ∷ []) e = (refl, ground arith)
labelled-IsNumbered rate count index (c ∷ (d ∷ cs)) e =
    (refl, ground arith, labelled-IsNumbered rate count (index + 1) (d ∷ cs) (omega arith))

send_chunks-labelled :
    (delivers : ℕ → Bool) (rate count index : ℕ) (cs : List Bytes)
    → ((n : ℕ) → delivers n ≡ true)
    → index + length cs ≤ 2 ^ 32
    → send_chunks delivers rate count index cs ≡ labelled rate count index cs
unfolding send_chunks labelled
send_chunks-labelled delivers rate count index [] all h = refl
send_chunks-labelled delivers rate count index (c ∷ cs) all h =
    let below = lt→ltb index (2 ^ 32) (omega arith) in
    rw (below, all index)
      (ap (◌∷◌ (ok (chunk_at rate count index c)))
        (send_chunks-labelled delivers rate count (index + 1) cs all (omega arith)))

few_chunks : (pcm : Bytes) → length pcm < 2 ^ 32 → div_ceil (length pcm) grpc_chunk_bytes ≤ 2 ^ 32
unfolding div_ceil
few_chunks pcm h = ground arith

-- A caller that takes every chunk of a recording of less than four gigabytes gets the recording:
-- the chunks in their order hold its bytes, each at least one and at most 32 KiB, they are numbered
-- from zero on, and exactly the last is marked as final.
pub stream_chunks-IsNumbered :
    (delivers : ℕ → Bool) (rate : ℕ) (pcm : Bytes)
    → ((n : ℕ) → delivers n ≡ true)
    → length pcm < 2 ^ 32
    → (concat (payloads (stream_chunks delivers rate pcm)) ≡ pcm)
      × Pieces grpc_chunk_bytes (payloads (stream_chunks delivers rate pcm))
      × IsNumbered 0 (stream_chunks delivers rate pcm)
unfolding stream_chunks
stream_chunks-IsNumbered delivers rate pcm all h =
    let cs = chunks grpc_chunk_bytes pcm in
    let count = div_ceil (length pcm) grpc_chunk_bytes in
    let counted = length-chunks grpc_chunk_bytes pcm (omega arith) in
    let few = few_chunks pcm h in
    let same = send_chunks-labelled delivers rate count 0 cs all (omega arith) in
    let whole = labelled-payloads rate count 0 cs in
    rw (same, whole)
      (
        concat-chunks grpc_chunk_bytes pcm (omega arith),
        chunks-Pieces grpc_chunk_bytes pcm (omega arith),
        labelled-IsNumbered rate count 0 cs (omega arith),
      )

-- ===== src/Server/Grpc/Speech.antt =====
-- `synthesize` and `stream_synthesize` of crates/impossible-voice-server/src/grpc.rs. `delivers n`
-- tells whether the peer takes the n-th chunk.
use impossible_voice.Prelude.{
  ℕ, ◌+◌, ◌^◌, Bool, true, false, not, List, [], ◌∷◌, Result, ok, err, ◌>>=◌, ◌>>◌, reject_if,
  map_err, ltb, ◌==◌, length, chunks, div_ceil, if◌then◌else◌,
}
use impossible_voice.Prelude.Bytes.{Bytes, ascii}
use impossible_voice.Audio.Float.{Floats}
use impossible_voice.Tts.{Synthesis, Texts, pcm16, wav}
use impossible_voice.Server.Grpc.{
  Status, new_status, internal, invalid_argument, AudioEncoding, unspecified, wav_pcm16, raw_pcm16,
  VoiceBackend, SynthesizeRequest, SynthesizeResponse, normalize_speed, parse_output_encoding,
  map_backend_error, grpc_chunk_bytes,
}

pub record AudioChunk : Type 0 where
  pub audio : Bytes
  pub sequence : ℕ
  pub is_final : Bool
  pub sample_rate : ℕ
  pub channels : ℕ
  pub chunking : Bytes

-- The loop over the chunks, from `index` on: what the receiver of the response sees.
unfoldable pub send_chunks : (ℕ → Bool) → ℕ → ℕ → ℕ → List Bytes → List (Result Status AudioChunk)
send_chunks delivers sample_rate count index [] = []
send_chunks delivers sample_rate count index (audio ∷ rest) =
    let later = send_chunks delivers sample_rate count (index + 1) rest in
    if not (ltb index (2 ^ 32))
    then (if delivers index
        then err (new_status internal (ascii "chunk sequence overflow")) ∷ []
        else [])
    else if delivers index
    then ok (record {
      audio = audio;
      sequence = index;
      is_final = index + 1 == count;
      sample_rate = sample_rate;
      channels = 1;
      chunking = ascii "post_synthesis_transport";
    })
      ∷ later
    else []

unfoldable pub stream_chunks : (ℕ → Bool) → ℕ → Bytes → List (Result Status AudioChunk)
unfolding send_chunks
stream_chunks delivers sample_rate pcm =
    send_chunks delivers sample_rate (div_ceil (length pcm) grpc_chunk_bytes) 0
      (chunks grpc_chunk_bytes pcm)

abbrev is_raw : AudioEncoding → Bool
is_raw raw_pcm16 = true
is_raw _ = false

module _ (fl : Floats) (texts : Texts) (is_zero : fl.F32 → Bool) (backend : VoiceBackend fl) where
  unfoldable pub encode_synthesis : Synthesis fl.F32 → AudioEncoding → Result Status Bytes
  unfolding wav pcm16
  encode_synthesis synthesis wav_pcm16 =
      map_err (λ _. new_status internal (ascii "WAV encoding failed")) (wav fl texts synthesis)
  encode_synthesis synthesis raw_pcm16 = ok (pcm16 fl texts synthesis)
  encode_synthesis synthesis unspecified =
      err (new_status invalid_argument (ascii "output encoding is required"))

  unfoldable pub run_synthesis :
      Bool → SynthesizeRequest backend.Text fl.F32 → Result Status (Synthesis fl.F32)
  unfolding normalize_speed map_backend_error
  run_synthesis worker request = do
    reject_if (not worker) (new_status internal (ascii "speech synthesis worker failed"))
    map_err map_backend_error
        (backend.synthesize request.input (normalize_speed fl is_zero request.speed))

  unfoldable pub unary_synthesize :
      Result Status (Unit {0})
      → Bool
      → SynthesizeRequest backend.Text fl.F32
      → Result Status SynthesizeResponse
  unfolding parse_output_encoding run_synthesis encode_synthesis
  unary_synthesize context worker request = do
    context
    encoding ← parse_output_encoding request.encoding
    synthesis ← run_synthesis worker request
    audio ← encode_synthesis synthesis encoding
    ok (record {
      audio = audio;
      encoding = encoding;
      sample_rate = synthesis.audio.sample_rate;
      channels = 1;
    })

  unfoldable pub stream_synthesize :
      Result Status (Unit {0})
      → Bool
      → (ℕ → Bool)
      → SynthesizeRequest backend.Text fl.F32
      → Result Status (List (Result Status AudioChunk))
  unfolding parse_output_encoding run_synthesis stream_chunks pcm16
  stream_synthesize context worker delivers request = do
    context
    encoding ← parse_output_encoding request.encoding
    reject_if (not (is_raw encoding))
        (new_status invalid_argument (ascii "streaming synthesis requires raw PCM16 output"))
    synthesis ← run_synthesis worker request
    ok (stream_chunks delivers synthesis.audio.sample_rate (pcm16 fl texts synthesis))

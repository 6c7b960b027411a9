-- ===== src/Server/Grpc/Rejected.antt =====
-- The recordings that `transcribe` of crates/impossible-voice-server/src/grpc.rs rejects.
use impossible_voice.Prelude.{
  ◌≤◌, ◌<◌, ◌≡◌, sym, ap, Option, none, some, Result, ok, err, ◌⊎◌, inl, inr, ltb, length,
  Bool-cases, map_err, arith, Option-cases, ◌==◌, ltb→lt,
}
use impossible_voice.Prelude.Bytes.{Bytes, ascii}
use impossible_voice.Audio.Float.{Floats}
use impossible_voice.Audio.Admission.{AudioError, default_limits}
use impossible_voice.Audio.Pcm.{MonoPcm, from_pcm16_le}
use impossible_voice.Audio.Wav.{from_wav}
use impossible_voice.Server.Grpc.{
  Status, new_status, invalid_argument, resource_exhausted, AudioEncoding, unspecified, wav_pcm16,
  raw_pcm16, encoding_from, TranscribeRequest, decode_wav, decode_as, decode_audio,
  max_grpc_message_bytes,
}

err_injective : {A : Type 0} {f g : Status} → ◌≡◌ {A = Result Status A} (err f) (err g) → f ≡ g
err_injective p = cc

err_code : {A : Type 0} {f g : Status} → ◌≡◌ {A = Result Status A} (err f) (err g) → g.code ≡ f.code
err_code p = ap (λ s. s.code) (sym (err_injective p))

map_err-code :
    {A : Type 0} (message : Bytes) (r : Result AudioError A) {failure : Status}
    → map_err (λ _. new_status invalid_argument message) r ≡ err failure
    → failure.code ≡ invalid_argument
map_err-code message (ok x) p = cc
map_err-code message (err e) p = err_code p

module _ (fl : Floats) where
  decode_wav-code :
      (audio : Bytes) {failure : Status}
      → decode_wav fl audio ≡ err failure
      → failure.code ≡ invalid_argument
  unfolding decode_wav
  decode_wav-code audio p = elim (Option-cases (from_wav fl audio default_limits)) [
    | inl e ↦ err_code (rw (e, decode_wav) at p)
    | inr (r, e) ↦ map_err-code (ascii "WAV audio is invalid") r (rw (e, decode_wav) at p)
  ]

  decode_as-code :
      (encoding : Option AudioEncoding) (request : TranscribeRequest) {failure : Status}
      → decode_as fl encoding request ≡ err failure
      → failure.code ≡ invalid_argument
  unfolding decode_as
  decode_as-code none request p = err_code p
  decode_as-code (some unspecified) request p = err_code p
  decode_as-code (some wav_pcm16) request p = elim (Bool-cases (request.sample_rate == 0)) [
    | inl e ↦ decode_wav-code request.audio (rw e at p)
    | inr e ↦ err_code (rw e at p)
  ]
  decode_as-code (some raw_pcm16) request p = elim (Bool-cases (ltb 0 request.sample_rate)) [
    | inl e ↦
        map_err-code (ascii "raw PCM16 audio is invalid")
          (from_pcm16_le fl request.audio request.sample_rate default_limits) (rw e at p)
    | inr e ↦ err_code (rw e at p)
  ]

-- A recording that is rejected is rejected for its size, with the code resource_exhausted, if it is
-- over the limit, and with invalid_argument if it is not; a recording that is taken is within the
-- limit.
pub decode_audio-code :
    (fl : Floats) (request : TranscribeRequest)
    → ((pcm : MonoPcm fl.F32)
        → decode_audio fl request ≡ ok pcm
        → length request.audio ≤ max_grpc_message_bytes)
      × ((failure : Status)
          → decode_audio fl request ≡ err failure
          → ((max_grpc_message_bytes < length request.audio) × (failure.code ≡ resource_exhausted))
            ⊎ ((length request.audio ≤ max_grpc_message_bytes) × (failure.code ≡ invalid_argument)))
unfolding decode_audio
decode_audio-code fl request =
    elim (Bool-cases (ltb max_grpc_message_bytes (length request.audio))) [
      | inl e ↦ (
        λ pcm p. let clash = rw e at p in cc,
        λ failure p.
            inl (ltb→lt max_grpc_message_bytes (length request.audio) e, err_code (rw e at p)),
      )
      | inr e ↦ (
        λ pcm p. ground arith,
        λ failure p.
            inr (
              ground arith,
              decode_as-code fl (encoding_from request.encoding) request (rw e at p),
            ),
      )
    ]

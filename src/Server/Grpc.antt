-- ===== src/Server/Grpc.antt =====
-- crates/impossible-voice-server/src/grpc.rs: the statuses, the unary calls and what all calls
-- share. The backend, the identifiers with the deadlines of requests, and the workers are
-- parameters.
pub mod Transcribe
pub mod Speech
pub mod Told
pub mod Chunked
pub mod Rejected
use impossible_voice.Prelude.{
  ℕ, ◌*◌, Bool, true, false, Option, none, some, List, Result, ok, err, ◌>>=◌, ◌>>◌, reject_if,
  ok_or, map_err, ltb, ◌==◌, length, if◌then◌else◌, not, ◌&&◌,
}
use impossible_voice.Prelude.Bytes.{Bytes, ascii}
use impossible_voice.Audio.Float.{Floats}
use impossible_voice.Audio.Admission.{default_limits, AudioError}
use impossible_voice.Audio.Pcm.{MonoPcm, from_pcm16_le}
use impossible_voice.Audio.Wav.{from_wav}
use impossible_voice.Tts.{Synthesis, pcm16, wav}
use impossible_voice.Stt.{Transcript}
use impossible_voice.Server.{VoiceBackendError}
use impossible_voice.Server

-- `tonic::Code` and `tonic::Status`.
pub data Code : Type 0 where
  cancelled invalid_argument deadline_exceeded resource_exhausted internal : Code

pub record Status : Type 0 where
  pub code : Code
  pub message : Bytes

abbrev pub new_status : Code → Bytes → Status
new_status code message = record { code = code; message = message }

abbrev pub max_grpc_message_bytes : ℕ
max_grpc_message_bytes = 16 * 1_024 * 1_024

abbrev pub max_stream_audio_bytes : ℕ
max_stream_audio_bytes = 64 * 1_024

abbrev pub grpc_chunk_bytes : ℕ
grpc_chunk_bytes = 32 * 1_024

unfoldable pub map_backend_error : VoiceBackendError → Status
map_backend_error Server.invalid_input =
    new_status invalid_argument (ascii "voice input is invalid")
map_backend_error Server.busy = new_status resource_exhausted (ascii "voice capacity is busy")
map_backend_error Server.cancelled = new_status cancelled (ascii "the request was cancelled")
map_backend_error Server.deadline_exceeded =
    new_status deadline_exceeded (ascii "the request deadline was exceeded")
map_backend_error Server.engine = new_status internal (ascii "the local voice engine failed")

-- `AudioEncoding`, generated from the protocol: `try_from` an i32.
pub data AudioEncoding : Type 0 where
  unspecified wav_pcm16 raw_pcm16 : AudioEncoding

abbrev pub encoding_from : ℕ → Option AudioEncoding
encoding_from n =
    if n == 0
    then some unspecified
    else if n == 1
    then some wav_pcm16
    else if n == 2
    then some raw_pcm16
    else none

unfoldable pub parse_output_encoding : ℕ → Result Status AudioEncoding
parse_output_encoding value = elim (encoding_from value) [
  | some wav_pcm16 ↦ ok wav_pcm16
  | some raw_pcm16 ↦ ok raw_pcm16
  | some unspecified ↦ err (new_status invalid_argument (ascii "output encoding is unsupported"))
  | none ↦ err (new_status invalid_argument (ascii "output encoding is unsupported"))
]

pub record TranscribeRequest : Type 0 where
  pub audio : Bytes
  pub encoding : ℕ
  pub sample_rate : ℕ

-- `dyn VoiceBackend` and the transcribers that it opens.
pub record VoiceBackend (fl : Floats) : Type 1 where
  pub Text : Type 0
  pub Transcriber : Type 0
  pub transcribe : MonoPcm fl.F32 → Result VoiceBackendError Text
  pub synthesize : Text → fl.F32 → Result VoiceBackendError (Synthesis fl.F32)
  pub start_transcription : ℕ → Result VoiceBackendError Transcriber
  pub push_pcm16 :
      Transcriber → Bytes → Transcriber × Result VoiceBackendError (List (Transcript Text))
  pub finish : Transcriber → Result VoiceBackendError (Transcript Text)

pub record SynthesizeRequest (Text F : Type 0) : Type 0 where
  pub input : Text
  pub speed : F
  pub encoding : ℕ

pub record SynthesizeResponse : Type 0 where
  pub audio : Bytes
  pub encoding : AudioEncoding
  pub sample_rate : ℕ
  pub channels : ℕ

module _ (fl : Floats) where
  open fl use {F32}

  -- `none` where the chunk loop of from_wav runs out of fuel, which it does not.
  unfoldable pub decode_wav : Bytes → Result Status (MonoPcm F32)
  unfolding from_wav
  decode_wav audio = elim (from_wav fl audio default_limits) [
    | none ↦ err (new_status invalid_argument (ascii "WAV audio is invalid"))
    | some result ↦ map_err (λ _. new_status invalid_argument (ascii "WAV audio is invalid")) result
  ]

  abbrev inconsistent : Result Status (MonoPcm F32)
  inconsistent =
      err (new_status invalid_argument (ascii "encoding and sample rate are inconsistent"))

  unfoldable pub decode_as : Option AudioEncoding → TranscribeRequest → Result Status (MonoPcm F32)
  unfolding decode_wav from_pcm16_le
  decode_as (some wav_pcm16) request =
      if request.sample_rate == 0 then decode_wav request.audio else inconsistent
  decode_as (some raw_pcm16) request =
      if ltb 0 request.sample_rate
      then map_err (λ _. new_status invalid_argument (ascii "raw PCM16 audio is invalid"))
          (from_pcm16_le fl request.audio request.sample_rate default_limits)
      else inconsistent
  decode_as (some unspecified) request = inconsistent
  decode_as none request = inconsistent

  unfoldable pub decode_audio : TranscribeRequest → Result Status (MonoPcm F32)
  unfolding decode_as
  decode_audio request = do
    reject_if (ltb max_grpc_message_bytes (length request.audio))
        (new_status resource_exhausted (ascii "audio exceeds the message limit"))
    decode_as (encoding_from request.encoding) request

  module _ (is_zero : F32 → Bool) where
    unfoldable pub normalize_speed : F32 → F32
    normalize_speed speed = if is_zero speed then fl.one else speed

  module _ (backend : VoiceBackend fl) where
    open backend use {Text}

    -- `context` is what the identifiers and the deadline give, and `worker` tells whether the
    -- worker joins.
    unfoldable pub unary_transcribe :
        Result Status (Unit {0}) → Bool → TranscribeRequest → Result Status Text
    unfolding decode_audio map_backend_error
    unary_transcribe context worker request = do
      context
      audio ← decode_audio request
      reject_if (not worker) (new_status internal (ascii "speech recognition worker failed"))
      map_err map_backend_error (backend.transcribe audio)

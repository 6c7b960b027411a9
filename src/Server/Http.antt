-- ===== src/Server/Http.antt =====
-- The HTTP handlers of crates/impossible-voice-server/src/voice_api.rs: the transcriptions and the
-- speech. The extraction of headers, multipart fields and JSON, the backend and the workers are
-- parameters.
pub mod Fields
use impossible_voice.Prelude.{
  ℕ, suc, ◌+◌, ◌*◌, ◌-◌, ◌^◌, Bool, true, false, not, ◌&&◌, ◌||◌, Option, none, some, List, [], ◌∷◌,
  ◌++◌, Result, ok, err, ◌>>=◌, ◌>>◌, reject_if, ok_or, map_err, ltb, leb, ◌==◌, length, is_empty,
  if◌then◌else◌,
}
use impossible_voice.Prelude.Bytes.{Bytes, ascii, bytes_eq, to_ascii_lowercase, is_ascii_digit}
use impossible_voice.Audio.Float.{Floats}
use impossible_voice.Audio.Admission.{default_limits}
use impossible_voice.Audio.Pcm.{MonoPcm, from_pcm16_le}
use impossible_voice.Audio.Wav.{from_wav}
use impossible_voice.Tts.{Synthesis, Texts, pcm16, wav}
use impossible_voice.Server.{VoiceBackendError}
use impossible_voice.Server

pub record ApiError : Type 0 where
  pub status : ℕ
  pub code : Bytes
  pub message : Bytes

abbrev pub invalid : Bytes → ApiError
invalid message = record { status = 400; code = ascii "invalid_request"; message = message }

unfoldable pub api_error : VoiceBackendError → ApiError
api_error Server.invalid_input = invalid (ascii "voice input is invalid")
api_error Server.busy = record {
  status = 429;
  code = ascii "overloaded";
  message = ascii "voice capacity is busy";
}
api_error Server.cancelled = record {
  status = 503;
  code = ascii "cancelled";
  message = ascii "the request was cancelled";
}
api_error Server.deadline_exceeded = record {
  status = 504;
  code = ascii "deadline_exceeded";
  message = ascii "the request deadline was exceeded";
}
api_error Server.engine = record {
  status = 500;
  code = ascii "engine_error";
  message = ascii "the local voice engine failed";
}

abbrev pub max_multipart_field_bytes : ℕ
max_multipart_field_bytes = 64 * 1_024

-- `parse::<u32>`: an optional plus sign, and digits.
abbrev parse_digits : ℕ → Bytes → Option ℕ
parse_digits value [] = some value
parse_digits value (b ∷ bs) =
    let next = value * 10 + (b - b'0') in
    let rest = parse_digits next bs in if is_ascii_digit b && ltb next (2 ^ 32) then rest else none

abbrev parse_unsigned : Bytes → Option ℕ
parse_unsigned [] = none
parse_unsigned (b ∷ bs) = parse_digits 0 (b ∷ bs)

unfoldable pub parse_u32 : Bytes → Option ℕ
parse_u32 [] = none
parse_u32 (b ∷ bs) = if b == b'+' then parse_unsigned bs else parse_unsigned (b ∷ bs)

-- A field of the form, with the error that reading it may give.
pub record FormField : Type 0 where
  pub name : Bytes
  pub content_type : Option Bytes
  pub bytes : Option Bytes

-- The variables of the loop.
pub record Form : Type 0 where
  pub file : Option (Option Bytes × Bytes)
  pub sample_rate : Option ℕ

-- `from_utf8` and `parse`.
abbrev pub read_rate : Bytes → Result ApiError ℕ
read_rate bytes = ok_or (parse_u32 bytes) (invalid (ascii "sample_rate is malformed"))

abbrev pub is_some {ℓ} : {A : Type ℓ} → Option A → Bool
is_some none = false
is_some (some x) = true

unfoldable pub read_field : FormField → Bytes → Form → Result ApiError Form
unfolding parse_u32
read_field field bytes form =
    if bytes_eq field.name (ascii "file") && not (is_some form.file)
    then ok (record form { file = some (field.content_type, bytes) })
    else if bytes_eq field.name (ascii "sample_rate") && leb (length bytes) 16
    then (read_rate bytes >>= λ rate. ok (record form { sample_rate = some rate }))
    else if bytes_eq field.name (ascii "model") && leb (length bytes) max_multipart_field_bytes
    then ok form
    else err (invalid (ascii "multipart field is unsupported or duplicated"))

-- The loop; `none` is a body that is malformed.
unfoldable pub read_fields : List (Option FormField) → Form → Result ApiError Form
unfolding read_field
read_fields [] form = ok form
read_fields (item ∷ items) form = do
  field ← ok_or item (invalid (ascii "multipart body is malformed"))
  bytes ← ok_or field.bytes (invalid (ascii "multipart field is malformed"))
  more ← read_field field bytes form
  read_fields items more

abbrev is_space : ℕ → Bool
is_space b = b == 32 || (leb 9 b && leb b 13)

abbrev prepend : ℕ → List Bytes → List Bytes
prepend b [] = (b ∷ []) ∷ []
prepend b (piece ∷ pieces) = (b ∷ piece) ∷ pieces

-- `split(';')`.
unfoldable pub split_parameters : Bytes → List Bytes
split_parameters [] = [] ∷ []
split_parameters (b ∷ bs) =
    let rest = split_parameters bs in if b == b';' then [] ∷ rest else prepend b rest

unfoldable pub trim_start : Bytes → Bytes
trim_start [] = []
trim_start (b ∷ bs) = let rest = trim_start bs in if is_space b then rest else b ∷ bs

unfoldable pub trim_end : Bytes → Bytes
trim_end [] = []
trim_end (b ∷ bs) = let rest = trim_end bs in if is_empty rest && is_space b then [] else b ∷ rest

unfoldable pub trim : Bytes → Bytes
unfolding trim_start trim_end
trim text = trim_start (trim_end text)

abbrev with_key : ℕ → Option (Bytes × Bytes) → Option (Bytes × Bytes)
with_key b none = none
with_key b (some (key, value)) = some (b ∷ key, value)

-- `split_once('=')`.
unfoldable pub split_once : Bytes → Option (Bytes × Bytes)
split_once [] = none
split_once (b ∷ bs) =
    let rest = split_once bs in if b == b'=' then some ([], bs) else with_key b rest

abbrev rate_value : Option (Bytes × Bytes) → Option ℕ
rate_value none = none
rate_value (some (key, value)) =
    if bytes_eq (to_ascii_lowercase key) (ascii "rate") then parse_u32 (trim value) else none

-- `explicit_rate.or(parameter_rate)`, and `find_map`.
abbrev or_rate : Option ℕ → Option ℕ → Option ℕ
or_rate (some rate) parameter = some rate
or_rate none parameter = parameter

unfoldable pub find_rate : List Bytes → Option ℕ
unfolding split_once trim parse_u32
find_rate [] = none
find_rate (parameter ∷ parameters) =
    or_rate (rate_value (split_once (trim parameter))) (find_rate parameters)

abbrev first_piece : List Bytes → Bytes
first_piece [] = []
first_piece (piece ∷ pieces) = piece

abbrev later_pieces : List Bytes → List Bytes
later_pieces [] = []
later_pieces (piece ∷ pieces) = pieces

unfoldable pub media_type : Bytes → Bytes
unfolding split_parameters trim
media_type content_type = to_ascii_lowercase (trim (first_piece (split_parameters content_type)))

unfoldable pub parameter_rate : Bytes → Option ℕ
unfolding split_parameters find_rate
parameter_rate content_type = find_rate (later_pieces (split_parameters content_type))

abbrev is_wav : Bytes → Bool
is_wav media = bytes_eq media (ascii "audio/wav") || bytes_eq media (ascii "audio/x-wav")

abbrev is_pcm : Bytes → Bool
is_pcm media = bytes_eq media (ascii "audio/pcm") || bytes_eq media (ascii "audio/l16")

module _ (fl : Floats) where
  open fl use {F32}

  -- `none` where the chunk loop of from_wav runs out of fuel, which it does not.
  unfoldable pub decode_http_wav : Bytes → Result ApiError (MonoPcm F32)
  unfolding from_wav
  decode_http_wav bytes = elim (from_wav fl bytes default_limits) [
    | none ↦ err (invalid (ascii "WAV audio is invalid"))
    | some result ↦ map_err (λ _. invalid (ascii "WAV audio is invalid")) result
  ]

  unfoldable pub decode_raw : Option ℕ → Bytes → Result ApiError (MonoPcm F32)
  unfolding from_pcm16_le
  decode_raw rate bytes = do
    sample_rate ← ok_or rate (invalid (ascii "raw PCM sample rate is required"))
    map_err (λ _. invalid (ascii "raw PCM16 audio is invalid"))
        (from_pcm16_le fl bytes sample_rate default_limits)

  unfoldable pub decode_media : Bytes → Option ℕ → Bytes → Result ApiError (MonoPcm F32)
  unfolding decode_http_wav decode_raw media_type parameter_rate
  decode_media content_type explicit_rate bytes =
      if is_wav (media_type content_type)
      then (if is_some explicit_rate
          then err (invalid (ascii "WAV sample rate is embedded in the file"))
          else decode_http_wav bytes)
      else if is_pcm (media_type content_type)
      then decode_raw (or_rate explicit_rate (parameter_rate content_type)) bytes
      else err (invalid (ascii "audio content type is unsupported"))

  abbrev parse_header : Option Bytes → Result ApiError (Option ℕ)
  parse_header none = ok none
  parse_header (some value) = elim (parse_u32 value) [
    | none ↦ err (invalid (ascii "sample rate is malformed"))
    | some rate ↦ ok (some rate)
  ]

  -- The two headers, where they are there and are text.
  unfoldable pub decode_http_audio :
      Option Bytes → Option Bytes → Bytes → Result ApiError (MonoPcm F32)
  unfolding parse_u32 decode_media
  decode_http_audio content_type rate bytes = do
    media ← ok_or content_type (invalid (ascii "content-type is required"))
    sample_rate ← parse_header rate
    decode_media media sample_rate bytes

  abbrev or_octets : Option Bytes → Bytes
  or_octets none = ascii "application/octet-stream"
  or_octets (some content_type) = content_type

  -- What `openai_transcription` hands on.
  unfoldable pub decode_form : List (Option FormField) → Result ApiError (MonoPcm F32)
  unfolding read_fields decode_media
  decode_form fields = do
    form ← read_fields fields (record { file = none; sample_rate = none })
    (content_type, bytes) ← ok_or form.file (invalid (ascii "file is required"))
    decode_media (or_octets content_type) form.sample_rate bytes

  module _ {Text : Type 0} (backend : MonoPcm F32 → Result VoiceBackendError Text)
      (worker : Bool) where
    unfoldable pub http_transcribe : MonoPcm F32 → Result ApiError Text
    unfolding api_error
    http_transcribe audio =
        if worker then map_err api_error (backend audio) else err (api_error Server.engine)

    unfoldable pub native_transcription : Option Bytes → Option Bytes → Bytes → Result ApiError Text
    unfolding decode_http_audio http_transcribe
    native_transcription content_type rate bytes = do
      audio ← decode_http_audio content_type rate bytes
      http_transcribe audio

    unfoldable pub openai_transcription : List (Option FormField) → Result ApiError Text
    unfolding decode_form http_transcribe
    openai_transcription fields = do audio ← decode_form fields; http_transcribe audio

pub record SpeechRequest (Text F : Type 0) : Type 0 where
  pub input : Text
  pub speed : F
  pub response_format : Bytes
  pub model : Option Bytes
  pub voice : Option Bytes

-- The body, with the headers that differ between the answers.
pub record SpeechResponse : Type 0 where
  pub body : Bytes
  pub content_type : Bytes
  pub sample_rate : ℕ

abbrev is_another : Option Bytes → Bytes → Bool
is_another none name = false
is_another (some value) name = not (bytes_eq value name)

module _ (fl : Floats) (texts : Texts) where
  open fl use {F32}

  unfoldable pub speech_response : Bytes → Synthesis F32 → Result ApiError SpeechResponse
  unfolding wav pcm16 api_error
  speech_response format synthesis =
      if bytes_eq format (ascii "wav")
      then (map_err (λ _. api_error Server.engine) (wav fl texts synthesis) >>= λ bytes.
          ok (record {
            body = bytes;
            content_type = ascii "audio/wav";
            sample_rate = synthesis.audio.sample_rate;
          }))
      else ok (record {
        body = pcm16 fl texts synthesis;
        content_type = ascii "audio/pcm";
        sample_rate = synthesis.audio.sample_rate;
      })

  unfoldable pub speech :
      {Text : Type 0}
      → (Text → F32 → Result VoiceBackendError (Synthesis F32))
      → Bool
      → SpeechRequest Text F32
      → Result ApiError SpeechResponse
  unfolding speech_response api_error
  speech backend worker request = do
    reject_if
        (is_another request.model (ascii "impossible-voice-tts")
          || is_another request.voice (ascii "kristin"))
        (invalid (ascii "model or voice is unsupported"))
    reject_if
        (not (
          bytes_eq request.response_format (ascii "wav")
          || bytes_eq request.response_format (ascii "pcm")))
        (invalid (ascii "response_format must be wav or pcm"))
    reject_if (not worker) (api_error Server.engine)
    synthesis ← map_err api_error (backend request.input request.speed)
    speech_response request.response_format synthesis

-- ===== src/Server/Socket.antt =====
-- The realtime sessions of crates/impossible-voice-server/src/voice_api.rs: `websocket_session` and
-- what it calls. The peer is a row of messages; the sending of the n-th answer succeeds or fails as
-- `delivers n` says. The timer can run out while a session waits for a message.
use impossible_voice.Prelude.{
  ℕ, ◌+◌, ◌*◌, Bool, true, false, Option, none, some, List, [], ◌∷◌, ◌++◌, if◌then◌else◌, Result,
  ok, err,
}
use impossible_voice.Prelude.Stateful.{Stateful, ◌>>◌, pure}
use impossible_voice.Stt.{Transcript, interim, final}
use impossible_voice.Server.{
  VoiceBackendError, invalid_input, busy, cancelled, deadline_exceeded, engine,
}

abbrev pub max_ws_message_bytes : ℕ
max_ws_message_bytes = 64 * 1_024

abbrev pub tts_chunk_bytes : ℕ
tts_chunk_bytes = 32 * 1_024

pub data SessionMode : Type 0 where
  stt tts : SessionMode

abbrev pub is_mode : Option SessionMode → SessionMode → Bool
is_mode (some stt) stt = true
is_mode (some tts) tts = true
is_mode _ _ = false

pub data ClientEvent (Text Speed : Type 0) : Type 0 where
  session_start : SessionMode → Option ℕ → ClientEvent Text Speed
  audio_append : ℕ → ClientEvent Text Speed
  audio_commit cancel ping close : ClientEvent Text Speed
  speech_generate : Text → Speed → ClientEvent Text Speed

pub data ErrorCode : Type 0 where
  invalid_request overloaded request_cancelled deadline engine_error : ErrorCode
  audio_frame_expected invalid_json audio_declaration_required audio_frame_invalid : ErrorCode
  stt_session_required sample_rate_required sample_rate_not_allowed invalid_sequence : ErrorCode

-- `ApiError::from(error).code`.
unfoldable pub error_code : VoiceBackendError → ErrorCode
error_code invalid_input = invalid_request
error_code busy = overloaded
error_code cancelled = request_cancelled
error_code deadline_exceeded = deadline
error_code engine = engine_error

-- `ServerEvent`: its `type`, with the fields that go with it.
pub data ServerEvent (Text : Type 0) : Type 0 where
  session_ready session_completed speech_completed was_cancelled pong : ServerEvent Text
  transcript_interim transcript_final : Text → ServerEvent Text
  speech_metadata : ℕ → ServerEvent Text
  failed_with : ErrorCode → ServerEvent Text

-- `Message`, a transport error, and the timer.
pub data Incoming : Type 0 where
  text_message binary_message ping_message : List ℕ → Incoming
  pong_message close_message broken elapsed : Incoming

pub data Outgoing (Text : Type 0) : Type 0 where
  event : ServerEvent Text → Outgoing Text
  audio pong_reply : List ℕ → Outgoing Text
  close_frame : ℕ → Outgoing Text

pub record Speech : Type 0 where
  pub sample_rate : ℕ
  pub pcm16 : List ℕ

-- The voice backend and `serde_json::from_str`. `rounds` is the number of messages that come in
-- before the synthesis is done.
pub record Voice : Type 1 where
  pub Text : Type 0
  pub Speed : Type 0
  pub Transcriber : Type 0
  pub parse : List ℕ → Option (ClientEvent Text Speed)
  pub start_transcription : ℕ → Result VoiceBackendError Transcriber
  pub push_pcm16 :
      Transcriber → List ℕ → Transcriber × Result VoiceBackendError (List (Transcript Text))
  pub finish : Transcriber → Result VoiceBackendError (Transcript Text)
  pub synthesize : Text → Speed → Result VoiceBackendError Speech
  pub rounds : ℕ

-- Why a loop is left early: the `Err(())` of the source, or the timer.
pub data Stop : Type 0 where
  failed timed_out : Stop

-- `SessionState`, with the socket and the cancellation token of the session.
pub record Connection (Text Transcriber : Type 0) : Type 0 where
  pub incoming : List Incoming
  pub sent : List (Outgoing Text)
  pub attempts : ℕ
  pub mode : Option SessionMode
  pub pending_audio : Option ℕ
  pub transcriber : Option Transcriber
  pub completed : Bool
  pub failure : Option VoiceBackendError
  pub is_cancelled : Bool

module _ (voice : Voice) (delivers : ℕ → Bool) where
  open voice use {Text, Speed, Transcriber}

  abbrev pub Session : Type 0
  Session = Connection Text Transcriber

  abbrev pub Method : Type 0 → Type 0
  Method A = Stateful Session Stop A

  unfoldable pub send : Outgoing Text → Method (Unit {0})
  send m s =
      if delivers s.attempts
      then (record s { attempts = s.attempts + 1; sent = s.sent ++ (m ∷ []) }, ok tt)
      else (record s { attempts = s.attempts + 1 }, err failed)

  abbrev pub stop : {A : Type 0} → Method A
  stop s = (s, err failed)

  -- `send_error(..).await?; return Err(())`.
  unfoldable pub refuse : {A : Type 0} → ErrorCode → Method A
  unfolding send
  refuse code = do send (event (failed_with code)); stop

  abbrev record_failure : VoiceBackendError → Method (Unit {0})
  record_failure e s = (record s { failure = some e }, ok tt)

  unfoldable pub fail_backend : {A : Type 0} → VoiceBackendError → Method A
  unfolding refuse
  fail_backend e = do record_failure e; refuse (error_code e)

  unfoldable pub send_transcript : Transcript Text → Method (Unit {0})
  unfolding send
  send_transcript update = elim update.kind [
    | interim ↦ send (event (transcript_interim update.text))
    | final ↦ send (event (transcript_final update.text))
  ]

  unfoldable pub send_transcripts : List (Transcript Text) → Method (Unit {0})
  unfolding send_transcript
  send_transcripts [] = pure tt
  send_transcripts (update ∷ updates) = do send_transcript update; send_transcripts updates

  unfoldable pub send_audio : List (List ℕ) → Method (Unit {0})
  unfolding send
  send_audio [] = pure tt
  send_audio (chunk ∷ rest) = do send (audio chunk); send_audio rest

  unfoldable pub cancel_request : Method (Unit {0})
  cancel_request s = (record s { is_cancelled = true }, ok tt)

  abbrev set_mode : SessionMode → Method (Unit {0})
  set_mode mode s = (record s { mode = some mode }, ok tt)

  abbrev pub complete : Method (Unit {0})
  complete s = (record s { completed = true }, ok tt)

  abbrev keep_transcriber : Transcriber → Method (Unit {0})
  keep_transcriber t s = (record s { transcriber = some t }, ok tt)

  -- The answer `Ok(false)` goes on with the session, `Ok(true)` ends it.
  unfoldable pub open_transcriber : Result VoiceBackendError Transcriber → Method Bool
  unfolding send fail_backend
  open_transcriber (ok transcriber) = do
    keep_transcriber transcriber
    send (event session_ready)
    pure false
  open_transcriber (err e) = fail_backend e

  unfoldable pub start_session : SessionMode → Option ℕ → Method Bool
  unfolding send refuse open_transcriber
  start_session stt none = do set_mode stt; refuse sample_rate_required
  start_session stt (some rate) = do set_mode stt; open_transcriber (voice.start_transcription rate)
  start_session tts (some rate) = do set_mode tts; refuse sample_rate_not_allowed
  start_session tts none = do set_mode tts; send (event session_ready); pure false

  unfoldable pub declare_audio : ℕ → Method Bool
  declare_audio bytes s = (record s { pending_audio = some bytes }, ok false)

  unfoldable pub finish_transcript : Result VoiceBackendError (Transcript Text) → Method Bool
  unfolding fail_backend send_transcript send
  finish_transcript (err e) = fail_backend e
  finish_transcript (ok update) = do
    send_transcript update
    complete
    send (event session_completed)
    pure false

  unfoldable pub commit_audio : Method Bool
  unfolding refuse finish_transcript
  commit_audio s = elim s.transcriber [
    | none ↦ refuse invalid_sequence s
    | some transcriber ↦
        finish_transcript (voice.finish transcriber) (record s { transcriber = none })
  ]

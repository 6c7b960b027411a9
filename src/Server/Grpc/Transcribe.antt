-- ===== src/Server/Grpc/Transcribe.antt =====
-- `stream_transcribe` of crates/impossible-voice-server/src/grpc.rs. The caller is a row of
-- messages and what comes behind them; `delivers n` tells whether the n-th item still finds its
-- receiver.
use impossible_voice.Prelude.{
  ℕ, ◌+◌, Bool, true, false, not, ◌&&◌, Option, none, some, List, [], ◌∷◌, ◌++◌, Result, ok, err,
  ltb, is_empty, length, if◌then◌else◌,
}
use impossible_voice.Prelude.Bytes.{Bytes, ascii}
use impossible_voice.Audio.Float.{Floats}
use impossible_voice.Stt.{Transcript, TranscriptKind, interim, final}
use impossible_voice.Server.{VoiceBackendError, invalid_input}
use impossible_voice.Server.Grpc.{
  Status, new_status, cancelled, deadline_exceeded, invalid_argument, VoiceBackend,
  map_backend_error, max_stream_audio_bytes,
}

pub data Event : Type 0 where
  config : ℕ → Event
  audio : Bytes → Event
  commit cancel : Bool → Event

-- What comes instead of a message: the end of the input, an error, or the stop of the request.
pub data Ending : Type 0 where
  ended failed stop_cancelled stop_deadline : Ending

pub record TranscriptEvent (Text : Type 0) : Type 0 where
  pub text : Text
  pub is_final : Bool

-- The variables of the loop, with what was sent.
pub record Call (Text Transcriber : Type 0) : Type 0 where
  pub sent : List (Result Status (TranscriptEvent Text))
  pub attempts : ℕ
  pub session : Option Transcriber
  pub committed : Bool
  pub is_cancelled : Bool

-- Behind a message: the `return` of the task, or the result.
pub data Flow : Type 0 where
  leave : Flow
  result : Result VoiceBackendError (Unit {0}) → Flow

abbrev pub is_final_kind : TranscriptKind → Bool
is_final_kind final = true
is_final_kind interim = false

module _ (fl : Floats) (backend : VoiceBackend fl) (delivers : ℕ → Bool) where
  open backend use {Text, Transcriber}

  abbrev pub CallState : Type 0
  CallState = Call Text Transcriber

  abbrev pub send_item : Result Status (TranscriptEvent Text) → CallState → CallState
  send_item item s =
      if delivers s.attempts
      then record s { attempts = s.attempts + 1; sent = s.sent ++ (item ∷ []) }
      else record s { attempts = s.attempts + 1 }

  unfoldable pub send_updates : List (Transcript Text) → CallState → CallState × Flow
  send_updates [] s = (s, result (ok tt))
  send_updates (update ∷ updates) s =
      let rest = send_updates updates in
      if delivers s.attempts
      then rest
          (send_item (ok (record { text = update.text; is_final = is_final_kind update.kind })) s)
      else (
        send_item (ok (record { text = update.text; is_final = is_final_kind update.kind })) s,
        leave,
      )

  abbrev pub open_session : Result VoiceBackendError Transcriber → CallState → CallState × Flow
  open_session (ok opened) s = (record s { session = some opened }, result (ok tt))
  open_session (err e) s = (s, result (err e))

  unfoldable pub send_result :
      Result VoiceBackendError (List (Transcript Text)) → CallState → CallState × Flow
  unfolding send_updates
  send_result (ok updates) s = send_updates updates s
  send_result (err e) s = (s, result (err e))

  unfoldable pub push_audio : Transcriber → Bytes → CallState → CallState × Flow
  unfolding send_result
  push_audio active bytes s =
      let (pushed, updates) = backend.push_pcm16 active bytes in
      send_result updates (record s { session = some pushed })

  unfoldable pub send_final :
      Result VoiceBackendError (Transcript Text) → CallState → CallState × Flow
  send_final (ok final_result) s =
      (send_item (ok (record { text = final_result.text; is_final = true })) s, leave)
  send_final (err e) s = (s, result (err e))

  abbrev pub refused : CallState → CallState × Flow
  refused s = (s, result (err invalid_input))

  -- With `session.is_some()`, the session.
  unfoldable pub handle_audio : Option Transcriber → Bytes → CallState → CallState × Flow
  unfolding push_audio
  handle_audio none bytes s = refused s
  handle_audio (some active) bytes s =
      if not s.committed && not (is_empty bytes) && not (ltb max_stream_audio_bytes (length bytes))
      then push_audio active bytes s
      else refused s

  unfoldable pub handle_commit : Option Transcriber → CallState → CallState × Flow
  unfolding send_final
  handle_commit none s = refused s
  handle_commit (some active) s =
      if s.committed
      then refused s
      else send_final (backend.finish active) (record s { committed = true; session = none })

  unfoldable pub handle_config : Option Transcriber → ℕ → CallState → CallState × Flow
  handle_config (some active) rate s = refused s
  handle_config none rate s =
      if s.committed then refused s else open_session (backend.start_transcription rate) s

  unfoldable pub handle_event : Option Event → CallState → CallState × Flow
  unfolding handle_audio handle_commit handle_config
  handle_event (some (config rate)) s = handle_config s.session rate s
  handle_event (some (audio bytes)) s = handle_audio s.session bytes s
  handle_event (some (commit true)) s = handle_commit s.session s
  handle_event (some (cancel true)) s = (record s { is_cancelled = true }, leave)
  handle_event (some (commit false)) s = refused s
  handle_event (some (cancel false)) s = refused s
  handle_event none s = refused s

  -- An error ends the stream.
  abbrev pub fail_with : Status → CallState → CallState
  fail_with failure s = send_item (err failure) s

  unfoldable pub finish_stream : Ending → CallState → CallState
  finish_stream stop_cancelled s =
      fail_with (new_status cancelled (ascii "the request was cancelled")) s
  finish_stream stop_deadline s =
      fail_with (new_status deadline_exceeded (ascii "the request deadline was exceeded")) s
  finish_stream failed s = fail_with (new_status cancelled (ascii "input stream failed")) s
  finish_stream ended s =
      if s.committed
      then s
      else fail_with (new_status invalid_argument (ascii "stream ended before commit")) s

  -- Behind a message: an error ends the stream, and so does the commit.
  unfoldable pub continue_stream : (CallState → CallState) → CallState × Flow → CallState
  unfolding map_backend_error
  continue_stream rest (t, leave) = t
  continue_stream rest (t, result (err e)) = fail_with (map_backend_error e) t
  continue_stream rest (t, result (ok done)) = if t.committed then t else rest t

  -- The loop. The end of the task cancels the request.
  unfoldable pub stream_transcribe : List (Option Event) → Ending → CallState → CallState
  unfolding handle_event finish_stream continue_stream
  stream_transcribe [] ending s = finish_stream ending s
  stream_transcribe (message ∷ messages) ending s =
      continue_stream (stream_transcribe messages ending) (handle_event message s)

  abbrev pub new_call : CallState
  new_call = record {
    sent = [];
    attempts = 0;
    session = none;
    committed = false;
    is_cancelled = false;
  }

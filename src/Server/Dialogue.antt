-- ===== src/Server/Dialogue.antt =====
-- The loops of a realtime session, crates/impossible-voice-server/src/voice_api.rs:
-- `handle_client_event`, `websocket_loop` and `websocket_session`.
use impossible_voice.Prelude.{
  ℕ, zero, suc, Bool, true, false, not, ◌&&◌, ◌||◌, Option, none, some, List, [], ◌∷◌, ltb, leb,
  ◌==◌, if◌then◌else◌, length, chunks, Result, ok, err,
}
use impossible_voice.Prelude.Stateful.{continue_with, ◌>>=◌, ◌>>◌, pure}
use impossible_voice.Stt.{Transcript}
use impossible_voice.Server.{VoiceBackendError, busy, deadline_exceeded, engine}
use impossible_voice.Server.Socket.{
  SessionMode, stt, tts, is_mode, ClientEvent, session_start, audio_append, audio_commit, cancel,
  ping, close, speech_generate, ErrorCode, audio_frame_expected, invalid_json,
  audio_declaration_required, audio_frame_invalid, stt_session_required, invalid_sequence, deadline,
  speech_metadata, speech_completed, was_cancelled, pong, failed_with, Incoming, text_message,
  binary_message, ping_message, pong_message, close_message, broken, elapsed, Outgoing, event,
  pong_reply, close_frame, Speech, Voice, Stop, failed, timed_out, Session, Method, send, refuse,
  fail_backend, send_transcripts, send_audio, cancel_request, complete, start_session,
  declare_audio, commit_audio, max_ws_message_bytes, tts_chunk_bytes,
}

module _ (voice : Voice) (delivers : ℕ → Bool) where
  open voice use {Text, Speed, Transcriber}

  -- `Ok(true)` behind a cancellation.
  unfoldable pub cancel_and_end : Method voice delivers Bool
  unfolding cancel_request
  cancel_and_end = do cancel_request voice delivers; pure true

  unfoldable pub cancel_and_refuse : ErrorCode → Method voice delivers Bool
  unfolding cancel_request refuse
  cancel_and_refuse code = do cancel_request voice delivers; refuse voice delivers code

  unfoldable pub cancel_and_tell : Method voice delivers Bool
  unfolding cancel_request send
  cancel_and_tell = do
    cancel_request voice delivers
    send voice delivers (event was_cancelled)
    pure true

  unfoldable pub answer_ping : Method voice delivers Bool
  unfolding send
  answer_ping = do send voice delivers (event pong); pure false

  -- A client event that comes in while the synthesis runs.
  unfoldable pub interrupt : Option (ClientEvent Text Speed) → Method voice delivers Bool
  unfolding cancel_and_end cancel_and_refuse cancel_and_tell answer_ping
  interrupt none = cancel_and_refuse invalid_json
  interrupt (some cancel) = cancel_and_tell
  interrupt (some close) = cancel_and_end
  interrupt (some ping) = answer_ping
  interrupt (some _) = cancel_and_refuse invalid_sequence

  unfoldable pub interrupt_message : Incoming → Method voice delivers Bool
  unfolding interrupt send cancel_and_end cancel_and_refuse
  interrupt_message (text_message bytes) = interrupt (voice.parse bytes)
  interrupt_message (ping_message bytes) = do send voice delivers (pong_reply bytes); pure false
  interrupt_message pong_message = pure false
  interrupt_message close_message = cancel_and_end
  interrupt_message broken = cancel_and_end
  interrupt_message (binary_message bytes) = cancel_and_refuse invalid_sequence
  interrupt_message elapsed = λ s. (s, err timed_out)

  -- The loop around `select!`, with the number of messages that are served before the worker is
  -- done. `true` ends the session.
  unfoldable pub wait_for_worker : ℕ → Method voice delivers Bool
  unfolding interrupt_message cancel_and_end
  wait_for_worker zero s = (s, ok false)
  wait_for_worker (suc rounds) s = elim s.incoming [
    | [] ↦ cancel_and_end s
    | message ∷ rest ↦
        continue_with (interrupt_message message (record s { incoming = rest }))
          (λ ended. if ended then pure true else wait_for_worker rounds)
  ]

  unfoldable pub publish_speech : Result VoiceBackendError Speech → Method voice delivers Bool
  unfolding fail_backend send send_audio
  publish_speech (err e) s = fail_backend voice delivers e s
  publish_speech (ok speech) s =
      if s.is_cancelled
      then (s, ok true)
      else (do
        send voice delivers (event (speech_metadata speech.sample_rate))
        send_audio voice delivers (chunks tts_chunk_bytes speech.pcm16)
        complete voice delivers
        send voice delivers (event speech_completed)
        pure false)
          s

  unfoldable pub generate_speech : Text → Speed → Method voice delivers Bool
  unfolding wait_for_worker publish_speech
  generate_speech input speed = do
    ended ← wait_for_worker voice.rounds
    if ended then pure true else publish_speech (voice.synthesize input speed)

  unfoldable pub refuse_sequence : Method voice delivers Bool
  unfolding refuse
  refuse_sequence = refuse voice delivers invalid_sequence

  abbrev pub no_mode : Option SessionMode → Bool
  no_mode none = true
  no_mode (some mode) = false

  unfoldable pub handle_client_event : ClientEvent Text Speed → Method voice delivers Bool
  unfolding start_session declare_audio commit_audio generate_speech cancel_and_tell answer_ping
      refuse_sequence
  handle_client_event (session_start mode sample_rate) s =
      if no_mode s.mode then start_session voice delivers mode sample_rate s else refuse_sequence s
  handle_client_event (audio_append bytes) s =
      if is_mode s.mode stt && not s.completed && ltb 0 bytes && leb bytes max_ws_message_bytes
      then declare_audio voice delivers bytes s
      else refuse_sequence s
  handle_client_event audio_commit s =
      if is_mode s.mode stt && not s.completed
      then commit_audio voice delivers s
      else refuse_sequence s
  handle_client_event (speech_generate input speed) s =
      if is_mode s.mode tts && not s.completed
      then generate_speech input speed s
      else refuse_sequence s
  handle_client_event cancel s = cancel_and_tell s
  handle_client_event ping s = answer_ping s
  handle_client_event close s = (s, ok true)

  unfoldable pub handle_text : List ℕ → Method voice delivers Bool
  unfolding refuse handle_client_event
  handle_text bytes s = elim s.pending_audio [
    | some expected ↦ refuse voice delivers audio_frame_expected s
    | none ↦ elim (voice.parse bytes) [
      | none ↦ refuse voice delivers invalid_json s
      | some client_event ↦ handle_client_event client_event s
    ]
  ]

  unfoldable pub report_updates :
      Result VoiceBackendError (List (Transcript Text)) → Method voice delivers Bool
  unfolding fail_backend send_transcripts
  report_updates (err e) = fail_backend voice delivers e
  report_updates (ok updates) = do send_transcripts voice delivers updates; pure false

  -- A frame of the length that was declared.
  unfoldable pub transcribe_frame : List ℕ → Method voice delivers Bool
  unfolding refuse report_updates
  transcribe_frame bytes s = elim s.transcriber [
    | none ↦ refuse voice delivers stt_session_required s
    | some transcriber ↦
        (let (pushed, result) = voice.push_pcm16 transcriber bytes in
          report_updates result (record s { transcriber = some pushed }))
  ]

  unfoldable pub handle_binary : List ℕ → Method voice delivers Bool
  unfolding refuse transcribe_frame
  handle_binary bytes s = elim s.pending_audio [
    | none ↦ refuse voice delivers audio_declaration_required s
    | some expected ↦
        if not (length bytes == expected) || ltb max_ws_message_bytes expected
        then refuse voice delivers audio_frame_invalid (record s { pending_audio = none })
        else transcribe_frame bytes (record s { pending_audio = none })
  ]

  -- One round of `websocket_loop`.
  unfoldable pub handle_message : Incoming → Method voice delivers Bool
  unfolding handle_text handle_binary send
  handle_message (text_message bytes) = handle_text bytes
  handle_message (binary_message bytes) = handle_binary bytes
  handle_message (ping_message bytes) = do send voice delivers (pong_reply bytes); pure false
  handle_message pong_message = pure false
  handle_message close_message = pure true
  handle_message broken = λ s. (s, err failed)
  handle_message elapsed = λ s. (s, err timed_out)

  -- What follows a round: the end, or the next one.
  unfoldable pub next_round :
      (Session voice delivers → Option (Session voice delivers × Result Stop (Unit {0})))
      → Session voice delivers × Result Stop Bool
      → Option (Session voice delivers × Result Stop (Unit {0}))
  next_round loop (s, ok true) = some (s, ok tt)
  next_round loop (s, ok false) = loop s
  next_round loop (s, err e) = some (s, err e)

  -- `none` if there is no fuel left.
  unfoldable pub websocket_loop :
      ℕ → Session voice delivers → Option (Session voice delivers × Result Stop (Unit {0}))
  unfolding handle_message next_round
  websocket_loop zero s = none
  websocket_loop (suc fuel) s = elim s.incoming [
    | [] ↦ some (s, ok tt)
    | message ∷ rest ↦
        next_round (websocket_loop fuel) (handle_message message (record s { incoming = rest }))
  ]

  -- The code of the close frame.
  unfoldable pub close_code : Option VoiceBackendError → ℕ
  close_code (some busy) = 1_013
  close_code (some deadline_exceeded) = 1_008
  close_code (some engine) = 1_011
  close_code _ = 1_002

  -- What is sent last, whether or not it arrives.
  unfoldable pub farewell : Result Stop (Unit {0}) → Option VoiceBackendError → ℕ
  unfolding close_code
  farewell (ok done) failure = 1_000
  farewell (err failed) failure = close_code failure
  farewell (err timed_out) failure = 1_008

  unfoldable pub attempt : Outgoing Text → Session voice delivers → Session voice delivers
  unfolding send
  attempt m s = (send voice delivers m s).0

  unfoldable pub tell_timeout :
      Result Stop (Unit {0}) → Session voice delivers → Session voice delivers
  unfolding attempt
  tell_timeout (err timed_out) s = attempt (event (failed_with deadline)) s
  tell_timeout _ s = s

  unfoldable pub close_session :
      Session voice delivers × Result Stop (Unit {0}) → Session voice delivers
  unfolding attempt tell_timeout farewell
  close_session (s, outcome) =
      attempt (close_frame (farewell outcome s.failure))
        (tell_timeout outcome (record s { is_cancelled = true }))

  unfoldable pub close_if_ended :
      Option (Session voice delivers × Result Stop (Unit {0})) → Option (Session voice delivers)
  unfolding close_session
  close_if_ended none = none
  close_if_ended (some ended) = some (close_session ended)

  abbrev pub new_session : List Incoming → Session voice delivers
  new_session messages = record {
    incoming = messages;
    sent = [];
    attempts = 0;
    mode = none;
    pending_audio = none;
    transcriber = none;
    completed = false;
    failure = none;
    is_cancelled = false;
  }

  -- One round for each message, and one to find that there is none left.
  unfoldable pub websocket_session : List Incoming → Option (Session voice delivers)
  unfolding websocket_loop close_if_ended
  websocket_session messages =
      close_if_ended (websocket_loop (suc (length messages)) (new_session messages))

-- ===== src/Server/Termination.antt =====
-- The loop of a realtime session and what stands behind it, `websocket_loop` and `websocket_session`,
-- crates/impossible-voice-server/src/voice_api.rs. Every round takes a message.
mod Sends
mod Messages
use impossible_voice.Prelude.{
  ◌⊎◌, ◌++◌, ◌+◌, ℕ, ◌≤◌, ◌≡◌, ◌≢◌, Bool, true, false, Option, Option-cases, some, List, [], ◌∷◌,
  if◌then◌else◌, chunks, Result, not, ◌||◌, ltb, ◌==◌,
}
use impossible_voice.Prelude.Stateful.{continue_with, ◌>>◌, pure, Keeps, then-Keeps}
use impossible_voice.Stt.{Transcript}
use impossible_voice.Server.Socket.{
  close_frame, SessionMode, ClientEvent, session_start, audio_append, audio_commit, cancel, ping,
  close, speech_generate, text_message, binary_message, ping_message, pong_message, close_message,
  broken, elapsed, Outgoing, audio, speech_metadata, speech_completed, Speech, Voice, Stop,
  Connection, Session, Method, refuse, fail_backend, send_transcript, send_transcripts, send_audio,
  complete, cancel_request, open_transcriber, start_session, declare_audio, finish_transcript,
  commit_audio, tts_chunk_bytes, max_ws_message_bytes, invalid_sequence, audio_frame_expected,
  invalid_json, stt_session_required, audio_declaration_required, audio_frame_invalid, pong_reply,
}
use impossible_voice.Server.Dialogue.{
  cancel_and_end, cancel_and_refuse, cancel_and_tell, answer_ping, interrupt, interrupt_message,
  wait_for_worker, publish_speech, generate_speech, refuse_sequence, handle_client_event,
  handle_text, report_updates, transcribe_frame, handle_binary,
}
pub use Sends.{is_close, all_open}

-- The codes of a close frame: closed, busy, late, engine failed, protocol error.
abbrev pub is_close_code : ℕ → Bool
is_close_code code =
    code == 1_000 || code == 1_013 || code == 1_008 || code == 1_011 || code == 1_002

module _ (voice : Voice) (delivers : ℕ → Bool) where
  open voice use {Text, Speed, Transcriber}

  -- The loop ends, and no close frame was sent.
  abbrev Ends : Option (Session voice delivers × Result Stop (Unit {0})) → Type 0
  Ends r =
      (t : Session voice delivers) × (outcome : Result Stop (Unit {0})) × (r ≡ some (t, outcome))
      × (all_open voice delivers t.sent ≡ true)

  -- A close frame was delivered behind `before`, or the last thing sent was one and did not arrive.
  abbrev pub IsClosed : List (Outgoing Text) → ℕ → Connection Text Transcriber → Type 0
  IsClosed before code s =
      (s.sent ≡ before ++ (close_frame code ∷ []))
      ⊎ ((s.sent ≡ before) × (n : ℕ) × (s.attempts ≡ n + 1) × (delivers n ≡ false))

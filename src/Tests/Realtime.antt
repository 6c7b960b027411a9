-- ===== src/Tests/Realtime.antt =====
-- Realtime sessions of crates/impossible-voice-server/src/voice_api.rs, with a peer whose texts are
-- single bytes and a recognizer that counts bytes.
use impossible_voice.Prelude.{
  ℕ, ◌+◌, ◌≡◌, refl, Bool, true, false, Option, none, some, List, [], ◌∷◌, arith, length, ◌==◌,
  if◌then◌else◌, ok,
}
use impossible_voice.Stt.{final}
use impossible_voice.Server.Socket.{
  stt, ClientEvent, session_start, audio_append, audio_commit, close, session_ready,
  session_completed, transcript_final, Incoming, text_message, binary_message, Outgoing, event,
  close_frame, Voice, Connection, send, open_transcriber, start_session, declare_audio,
  finish_transcript, commit_audio, send_transcript, send_transcripts,
}
use impossible_voice.Server.Dialogue.{
  handle_client_event, handle_text, report_updates, transcribe_frame, handle_binary, handle_message,
  websocket_loop, farewell, tell_timeout, close_session, attempt, new_session, websocket_session,
}
use impossible_voice.Server.Protocol.{IsReady}
use impossible_voice.Server.Rounds.{handle_message-IsReady}

abbrev parse : List ℕ → Option (ClientEvent ℕ ℕ)
parse (b ∷ []) =
    if b == 0
    then some (session_start stt (some 16_000))
    else if b == 1
    then some (audio_append 2)
    else if b == 2
    then some audio_commit
    else if b == 3
    then some close
    else none
parse _ = none

abbrev voice : Voice
voice = record {
  Text = ℕ;
  Speed = ℕ;
  Transcriber = ℕ;
  parse = parse;
  start_transcription = λ rate. ok 0;
  push_pcm16 = λ heard bytes. (heard + length bytes, ok []);
  finish = λ heard. ok (record { kind = final; text = heard });
  synthesize = λ text speed. ok (record { sample_rate = 22_050; pcm16 = 1 ∷ 2 ∷ [] });
  rounds = 0;
}

abbrev delivered : ℕ → Bool
delivered n = true

abbrev dialogue : List Incoming
dialogue =
    text_message (0 ∷ [])
    ∷ text_message (1 ∷ [])
    ∷ binary_message (7 ∷ 8 ∷ [])
    ∷ text_message (2 ∷ [])
    ∷ text_message (3 ∷ [])
    ∷ []

abbrev transcript : Option (Connection ℕ ℕ) → List (Outgoing ℕ)
transcript none = []
transcript (some s) = s.sent

closed :
    transcript (websocket_session voice delivered dialogue)
    ≡ event session_ready
      ∷ event (transcript_final 2)
      ∷ event session_completed
      ∷ close_frame 1_000
      ∷ []
unfolding websocket_session websocket_loop handle_message handle_text handle_client_event
    start_session open_transcriber send declare_audio handle_binary transcribe_frame report_updates
    send_transcripts commit_audio finish_transcript send_transcript farewell tell_timeout
    close_session attempt
closed = refl

-- A recognition of which a frame of two bytes is declared.
abbrev waiting : Connection ℕ ℕ
waiting = record (new_session voice delivered []) {
  mode = some stt;
  pending_audio = some 2;
  transcriber = some 0;
}

waiting-IsReady : IsReady voice delivered waiting
waiting-IsReady = record { declared = λ n e. ground arith; listening = λ m o. (0, refl) }

abbrev heard : Connection ℕ ℕ
heard = record waiting { pending_audio = none; transcriber = some 2 }

framed : handle_message voice delivered (binary_message (7 ∷ 8 ∷ [])) waiting ≡ (heard, ok false)
unfolding handle_message handle_binary transcribe_frame report_updates send_transcripts
framed = refl

handle_message-IsReady_example : IsReady voice delivered heard
handle_message-IsReady_example =
    handle_message-IsReady voice delivered (binary_message (7 ∷ 8 ∷ [])) waiting heard
      waiting-IsReady framed

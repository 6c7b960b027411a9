-- ===== src/Server/Termination/Messages.antt =====
-- The rounds of a realtime session, `handle_message` and below,
-- crates/impossible-voice-server/src/voice_api.rs.
use impossible_voice.Prelude.{
  ℕ, zero, suc, ◌≡◌, refl, inl, inr, Bool, true, false, Option, Option-cases, none, some, List, [],
  ◌∷◌, arith, if◌then◌else◌, length, chunks, Result, ok, err, not, ◌||◌, ltb, ◌==◌,
}
use impossible_voice.Prelude.Stateful.{continue_with, ◌>>◌, pure, Keeps, then-Keeps}
use impossible_voice.Stt.{Transcript}
use impossible_voice.Server.{VoiceBackendError}
use impossible_voice.Server.Socket.{
  stt, tts, session_ready, session_completed, sample_rate_required, sample_rate_not_allowed,
  error_code, SessionMode, ClientEvent, session_start, audio_append, audio_commit, cancel, ping,
  close, speech_generate, Incoming, text_message, binary_message, ping_message, pong_message,
  close_message, broken, elapsed, event, speech_metadata, speech_completed, Speech, Voice, Stop,
  Connection, Method, send, refuse, fail_backend, send_transcript, send_transcripts, send_audio,
  complete, cancel_request, open_transcriber, start_session, declare_audio, finish_transcript,
  commit_audio, tts_chunk_bytes, max_ws_message_bytes, invalid_sequence, audio_frame_expected,
  invalid_json, stt_session_required, audio_declaration_required, audio_frame_invalid, pong_reply,
}
use impossible_voice.Server.Dialogue.{
  cancel_and_end, interrupt_message, wait_for_worker, publish_speech, generate_speech,
  refuse_sequence, handle_client_event, handle_text, report_updates, transcribe_frame,
  handle_binary, handle_message,
}
use impossible_voice.Server.Termination.Sends.{
  IsOpen, take_message, IsOpen-le, send-IsOpen, send_transcript-IsOpen, send_transcripts-IsOpen,
  send_audio-IsOpen, refuse-IsOpen, tell-IsOpen, cancel_and_tell-IsOpen, answer_ping-IsOpen,
  interrupt_message-IsOpen,
}

module _ (voice : Voice) (delivers : ℕ → Bool) where
  open voice use {Text, Speed, Transcriber}

  unless_ended-IsOpen :
      (n : ℕ) (k : Method voice delivers Bool) (r : Connection Text Transcriber × Result Stop Bool)
      → IsOpen voice delivers n r.0
      → Keeps (IsOpen voice delivers n) k
      → IsOpen voice delivers n (continue_with r (λ ended. if ended then pure true else k)).0
  unless_ended-IsOpen n k (t, ok true) h keeps = h
  unless_ended-IsOpen n k (t, ok false) h keeps = keeps t h
  unless_ended-IsOpen n k (t, err x) h keeps = h

  wait_for_worker-IsOpen :
      (n rounds : ℕ) → Keeps (IsOpen voice delivers n) (wait_for_worker voice delivers rounds)
  unfolding wait_for_worker cancel_and_end cancel_request
  wait_for_worker-IsOpen n zero s h = h
  wait_for_worker-IsOpen n (suc rounds) s h = go s.incoming refl (wait_for_worker-IsOpen n rounds)
    where
      go :
          (l : List Incoming)
          → s.incoming ≡ l
          → Keeps (IsOpen voice delivers n) (wait_for_worker voice delivers rounds)
          → IsOpen voice delivers n (wait_for_worker voice delivers (suc rounds) s).0
      go [] q keeps = rw (q, wait_for_worker) (h.0, h.1)
      go (m ∷ rest) q keeps =
          rw (q, wait_for_worker)
            (unless_ended-IsOpen n (wait_for_worker voice delivers rounds)
              (interrupt_message voice delivers m (record s { incoming = rest }))
              (interrupt_message-IsOpen voice delivers n m (record s { incoming = rest })
                (take_message voice delivers n s m rest q
                  (IsOpen-le voice delivers n (suc n) s (omega arith) h)))
              keeps)

  branch-IsOpen :
      {A : Type 0} (n : ℕ) (b : Bool) (r r' : Connection Text Transcriber × Result Stop A)
      → IsOpen voice delivers n r.0
      → IsOpen voice delivers n r'.0
      → IsOpen voice delivers n (if b then r else r').0
  branch-IsOpen n true r r' h h' = h
  branch-IsOpen n false r r' h h' = h'

  fail_backend-IsOpen :
      (n : ℕ) (e : VoiceBackendError)
      → Keeps (IsOpen voice delivers n) (fail_backend voice delivers {A = Bool} e)
  unfolding fail_backend
  fail_backend-IsOpen n e s h =
      refuse-IsOpen voice delivers n (error_code e) (record s { failure = some e }) h

  open_transcriber-IsOpen :
      (n : ℕ) (r : Result VoiceBackendError Transcriber)
      → Keeps (IsOpen voice delivers n) (open_transcriber voice delivers r)
  unfolding open_transcriber
  open_transcriber-IsOpen n (err e) = fail_backend-IsOpen n e
  open_transcriber-IsOpen n (ok t) = λ s h.
      tell-IsOpen voice delivers n (event session_ready) false refl
        (record s { transcriber = some t }) h

  start_session-IsOpen :
      (n : ℕ) (mode : SessionMode) (rate : Option ℕ)
      → Keeps (IsOpen voice delivers n) (start_session voice delivers mode rate)
  unfolding start_session
  start_session-IsOpen n stt none =
      λ s h. refuse-IsOpen voice delivers n sample_rate_required (record s { mode = some stt }) h
  start_session-IsOpen n stt (some rate) = λ s h.
      open_transcriber-IsOpen n (voice.start_transcription rate) (record s { mode = some stt }) h
  start_session-IsOpen n tts (some rate) =
      λ s h. refuse-IsOpen voice delivers n sample_rate_not_allowed (record s { mode = some tts }) h
  start_session-IsOpen n tts none = λ s h.
      tell-IsOpen voice delivers n (event session_ready) false refl (record s { mode = some tts }) h

  finish_transcript-IsOpen :
      (n : ℕ) (r : Result VoiceBackendError (Transcript Text))
      → Keeps (IsOpen voice delivers n) (finish_transcript voice delivers r)
  unfolding finish_transcript
  finish_transcript-IsOpen n (err e) = fail_backend-IsOpen n e
  finish_transcript-IsOpen n (ok update) =
      then-Keeps (IsOpen voice delivers n) (send_transcript voice delivers update)
        (complete voice delivers >> (send voice delivers (event session_completed) >> pure false))
        (send_transcript-IsOpen voice delivers n update)
        (λ s h.
          tell-IsOpen voice delivers n (event session_completed) false refl
            (record s { completed = true }) h)

  report_updates-IsOpen :
      (n : ℕ) (r : Result VoiceBackendError (List (Transcript Text)))
      → Keeps (IsOpen voice delivers n) (report_updates voice delivers r)
  unfolding report_updates
  report_updates-IsOpen n (err e) s h = fail_backend-IsOpen n e s h
  report_updates-IsOpen n (ok updates) s h =
      then-Keeps (IsOpen voice delivers n) (send_transcripts voice delivers updates) (pure false)
        (send_transcripts-IsOpen voice delivers n updates) (λ t q. q) s h

  speech_end-IsOpen :
      (n : ℕ)
      → Keeps
          (IsOpen voice delivers n)
          (complete voice delivers >> (send voice delivers (event speech_completed) >> pure false))
  speech_end-IsOpen n s h =
      tell-IsOpen voice delivers n (event speech_completed) false refl
        (record s { completed = true }) h

  publish_speech-IsOpen :
      (n : ℕ) (r : Result VoiceBackendError Speech)
      → Keeps (IsOpen voice delivers n) (publish_speech voice delivers r)
  unfolding publish_speech
  publish_speech-IsOpen n (err e) s h = fail_backend-IsOpen n e s h
  publish_speech-IsOpen n (ok speech) s h =
      let pieces = chunks tts_chunk_bytes speech.pcm16 in
      let rest =
        complete voice delivers >> (send voice delivers (event speech_completed) >> pure false) in
      branch-IsOpen n s.is_cancelled (s, ok true)
        ((send voice delivers (event (speech_metadata speech.sample_rate))
            >> (send_audio voice delivers pieces >> rest))
          s)
        h
        (then-Keeps (IsOpen voice delivers n)
          (send voice delivers (event (speech_metadata speech.sample_rate)))
          (send_audio voice delivers pieces >> rest)
          (send-IsOpen voice delivers n (event (speech_metadata speech.sample_rate)) refl)
          (then-Keeps (IsOpen voice delivers n) (send_audio voice delivers pieces) rest
            (send_audio-IsOpen voice delivers n pieces) (speech_end-IsOpen n))
          s h)

  generate_speech-IsOpen :
      (n : ℕ) (input : Text) (speed : Speed)
      → Keeps (IsOpen voice delivers n) (generate_speech voice delivers input speed)
  unfolding generate_speech
  generate_speech-IsOpen n input speed s h =
      unless_ended-IsOpen n (publish_speech voice delivers (voice.synthesize input speed))
        (wait_for_worker voice delivers voice.rounds s) (wait_for_worker-IsOpen n voice.rounds s h)
        (publish_speech-IsOpen n (voice.synthesize input speed))

  commit_audio-IsOpen : (n : ℕ) → Keeps (IsOpen voice delivers n) (commit_audio voice delivers)
  unfolding commit_audio
  commit_audio-IsOpen n s h = elim (Option-cases s.transcriber) [
    | inl e ↦ rw (e, commit_audio) (refuse-IsOpen voice delivers n invalid_sequence s h)
    | inr (t, e) ↦
        rw (e, commit_audio)
          (finish_transcript-IsOpen n (voice.finish t) (record s { transcriber = none }) h)
  ]

  handle_client_event-IsOpen :
      (n : ℕ) (e : ClientEvent Text Speed)
      → Keeps (IsOpen voice delivers n) (handle_client_event voice delivers e)
  unfolding handle_client_event refuse_sequence declare_audio
  handle_client_event-IsOpen n (session_start mode rate) s h =
      branch-IsOpen n _ (start_session voice delivers mode rate s) _
        (start_session-IsOpen n mode rate s h) (refuse-IsOpen voice delivers n invalid_sequence s h)
  handle_client_event-IsOpen n (audio_append bytes) s h =
      branch-IsOpen n _ (declare_audio voice delivers bytes s) _ h
        (refuse-IsOpen voice delivers n invalid_sequence s h)
  handle_client_event-IsOpen n audio_commit s h =
      branch-IsOpen n _ (commit_audio voice delivers s) _ (commit_audio-IsOpen n s h)
        (refuse-IsOpen voice delivers n invalid_sequence s h)
  handle_client_event-IsOpen n (speech_generate input speed) s h =
      branch-IsOpen n _ (generate_speech voice delivers input speed s) _
        (generate_speech-IsOpen n input speed s h)
        (refuse-IsOpen voice delivers n invalid_sequence s h)
  handle_client_event-IsOpen n cancel s h = cancel_and_tell-IsOpen voice delivers n s h
  handle_client_event-IsOpen n ping s h = answer_ping-IsOpen voice delivers n s h
  handle_client_event-IsOpen n close s h = h

  handle_text-IsOpen :
      (n : ℕ) (bytes : List ℕ) → Keeps (IsOpen voice delivers n) (handle_text voice delivers bytes)
  unfolding handle_text
  handle_text-IsOpen n bytes s h = elim (Option-cases s.pending_audio) [
    | inr (k, e) ↦ rw (e, handle_text) (refuse-IsOpen voice delivers n audio_frame_expected s h)
    | inl e ↦ elim (Option-cases (voice.parse bytes)) [
      | inl q ↦
          rw (e, handle_text)
            (rw (q, handle_text) (refuse-IsOpen voice delivers n invalid_json s h))
      | inr (client_event, q) ↦
          rw (e, handle_text) (rw (q, handle_text) (handle_client_event-IsOpen n client_event s h))
    ]
  ]

  transcribe_frame-IsOpen :
      (n : ℕ) (bytes : List ℕ)
      → Keeps (IsOpen voice delivers n) (transcribe_frame voice delivers bytes)
  unfolding transcribe_frame
  transcribe_frame-IsOpen n bytes s h = elim (Option-cases s.transcriber) [
    | inl e ↦ rw (e, transcribe_frame) (refuse-IsOpen voice delivers n stt_session_required s h)
    | inr (t, e) ↦
        rw (e, transcribe_frame)
          (report_updates-IsOpen n (voice.push_pcm16 t bytes).1
            (record s { transcriber = some (voice.push_pcm16 t bytes).0 }) h)
  ]

  handle_binary-IsOpen :
      (n : ℕ) (bytes : List ℕ)
      → Keeps (IsOpen voice delivers n) (handle_binary voice delivers bytes)
  unfolding handle_binary
  handle_binary-IsOpen n bytes s h = elim (Option-cases s.pending_audio) [
    | inl e ↦ rw (e, handle_binary) (refuse-IsOpen voice delivers n audio_declaration_required s h)
    | inr (expected, e) ↦
        rw (e, handle_binary)
          (branch-IsOpen n (not (length bytes == expected) || ltb max_ws_message_bytes expected)
            (refuse voice delivers audio_frame_invalid (record s { pending_audio = none }))
            (transcribe_frame voice delivers bytes (record s { pending_audio = none }))
            (refuse-IsOpen voice delivers n audio_frame_invalid (record s { pending_audio = none })
              h)
            (transcribe_frame-IsOpen n bytes (record s { pending_audio = none }) h))
  ]

  pub handle_message-IsOpen :
      (n : ℕ) (m : Incoming) → Keeps (IsOpen voice delivers n) (handle_message voice delivers m)
  unfolding handle_message
  handle_message-IsOpen n (text_message bytes) s h = handle_text-IsOpen n bytes s h
  handle_message-IsOpen n (binary_message bytes) s h = handle_binary-IsOpen n bytes s h
  handle_message-IsOpen n (ping_message bytes) s h =
      then-Keeps (IsOpen voice delivers n) (send voice delivers (pong_reply bytes)) (pure false)
        (send-IsOpen voice delivers n (pong_reply bytes) refl) (λ t q. q) s h
  handle_message-IsOpen n pong_message s h = h
  handle_message-IsOpen n close_message s h = h
  handle_message-IsOpen n broken s h = h
  handle_message-IsOpen n elapsed s h = h

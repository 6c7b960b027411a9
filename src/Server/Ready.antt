-- ===== src/Server/Ready.antt =====
-- A realtime session that goes on is ready for the next message,
-- crates/impossible-voice-server/src/voice_api.rs.
use impossible_voice.Prelude.{
  ℕ, zero, suc, ◌≤◌, ◌<◌, ◌≡◌, refl, ◌∙◌, inl, inr, Option-cases, Bool, true, false, not, ◌&&◌,
  Option, none, some, List, [], ◌∷◌, arith, ltb, leb, if◌then◌else◌, chunks, Result, ok, err,
}
use impossible_voice.Prelude.Stateful.{continue_with, ◌>>◌, pure, Keeps}
use impossible_voice.Stt.{Transcript}
use impossible_voice.Server.{VoiceBackendError}
use impossible_voice.Server.Socket.{
  SessionMode, stt, tts, is_mode, ClientEvent, session_start, audio_append, audio_commit, cancel,
  ping, close, speech_generate, event, session_ready, session_completed, speech_metadata,
  speech_completed, complete, tts_chunk_bytes, invalid_sequence, sample_rate_required,
  sample_rate_not_allowed, pong, Incoming, Outgoing, Speech, Voice, Stop, Connection, Method, send,
  refuse, send_transcript, send_audio, cancel_request, open_transcriber, start_session,
  declare_audio, finish_transcript, commit_audio, max_ws_message_bytes,
}
use impossible_voice.Server.Dialogue.{
  cancel_and_end, cancel_and_tell, interrupt_message, wait_for_worker, publish_speech,
  generate_speech, no_mode, refuse_sequence, handle_client_event,
}
use impossible_voice.Server.Protocol.{
  IsReady, IsLike, Steady, IsLike-refl, IsReady-IsLike, send-IsLike, send_transcript-IsLike,
  send_audio-IsLike, interrupt_message-IsLike, after-Steady, branch-Steady, refuse-Steady,
  fail_backend-Steady,
}

module _ (voice : Voice) (delivers : ℕ → Bool) where
  open voice use {Text, Speed, Transcriber}

  unless_ended-IsLike :
      (s : Connection Text Transcriber) (k : Method voice delivers Bool)
      (r : Connection Text Transcriber × Result Stop Bool)
      → IsLike voice delivers s r.0
      → Keeps (IsLike voice delivers s) k
      → IsLike voice delivers s (continue_with r (λ ended. if ended then pure true else k)).0
  unless_ended-IsLike s k (t, ok true) e keeps = e
  unless_ended-IsLike s k (t, ok false) e keeps = keeps t e
  unless_ended-IsLike s k (t, err x) e keeps = e

  wait_for_worker-IsLike :
      (s : Connection Text Transcriber) (rounds : ℕ)
      → Keeps (IsLike voice delivers s) (wait_for_worker voice delivers rounds)
  unfolding wait_for_worker cancel_and_end cancel_request
  wait_for_worker-IsLike s zero t e = e
  wait_for_worker-IsLike s (suc rounds) t e = go t.incoming refl (wait_for_worker-IsLike s rounds)
    where
      taken : (rest : List Incoming) → IsLike voice delivers s (record t { incoming = rest })
      taken rest = record {
        same_mode = e.same_mode;
        same_pending = e.same_pending;
        same_transcriber = e.same_transcriber;
        same_completed = e.same_completed;
      }

      go :
          (l : List Incoming)
          → t.incoming ≡ l
          → Keeps (IsLike voice delivers s) (wait_for_worker voice delivers rounds)
          → IsLike voice delivers s (wait_for_worker voice delivers (suc rounds) t).0
      go [] q keeps =
          rw (q, wait_for_worker)
            (record {
              same_mode = e.same_mode;
              same_pending = e.same_pending;
              same_transcriber = e.same_transcriber;
              same_completed = e.same_completed;
            })
      go (m ∷ rest) q keeps =
          rw (q, wait_for_worker)
            (unless_ended-IsLike s (wait_for_worker voice delivers rounds)
              (interrupt_message voice delivers m (record t { incoming = rest }))
              (interrupt_message-IsLike voice delivers s m (record t { incoming = rest })
                (taken rest))
              keeps)

  -- The last message of a method, behind which the session goes on.
  pub go_on :
      (m : Outgoing Text) (s : Connection Text Transcriber)
      → IsReady voice delivers s
      → Steady voice delivers ((send voice delivers m >> pure false) s)
  go_on m s w =
      after-Steady voice delivers s (send voice delivers m s) (λ _. pure false)
        (send-IsLike voice delivers s m s (IsLike-refl voice delivers s))
        (λ _ t e. IsReady-IsLike voice delivers s t e w)

  -- Without a declared frame and without an open recognition.
  pub idle-IsReady :
      (s : Connection Text Transcriber)
      → s.pending_audio ≡ none
      → (s.mode ≡ some stt → s.completed ≡ true)
      → IsReady voice delivers s
  idle-IsReady s p c = record { declared = λ n e. cc; listening = λ m o. ground (arith, c m) }

  open_transcriber-Steady :
      (r : Result VoiceBackendError Transcriber) (s : Connection Text Transcriber)
      → s.pending_audio ≡ none
      → Steady voice delivers (open_transcriber voice delivers r s)
  unfolding open_transcriber
  open_transcriber-Steady (ok transcriber) s h =
      go_on (event session_ready) (record s { transcriber = some transcriber })
        (record { declared = λ n q. cc; listening = λ m o. (transcriber, refl) })
  open_transcriber-Steady (err x) s h = fail_backend-Steady voice delivers x s

  start_session-Steady :
      (mode : SessionMode) (rate : Option ℕ) (s : Connection Text Transcriber)
      → s.pending_audio ≡ none
      → Steady voice delivers (start_session voice delivers mode rate s)
  unfolding start_session
  start_session-Steady stt none s h =
      refuse-Steady voice delivers sample_rate_required (record s { mode = some stt })
  start_session-Steady stt (some rate) s h =
      open_transcriber-Steady (voice.start_transcription rate) (record s { mode = some stt }) h
  start_session-Steady tts none s h =
      go_on (event session_ready) (record s { mode = some tts })
        (idle-IsReady (record s { mode = some tts }) h (λ e. cc))
  start_session-Steady tts (some rate) s h =
      refuse-Steady voice delivers sample_rate_not_allowed (record s { mode = some tts })

  declare_audio-Steady :
      (bytes : ℕ) (s : Connection Text Transcriber)
      → IsReady voice delivers s
      → s.mode ≡ some stt
      → s.completed ≡ false
      → 0 < bytes
      → bytes ≤ max_ws_message_bytes
      → Steady voice delivers (declare_audio voice delivers bytes s)
  unfolding declare_audio
  declare_audio-Steady bytes s w m c l u = record {
    declared = λ n e. ground arith;
    listening = w.listening;
  }

  finish_transcript-Steady :
      (r : Result VoiceBackendError (Transcript Text)) (s : Connection Text Transcriber)
      → s.pending_audio ≡ none
      → Steady voice delivers (finish_transcript voice delivers r s)
  unfolding finish_transcript
  finish_transcript-Steady (err x) s h = fail_backend-Steady voice delivers x s
  finish_transcript-Steady (ok update) s h =
      after-Steady voice delivers s (send_transcript voice delivers update s)
        (λ _.
          complete voice delivers >> (send voice delivers (event session_completed) >> pure false))
        (send_transcript-IsLike voice delivers s update s (IsLike-refl voice delivers s))
        (λ _ t e.
          go_on (event session_completed) (record t { completed = true })
            (idle-IsReady (record t { completed = true }) (e.same_pending ∙ h) (λ m. refl)))

  commit_audio-Steady :
      (s : Connection Text Transcriber)
      → s.pending_audio ≡ none
      → Steady voice delivers (commit_audio voice delivers s)
  unfolding commit_audio
  commit_audio-Steady s h = elim (Option-cases s.transcriber) [
    | inl e ↦ rw (e, commit_audio) (refuse-Steady voice delivers invalid_sequence s)
    | inr (transcriber, e) ↦
        rw (e, commit_audio)
          (finish_transcript-Steady (voice.finish transcriber) (record s { transcriber = none }) h)
  ]

  publish_speech-Steady :
      (r : Result VoiceBackendError Speech) (s : Connection Text Transcriber)
      → s.pending_audio ≡ none
      → Steady voice delivers (publish_speech voice delivers r s)
  unfolding publish_speech
  publish_speech-Steady (err x) s h = fail_backend-Steady voice delivers x s
  publish_speech-Steady (ok speech) s h =
      let pieces = chunks tts_chunk_bytes speech.pcm16 in
      branch-Steady voice delivers s.is_cancelled (s, ok true)
        ((send voice delivers (event (speech_metadata speech.sample_rate))
            >> (send_audio voice delivers pieces
                >> (complete voice delivers
                    >> (send voice delivers (event speech_completed) >> pure false))))
          s)
        (λ c. tt)
        (after-Steady voice delivers s
          (send voice delivers (event (speech_metadata speech.sample_rate)) s)
          (λ _.
            send_audio voice delivers pieces
            >> (complete voice delivers
                >> (send voice delivers (event speech_completed) >> pure false)))
          (send-IsLike voice delivers s (event (speech_metadata speech.sample_rate)) s
            (IsLike-refl voice delivers s))
          (λ _ t e.
            after-Steady voice delivers s (send_audio voice delivers pieces t)
              (λ _.
                complete voice delivers
                >> (send voice delivers (event speech_completed) >> pure false))
              (send_audio-IsLike voice delivers s pieces t e)
              (λ _ u e'.
                go_on (event speech_completed) (record u { completed = true })
                  (idle-IsReady (record u { completed = true }) (e'.same_pending ∙ h)
                    (λ m. refl)))))

  spoken-Steady :
      (input : Text) (speed : Speed) (ended : Bool) (s : Connection Text Transcriber)
      → s.pending_audio ≡ none
      → Steady voice delivers (
          (if ended
              then pure true
              else publish_speech voice delivers (voice.synthesize input speed))
            s)
  spoken-Steady input speed true s h = tt
  spoken-Steady input speed false s h = publish_speech-Steady (voice.synthesize input speed) s h

  generate_speech-Steady :
      (input : Text) (speed : Speed) (s : Connection Text Transcriber)
      → s.pending_audio ≡ none
      → Steady voice delivers (generate_speech voice delivers input speed s)
  unfolding generate_speech
  generate_speech-Steady input speed s h =
      after-Steady voice delivers s (wait_for_worker voice delivers voice.rounds s)
        (λ ended.
          if ended then pure true else publish_speech voice delivers (voice.synthesize input speed))
        (wait_for_worker-IsLike s voice.rounds s (IsLike-refl voice delivers s))
        (λ ended t e. spoken-Steady input speed ended t (e.same_pending ∙ h))

  is_mode-eq-true :
      (m : Option SessionMode) (mode : SessionMode) → is_mode m mode ≡ true → m ≡ some mode
  is_mode-eq-true none mode h = cc
  is_mode-eq-true (some stt) stt h = refl
  is_mode-eq-true (some stt) tts h = cc
  is_mode-eq-true (some tts) stt h = cc
  is_mode-eq-true (some tts) tts h = refl

  told_cancelled-Steady :
      (s : Connection Text Transcriber) → Steady voice delivers (cancel_and_tell voice delivers s)
  unfolding cancel_and_tell cancel_request send
  told_cancelled-Steady s = ground arith

  pub handle_client_event-Steady :
      (e : ClientEvent Text Speed) (s : Connection Text Transcriber)
      → IsReady voice delivers s
      → s.pending_audio ≡ none
      → Steady voice delivers (handle_client_event voice delivers e s)
  unfolding handle_client_event refuse_sequence
  handle_client_event-Steady (session_start mode rate) s w h =
      branch-Steady voice delivers (no_mode voice delivers s.mode)
        (start_session voice delivers mode rate s) (refuse voice delivers invalid_sequence s)
        (λ c. start_session-Steady mode rate s h) (refuse-Steady voice delivers invalid_sequence s)
  handle_client_event-Steady (audio_append bytes) s w h =
      branch-Steady voice delivers
        (is_mode s.mode stt && not s.completed && ltb 0 bytes && leb bytes max_ws_message_bytes)
        (declare_audio voice delivers bytes s) (refuse voice delivers invalid_sequence s)
        (λ c.
          declare_audio-Steady bytes s w (is_mode-eq-true s.mode stt (ground (arith, c)))
            (ground (arith, c)) (ground (arith, c)) (ground (arith, c)))
        (refuse-Steady voice delivers invalid_sequence s)
  handle_client_event-Steady audio_commit s w h =
      branch-Steady voice delivers (is_mode s.mode stt && not s.completed)
        (commit_audio voice delivers s) (refuse voice delivers invalid_sequence s)
        (λ c. commit_audio-Steady s h) (refuse-Steady voice delivers invalid_sequence s)
  handle_client_event-Steady (speech_generate input speed) s w h =
      branch-Steady voice delivers (is_mode s.mode tts && not s.completed)
        (generate_speech voice delivers input speed s) (refuse voice delivers invalid_sequence s)
        (λ c. generate_speech-Steady input speed s h)
        (refuse-Steady voice delivers invalid_sequence s)
  handle_client_event-Steady cancel s w h = told_cancelled-Steady s
  handle_client_event-Steady ping s w h = go_on (event pong) s w
  handle_client_event-Steady close s w h = tt

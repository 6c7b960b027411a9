-- ===== src/Server/Rounds.antt =====
-- One round of `websocket_loop`, crates/impossible-voice-server/src/voice_api.rs.
use impossible_voice.Prelude.{
  ℕ, ◌≤◌, ◌≡◌, refl, inl, inr, Option-cases, Bool, false, not, ◌||◌, none, some, List, arith, ltb,
  ◌==◌, ==_refl, length, Result, ok, err, subst,
}
use impossible_voice.Prelude.Stateful.{pure}
use impossible_voice.Stt.{Transcript}
use impossible_voice.Server.{VoiceBackendError}
use impossible_voice.Server.Socket.{
  invalid_json, audio_frame_expected, audio_declaration_required, audio_frame_invalid, pong_reply,
  stt_session_required, Incoming, text_message, binary_message, ping_message, pong_message,
  close_message, broken, elapsed, Voice, Connection, refuse, send_transcripts, max_ws_message_bytes,
}
use impossible_voice.Server.Dialogue.{
  handle_text, report_updates, transcribe_frame, handle_binary, handle_message, new_session,
}
use impossible_voice.Server.Protocol.{
  IsReady, Steady, IsLike-refl, IsReady-IsLike, send_transcripts-IsLike, after-Steady,
  branch-Steady, refuse-Steady, fail_backend-Steady,
}
use impossible_voice.Server.Ready.{go_on, idle-IsReady, handle_client_event-Steady}

module _ (voice : Voice) (delivers : ℕ → Bool) where
  open voice use {Text, Transcriber}

  handle_text-Steady :
      (bytes : List ℕ) (s : Connection Text Transcriber)
      → IsReady voice delivers s
      → Steady voice delivers (handle_text voice delivers bytes s)
  unfolding handle_text
  handle_text-Steady bytes s w = elim (Option-cases s.pending_audio) [
    | inr (n, e) ↦ rw (e, handle_text) (refuse-Steady voice delivers audio_frame_expected s)
    | inl e ↦ elim (Option-cases (voice.parse bytes)) [
      | inl q ↦
          rw (e, handle_text) (rw (q, handle_text) (refuse-Steady voice delivers invalid_json s))
      | inr (client_event, q) ↦
          rw (e, handle_text)
            (rw (q, handle_text) (handle_client_event-Steady voice delivers client_event s w e))
    ]
  ]

  report_updates-Steady :
      (r : Result VoiceBackendError (List (Transcript Text))) (s : Connection Text Transcriber)
      → IsReady voice delivers s
      → Steady voice delivers (report_updates voice delivers r s)
  unfolding report_updates
  report_updates-Steady (err x) s w = fail_backend-Steady voice delivers x s
  report_updates-Steady (ok updates) s w =
      after-Steady voice delivers s (send_transcripts voice delivers updates s) (λ _. pure false)
        (send_transcripts-IsLike voice delivers s updates s (IsLike-refl voice delivers s))
        (λ _ t e. IsReady-IsLike voice delivers s t e w)

  -- The declaration is used up by the frame.
  taken-IsReady :
      (s : Connection Text Transcriber)
      → IsReady voice delivers s
      → IsReady voice delivers (record s { pending_audio = none })
  taken-IsReady s w = record { declared = λ n e. cc; listening = w.listening }

  transcribe_frame-Steady :
      (bytes : List ℕ) (s : Connection Text Transcriber)
      → IsReady voice delivers s
      → Steady voice delivers (transcribe_frame voice delivers bytes s)
  unfolding transcribe_frame
  transcribe_frame-Steady bytes s w = elim (Option-cases s.transcriber) [
    | inl e ↦ rw (e, transcribe_frame) (refuse-Steady voice delivers stt_session_required s)
    | inr (t, e) ↦
        rw (e, transcribe_frame)
          (report_updates-Steady (voice.push_pcm16 t bytes).1
            (record s { transcriber = some (voice.push_pcm16 t bytes).0 })
            (record {
              declared = w.declared;
              listening = λ m o. ((voice.push_pcm16 t bytes).0, refl);
            }))
  ]

  handle_binary-Steady :
      (bytes : List ℕ) (s : Connection Text Transcriber)
      → IsReady voice delivers s
      → Steady voice delivers (handle_binary voice delivers bytes s)
  unfolding handle_binary
  handle_binary-Steady bytes s w = elim (Option-cases s.pending_audio) [
    | inl e ↦ rw (e, handle_binary) (refuse-Steady voice delivers audio_declaration_required s)
    | inr (expected, e) ↦
        rw (e, handle_binary)
          (branch-Steady voice delivers
            (not (length bytes == expected) || ltb max_ws_message_bytes expected)
            (refuse voice delivers audio_frame_invalid (record s { pending_audio = none }))
            (transcribe_frame voice delivers bytes (record s { pending_audio = none }))
            (λ c.
              refuse-Steady voice delivers audio_frame_invalid (record s { pending_audio = none }))
            (transcribe_frame-Steady bytes (record s { pending_audio = none }) (taken-IsReady s w)))
  ]

  handle_message-Steady :
      (m : Incoming) (s : Connection Text Transcriber)
      → IsReady voice delivers s
      → Steady voice delivers (handle_message voice delivers m s)
  unfolding handle_message
  handle_message-Steady (text_message bytes) s w = handle_text-Steady bytes s w
  handle_message-Steady (binary_message bytes) s w = handle_binary-Steady bytes s w
  handle_message-Steady (ping_message bytes) s w = go_on voice delivers (pong_reply bytes) s w
  handle_message-Steady pong_message s w = w
  handle_message-Steady close_message s w = tt
  handle_message-Steady broken s w = tt
  handle_message-Steady elapsed s w = tt

  -- A session in which every declared frame is one of an open recognition and within the bound, and
  -- every open recognition has its transcriber, is such a session behind any message with which it
  -- goes on.
  pub handle_message-IsReady :
      (m : Incoming) (s s' : Connection Text Transcriber)
      → IsReady voice delivers s
      → handle_message voice delivers m s ≡ (s', ok false)
      → IsReady voice delivers s'
  handle_message-IsReady m s s' w h =
      subst (λ r. Steady voice delivers r) h (handle_message-Steady m s w)

  -- The start of every session is ready.
  pub new_session-IsReady :
      (messages : List Incoming) → IsReady voice delivers (new_session voice delivers messages)
  new_session-IsReady messages =
      idle-IsReady voice delivers (new_session voice delivers messages) refl (λ e. cc)

  handle_binary-transcriber :
      (bytes : List ℕ) (s : Connection Text Transcriber) (t : Transcriber)
      → s.pending_audio ≡ some (length bytes)
      → length bytes ≤ max_ws_message_bytes
      → s.transcriber ≡ some t
      → handle_binary voice delivers bytes s
        ≡ report_updates voice delivers
            (voice.push_pcm16 t bytes).1
            (record s { pending_audio = none; transcriber = some (voice.push_pcm16 t bytes).0 })
  unfolding handle_binary transcribe_frame
  handle_binary-transcriber bytes s t h u e =
      let within : ltb max_ws_message_bytes (length bytes) ≡ false = ground arith in
      rw (h, handle_binary)
        (rw (==_refl (length bytes), within, handle_binary) (rw (e, transcribe_frame) refl))

  -- A frame of the declared length goes to the transcriber of a ready session, and uses up its
  -- declaration.
  pub handle_binary-declared :
      (bytes : List ℕ) (s : Connection Text Transcriber)
      → IsReady voice delivers s
      → s.pending_audio ≡ some (length bytes)
      → (t : Transcriber) × (s.transcriber ≡ some t)
        × (handle_binary voice delivers bytes s
            ≡ report_updates voice delivers (voice.push_pcm16 t bytes).1 (record s {
              pending_audio = none;
              transcriber = some (voice.push_pcm16 t bytes).0;
            }))
  unfolding handle_binary transcribe_frame
  handle_binary-declared bytes s w h =
      let (m, o, l, u) = w.declared (length bytes) h in
      let (t, e) = w.listening m o in (t, e, handle_binary-transcriber bytes s t h u e)

-- ===== src/Server/Protocol.antt =====
-- The order of messages in a realtime session, crates/impossible-voice-server/src/voice_api.rs.
use impossible_voice.Prelude.{
  ℕ, ◌≤◌, ◌<◌, ◌≡◌, refl, Bool, true, false, some, List, [], ◌∷◌, arith, if◌then◌else◌, Result, ok,
  err,
}
use impossible_voice.Prelude.Stateful.{continue_with, Keeps, then-Keeps}
use impossible_voice.Stt.{Transcript}
use impossible_voice.Server.{VoiceBackendError}
use impossible_voice.Server.Socket.{
  stt, ErrorCode, error_code, audio, Incoming, Outgoing, Voice, Stop, Connection, Method, send,
  refuse, fail_backend, send_transcript, send_transcripts, send_audio, cancel_request,
  max_ws_message_bytes,
}
use impossible_voice.Server.Dialogue.{
  cancel_and_end, cancel_and_refuse, cancel_and_tell, answer_ping, interrupt, interrupt_message,
}

module _ (voice : Voice) (delivers : ℕ → Bool) where
  open voice use {Text, Speed, Transcriber}

  -- A session that waits for the next message. A declared frame is one of an open recognition and
  -- within the bound; and an open recognition has its transcriber.
  pub record IsReady (s : Connection Text Transcriber) : Type 0 where
    pub declared :
        (n : ℕ)
        → s.pending_audio ≡ some n
        → (s.mode ≡ some stt) × (s.completed ≡ false) × (0 < n) × (n ≤ max_ws_message_bytes)
    pub listening :
        s.mode ≡ some stt → s.completed ≡ false → (t : Transcriber) × (s.transcriber ≡ some t)

  -- The session goes on.
  abbrev pub Steady : Connection Text Transcriber × Result Stop Bool → Type 0
  Steady (s, ok false) = IsReady s
  Steady (s, ok true) = Unit
  Steady (s, err e) = Unit

  -- The fields that the protocol is about are those of `s`.
  pub record IsLike (s t : Connection Text Transcriber) : Type 0 where
    pub same_mode : t.mode ≡ s.mode
    pub same_pending : t.pending_audio ≡ s.pending_audio
    pub same_transcriber : t.transcriber ≡ s.transcriber
    pub same_completed : t.completed ≡ s.completed

  pub IsLike-refl : (s : Connection Text Transcriber) → IsLike s s
  IsLike-refl s = record {
    same_mode = refl;
    same_pending = refl;
    same_transcriber = refl;
    same_completed = refl;
  }

  pub IsReady-IsLike : (s t : Connection Text Transcriber) → IsLike s t → IsReady s → IsReady t
  IsReady-IsLike s t e w = record {
    declared = rw (e.same_pending, e.same_mode, e.same_completed) w.declared;
    listening = rw (e.same_mode, e.same_completed, e.same_transcriber) w.listening;
  }

  pub send-IsLike :
      (s : Connection Text Transcriber) (m : Outgoing Text)
      → Keeps (IsLike s) (send voice delivers m)
  unfolding send
  send-IsLike s m t e = ground (arith, e)

  pub send_transcript-IsLike :
      (s : Connection Text Transcriber) (update : Transcript Text)
      → Keeps (IsLike s) (send_transcript voice delivers update)
  unfolding send_transcript send
  send_transcript-IsLike s update t e = ground (arith, e)

  pub send_transcripts-IsLike :
      (s : Connection Text Transcriber) (updates : List (Transcript Text))
      → Keeps (IsLike s) (send_transcripts voice delivers updates)
  unfolding send_transcripts
  send_transcripts-IsLike s [] = λ t e. e
  send_transcripts-IsLike s (update ∷ updates) =
      then-Keeps (IsLike s) (send_transcript voice delivers update)
        (send_transcripts voice delivers updates) (send_transcript-IsLike s update)
        (send_transcripts-IsLike s updates)

  pub send_audio-IsLike :
      (s : Connection Text Transcriber) (pieces : List (List ℕ))
      → Keeps (IsLike s) (send_audio voice delivers pieces)
  unfolding send_audio
  send_audio-IsLike s [] = λ t e. e
  send_audio-IsLike s (piece ∷ pieces) =
      then-Keeps (IsLike s) (send voice delivers (audio piece)) (send_audio voice delivers pieces)
        (send-IsLike s (audio piece)) (send_audio-IsLike s pieces)

  pub interrupt_message-IsLike :
      (s : Connection Text Transcriber) (m : Incoming)
      → Keeps (IsLike s) (interrupt_message voice delivers m)
  unfolding interrupt_message interrupt cancel_and_end cancel_and_refuse cancel_and_tell answer_ping
      cancel_request refuse send
  interrupt_message-IsLike s m t e = ground (arith, e)

  pub after-Steady :
      {A : Type 0} (s : Connection Text Transcriber)
      (r : Connection Text Transcriber × Result Stop A) (k : A → Method voice delivers Bool)
      → IsLike s r.0
      → ((a : A) (t : Connection Text Transcriber) → IsLike s t → Steady (k a t))
      → Steady (continue_with r k)
  after-Steady s (t, ok a) k e next = next a t e
  after-Steady s (t, err x) k e next = tt

  pub branch-Steady :
      (b : Bool) (r r' : Connection Text Transcriber × Result Stop Bool)
      → (b ≡ true → Steady r)
      → Steady r'
      → Steady (if b then r else r')
  branch-Steady true r r' f f' = f refl
  branch-Steady false r r' f f' = f'

  pub refuse-Steady :
      (code : ErrorCode) (s : Connection Text Transcriber) → Steady (refuse voice delivers code s)
  unfolding refuse send
  refuse-Steady code s = ground arith

  pub fail_backend-Steady :
      (e : VoiceBackendError) (s : Connection Text Transcriber)
      → Steady (fail_backend voice delivers e s)
  unfolding fail_backend
  fail_backend-Steady e s = refuse-Steady (error_code e) (record s { failure = some e })

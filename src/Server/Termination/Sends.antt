-- ===== src/Server/Termination/Sends.antt =====
-- The single answers of a realtime session, and those to a message that comes in while a synthesis
-- runs, crates/impossible-voice-server/src/voice_api.rs.
use impossible_voice.Prelude.{
  all, ◌++◌, ℕ, suc, ◌≤◌, ◌≡◌, refl, Bool, true, false, Option, none, some, List, [], ◌∷◌, arith,
  length, err, not,
}
use impossible_voice.Prelude.Stateful.{◌>>◌, pure, Keeps, then-Keeps}
use impossible_voice.Stt.{TranscriptKind, interim, final, Transcript}
use impossible_voice.Server.Socket.{
  failed_with, failed, close_frame, transcript_interim, transcript_final, was_cancelled, pong,
  ErrorCode, ClientEvent, session_start, audio_append, audio_commit, cancel, ping, close,
  speech_generate, Incoming, text_message, binary_message, ping_message, pong_message,
  close_message, broken, elapsed, Outgoing, event, audio, Voice, Connection, send, refuse,
  send_transcript, send_transcripts, send_audio, cancel_request, invalid_sequence, invalid_json,
  pong_reply,
}
use impossible_voice.Server.Dialogue.{
  cancel_and_end, cancel_and_refuse, cancel_and_tell, answer_ping, interrupt, interrupt_message,
}

abbrev pub is_close : {Text : Type 0} → Outgoing Text → Bool
is_close (close_frame code) = true
is_close _ = false

module _ (voice : Voice) (delivers : ℕ → Bool) where
  open voice use {Text, Speed, Transcriber}

  abbrev pub all_open : List (Outgoing Text) → Bool
  all_open = all (λ m. not (is_close m))

  -- At most `n` messages are still to come, and no close frame was sent.
  abbrev pub IsOpen : ℕ → Connection Text Transcriber → Type 0
  IsOpen n s = (length s.incoming ≤ n) × (all_open s.sent ≡ true)

  all_open-append :
      (sent : List (Outgoing Text)) (m : Outgoing Text)
      → is_close m ≡ false
      → all_open sent ≡ true
      → all_open (sent ++ (m ∷ [])) ≡ true
  all_open-append [] m c h = rw c refl
  all_open-append (x ∷ xs) m c h = let rest = all_open-append xs m c in ground (arith, rest)

  -- A message is taken off the row.
  pub take_message :
      (n : ℕ) (s : Connection Text Transcriber) (m : Incoming) (rest : List Incoming)
      → s.incoming ≡ m ∷ rest
      → IsOpen (suc n) s
      → IsOpen n (record s { incoming = rest })
  take_message n s m rest q (few, open_still) = let fewer = rw q at few in (omega arith, open_still)

  pub IsOpen-le : (n k : ℕ) (s : Connection Text Transcriber) → n ≤ k → IsOpen n s → IsOpen k s
  IsOpen-le n k s l (few, open_still) = (omega arith, open_still)

  pub send-IsOpen :
      (n : ℕ) (m : Outgoing Text) → is_close m ≡ false → Keeps (IsOpen n) (send voice delivers m)
  unfolding send
  send-IsOpen n m c s h = let still = all_open-append s.sent m c h.1 in ground arith

  pub send_transcript-IsOpen :
      (n : ℕ) (update : Transcript Text) → Keeps (IsOpen n) (send_transcript voice delivers update)
  unfolding send_transcript
  send_transcript-IsOpen n update s h = go update.kind refl
    where
      go :
          (k : TranscriptKind)
          → update.kind ≡ k
          → IsOpen n (send_transcript voice delivers update s).0
      go interim q =
          rw (q, send_transcript) (send-IsOpen n (event (transcript_interim update.text)) refl s h)
      go final q =
          rw (q, send_transcript) (send-IsOpen n (event (transcript_final update.text)) refl s h)

  pub send_transcripts-IsOpen :
      (n : ℕ) (updates : List (Transcript Text))
      → Keeps (IsOpen n) (send_transcripts voice delivers updates)
  unfolding send_transcripts
  send_transcripts-IsOpen n [] s h = h
  send_transcripts-IsOpen n (u ∷ us) s h =
      then-Keeps (IsOpen n) (send_transcript voice delivers u) (send_transcripts voice delivers us)
        (send_transcript-IsOpen n u) (send_transcripts-IsOpen n us) s h

  pub send_audio-IsOpen :
      (n : ℕ) (pieces : List (List ℕ)) → Keeps (IsOpen n) (send_audio voice delivers pieces)
  unfolding send_audio
  send_audio-IsOpen n [] s h = h
  send_audio-IsOpen n (p ∷ ps) s h =
      then-Keeps (IsOpen n) (send voice delivers (audio p)) (send_audio voice delivers ps)
        (send-IsOpen n (audio p) refl) (send_audio-IsOpen n ps) s h

  pub refuse-IsOpen :
      (n : ℕ) (code : ErrorCode) → Keeps (IsOpen n) (refuse voice delivers {A = Bool} code)
  unfolding refuse
  refuse-IsOpen n code =
      then-Keeps (IsOpen n) (send voice delivers (event (failed_with code))) (λ s. (s, err failed))
        (send-IsOpen n (event (failed_with code)) refl) (λ t q. q)

  -- A message is sent, and the session goes on or ends.
  pub tell-IsOpen :
      (n : ℕ) (m : Outgoing Text) (ended : Bool)
      → is_close m ≡ false
      → Keeps (IsOpen n) (send voice delivers m >> pure ended)
  tell-IsOpen n m ended c =
      then-Keeps (IsOpen n) (send voice delivers m) (pure ended) (send-IsOpen n m c) (λ t q. q)

  cancel_and_refuse-IsOpen :
      (n : ℕ) (code : ErrorCode) → Keeps (IsOpen n) (cancel_and_refuse voice delivers code)
  unfolding cancel_and_refuse cancel_request
  cancel_and_refuse-IsOpen n code s h = refuse-IsOpen n code (record s { is_cancelled = true }) h

  cancel_and_end-IsOpen : (n : ℕ) → Keeps (IsOpen n) (cancel_and_end voice delivers)
  unfolding cancel_and_end cancel_request
  cancel_and_end-IsOpen n s h = h

  pub cancel_and_tell-IsOpen : (n : ℕ) → Keeps (IsOpen n) (cancel_and_tell voice delivers)
  unfolding cancel_and_tell cancel_request
  cancel_and_tell-IsOpen n s h =
      tell-IsOpen n (event was_cancelled) true refl (record s { is_cancelled = true }) h

  pub answer_ping-IsOpen : (n : ℕ) → Keeps (IsOpen n) (answer_ping voice delivers)
  unfolding answer_ping
  answer_ping-IsOpen n = tell-IsOpen n (event pong) false refl

  interrupt-IsOpen :
      (n : ℕ) (e : Option (ClientEvent Text Speed)) → Keeps (IsOpen n) (interrupt voice delivers e)
  unfolding interrupt
  interrupt-IsOpen n none = cancel_and_refuse-IsOpen n invalid_json
  interrupt-IsOpen n (some cancel) = cancel_and_tell-IsOpen n
  interrupt-IsOpen n (some close) = cancel_and_end-IsOpen n
  interrupt-IsOpen n (some ping) = answer_ping-IsOpen n
  interrupt-IsOpen n (some (session_start mode rate)) = cancel_and_refuse-IsOpen n invalid_sequence
  interrupt-IsOpen n (some (audio_append bytes)) = cancel_and_refuse-IsOpen n invalid_sequence
  interrupt-IsOpen n (some audio_commit) = cancel_and_refuse-IsOpen n invalid_sequence
  interrupt-IsOpen n (some (speech_generate input speed)) =
      cancel_and_refuse-IsOpen n invalid_sequence

  pub interrupt_message-IsOpen :
      (n : ℕ) (m : Incoming) → Keeps (IsOpen n) (interrupt_message voice delivers m)
  unfolding interrupt_message
  interrupt_message-IsOpen n (text_message bytes) = interrupt-IsOpen n (voice.parse bytes)
  interrupt_message-IsOpen n (binary_message bytes) = cancel_and_refuse-IsOpen n invalid_sequence
  interrupt_message-IsOpen n (ping_message bytes) = tell-IsOpen n (pong_reply bytes) false refl
  interrupt_message-IsOpen n pong_message = λ s h. h
  interrupt_message-IsOpen n close_message = cancel_and_end-IsOpen n
  interrupt_message-IsOpen n broken = cancel_and_end-IsOpen n
  interrupt_message-IsOpen n elapsed = λ s h. h

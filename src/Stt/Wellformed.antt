-- ===== src/Stt/Wellformed.antt =====
-- The invariant of `StreamingSession`, crates/impossible-voice-stt/src/lib.rs.
use impossible_voice.Prelude.{
  ◌||◌, ltb, inl, inr, Bool-cases, ℕ, ◌*◌, ◌/◌, ◌<◌, ◌≡◌, refl, ap, true, false, none, List, [],
  ◌∷◌, ◌++◌, arith, length, length-drop, is_empty, Result, ok, err,
}
use impossible_voice.Prelude.Stateful.{
  continue_with, ◌>>=◌, ◌>>◌, pure, Keeps, bind-Keeps, then-Keeps,
}
use impossible_voice.Audio.Float.{Floats}
use impossible_voice.Audio.Vad.{EnergyVad, VadEvent, none, ended, started, process}
use impossible_voice.Audio.Admission.{AudioError}
use impossible_voice.Audio.Vad.Utterance.{
  process-eq-ok, advance-event, IsCounting, advance-IsCounting,
}
use impossible_voice.Request.{Moment}
use impossible_voice.Stt.{SttError, Recognizer, vad_frame_samples}
use impossible_voice.Stt.Session.{
  peek, StreamingSession, look, hear, conclude, reopen, decode, convert, detect, announce, publish,
  record_final, restart, clear_utterance, mark_heard, end_utterance, report, frame_step, frame_loop,
  drain_frames, push_frames, push_converted, push_decoded, push_pcm16,
}

module _ (fl : Floats) (rec : Recognizer fl.F32) (clock : ℕ → Moment) where
  open fl use {F32}
  open rec use {Text, Stream}

  -- Between two calls less than a frame is left over, the counters of the detector are well formed,
  -- and a stream that has heard nothing has neither an open utterance nor an interim text.
  pub record IsWellformed (s : StreamingSession F32 Text Stream) : Type 0 where
    pub leftover : length s.residual < vad_frame_samples
    pub counting : IsCounting s.vad
    pub fresh : s.current_has_audio ≡ false → s.last_interim ≡ rec.no_text
    pub silent : s.current_has_audio ≡ false → s.vad.active ≡ false

  look-IsWellformed : Keeps IsWellformed (look fl rec clock)
  unfolding look
  look-IsWellformed s w = record {
    leftover = w.leftover;
    counting = w.counting;
    fresh = w.fresh;
    silent = w.silent;
  }

  hear-IsWellformed : (samples : List F32) → Keeps IsWellformed (hear fl rec clock samples)
  unfolding hear
  hear-IsWellformed samples s w = record {
    leftover = w.leftover;
    counting = w.counting;
    fresh = w.fresh;
    silent = w.silent;
  }

  decode-IsWellformed : (bytes : List ℕ) → Keeps IsWellformed (decode fl rec clock bytes)
  unfolding decode
  decode-IsWellformed bytes s w = ground (arith, w)

  convert-IsWellformed : (decoded : List F32) → Keeps IsWellformed (convert fl rec clock decoded)
  unfolding convert
  convert-IsWellformed decoded s w = record {
    leftover = w.leftover;
    counting = w.counting;
    fresh = w.fresh;
    silent = w.silent;
  }

  announce-IsWellformed :
      (text : Text) (s : StreamingSession F32 Text Stream)
      → IsWellformed s
      → s.current_has_audio ≡ true
      → IsWellformed (announce fl rec clock text s).0
  unfolding announce
  announce-IsWellformed text s w h = ground (arith, w)

  end_utterance-IsWellformed :
      (s : StreamingSession F32 Text Stream)
      → IsWellformed s
      → s.vad.active ≡ false
      → IsWellformed (end_utterance fl rec clock s).0
  unfolding end_utterance conclude publish look record_final restart reopen clear_utterance
  end_utterance-IsWellformed s w h = ground (arith, w)

  drain_frames-leftover :
      (converted : List F32) (s : StreamingSession F32 Text Stream)
      → length (drain_frames fl rec clock converted s).0.residual < vad_frame_samples
  unfolding drain_frames
  drain_frames-leftover converted s = omega (
    arith,
    length-drop ((length (s.residual ++ converted) / 320) * 320) (s.residual ++ converted),
  )

  detect-IsWellformed :
      (frame : List F32) (s : StreamingSession F32 Text Stream)
      → IsWellformed s
      → s.current_has_audio ≡ true
      → IsWellformed (detect fl rec clock frame s).0
        × ((detect fl rec clock frame s).0.current_has_audio ≡ true)
        × ((detect fl rec clock frame s).1 ≡ ok ended
            → (detect fl rec clock frame s).0.vad.active ≡ false)
  unfolding detect
  detect-IsWellformed frame s w h = go (process fl s.vad frame) refl
    where
      go :
          (r : Result AudioError (EnergyVad F32 × VadEvent))
          → process fl s.vad frame ≡ r
          → IsWellformed (detect fl rec clock frame s).0
            × ((detect fl rec clock frame s).0.current_has_audio ≡ true)
            × ((detect fl rec clock frame s).1 ≡ ok ended
                → (detect fl rec clock frame s).0.vad.active ≡ false)
      go (err e) q = rw (q, detect) (w, h, λ e. cc)
      go (ok (vad, event)) q =
          let (voiced, same) = process-eq-ok fl s.vad frame q in
          let counted : IsCounting vad =
            rw (ap (λ t. t.0) same) (advance-IsCounting s.vad voiced (length frame) w.counting) in
          rw (q, detect)
            (
              record {
                leftover = w.leftover;
                counting = counted;
                fresh = λ e. cc;
                silent = λ e. cc;
              },
              h,
              λ e. ground (arith, advance-event s.vad voiced (length frame)),
            )

  announce_interim-IsWellformed :
      (s : StreamingSession F32 Text Stream)
      → IsWellformed s
      → s.current_has_audio ≡ true
      → (r : Result SttError Text) → IsWellformed (continue_with (s, r) (announce fl rec clock)).0
  announce_interim-IsWellformed s w h (ok text) = announce-IsWellformed text s w h
  announce_interim-IsWellformed s w h (err e) = w

  peek-IsWellformed :
      (s : StreamingSession F32 Text Stream) → IsWellformed s → IsWellformed (peek fl rec clock s).0
  unfolding peek
  peek-IsWellformed s w = record {
    leftover = w.leftover;
    counting = w.counting;
    fresh = w.fresh;
    silent = w.silent;
  }

  report-IsWellformed :
      (event : VadEvent) (s : StreamingSession F32 Text Stream)
      → IsWellformed s
      → s.current_has_audio ≡ true
      → (event ≡ ended → s.vad.active ≡ false)
      → IsWellformed (report fl rec clock event s).0
  unfolding report peek
  report-IsWellformed ended s w h idle = end_utterance-IsWellformed s w (idle refl)
  report-IsWellformed none s w h idle =
      announce_interim-IsWellformed (peek fl rec clock s).0 (peek-IsWellformed s w) h
        (rec.read_interim s.stream)
  report-IsWellformed started s w h idle =
      announce_interim-IsWellformed (peek fl rec clock s).0 (peek-IsWellformed s w) h
        (rec.read_interim s.stream)

  continue_report-IsWellformed :
      (r : StreamingSession F32 Text Stream × Result SttError VadEvent)
      → IsWellformed r.0
      → r.0.current_has_audio ≡ true
      → (r.1 ≡ ok ended → r.0.vad.active ≡ false)
      → IsWellformed (continue_with r (report fl rec clock)).0
  continue_report-IsWellformed (s, ok event) w h idle =
      report-IsWellformed event s w h (λ e. idle (ap ok e))
  continue_report-IsWellformed (s, err e) w h idle = w

  -- A frame that is heard, whatever comes of it.
  heard-IsWellformed :
      (frame : List F32)
      → Keeps IsWellformed
          (mark_heard fl rec clock >> (detect fl rec clock frame >>= report fl rec clock))
  unfolding mark_heard
  heard-IsWellformed frame s w =
      let (w', h', idle) =
        detect-IsWellformed frame (record s { current_has_audio = true })
          (record {
            leftover = w.leftover;
            counting = w.counting;
            fresh = λ e. cc;
            silent = λ e. cc;
          })
          refl in
      continue_report-IsWellformed
        (detect fl rec clock frame (record s { current_has_audio = true })) w' h' idle

  frame_step-IsWellformed : (frame : List F32) → Keeps IsWellformed (frame_step fl rec clock frame)
  unfolding frame_step
  frame_step-IsWellformed frame = then-Keeps IsWellformed (look fl rec clock) _ look-IsWellformed (
      then-Keeps IsWellformed (hear fl rec clock frame) _ (hear-IsWellformed frame)
        (heard-IsWellformed frame))

  frame_loop-IsWellformed :
      (frames : List (List F32)) → Keeps IsWellformed (frame_loop fl rec clock frames)
  unfolding frame_loop
  frame_loop-IsWellformed [] = λ s w. w
  frame_loop-IsWellformed (frame ∷ frames) =
      bind-Keeps IsWellformed (frame_step fl rec clock frame) _ (frame_step-IsWellformed frame)
        (λ updates.
          bind-Keeps IsWellformed (frame_loop fl rec clock frames) _
            (frame_loop-IsWellformed frames) (λ rest s w. w))

  drain_frames-IsWellformed :
      (converted : List F32) → Keeps IsWellformed (drain_frames fl rec clock converted)
  unfolding drain_frames
  drain_frames-IsWellformed converted s w = record {
    leftover = drain_frames-leftover converted s;
    counting = w.counting;
    fresh = w.fresh;
    silent = w.silent;
  }

  push_frames-IsWellformed :
      (frames : List (List F32)) → Keeps IsWellformed (push_frames fl rec clock frames)
  unfolding push_frames
  push_frames-IsWellformed frames =
      bind-Keeps IsWellformed (frame_loop fl rec clock frames)
        (λ updates. look fl rec clock >> pure updates) (frame_loop-IsWellformed frames)
        (λ updates.
          then-Keeps IsWellformed (look fl rec clock) (pure updates) look-IsWellformed (λ s w. w))

  push_converted-IsWellformed :
      (converted : List F32) → Keeps IsWellformed (push_converted fl rec clock converted)
  unfolding push_converted
  push_converted-IsWellformed converted =
      bind-Keeps IsWellformed (drain_frames fl rec clock converted) (push_frames fl rec clock)
        (drain_frames-IsWellformed converted) push_frames-IsWellformed

  push_decoded-IsWellformed :
      (decoded : List F32) → Keeps IsWellformed (push_decoded fl rec clock decoded)
  unfolding push_decoded
  push_decoded-IsWellformed [] = λ s w. w
  push_decoded-IsWellformed (x ∷ xs) =
      bind-Keeps IsWellformed (convert fl rec clock (x ∷ xs)) (push_converted fl rec clock)
        (convert-IsWellformed (x ∷ xs)) push_converted-IsWellformed

  -- Whatever the bytes, the recognizer and the clock, and whether the call succeeds or fails, a
  -- well-formed session is well formed behind it.
  pub push_pcm16-IsWellformed :
      (bytes : List ℕ) (s : StreamingSession F32 Text Stream)
      → IsWellformed s
      → IsWellformed (push_pcm16 fl rec clock bytes s).0
  unfolding push_pcm16
  push_pcm16-IsWellformed bytes s w =
      elim (Bool-cases (s.finished || is_empty bytes || ltb s.max_chunk_bytes (length bytes))) [
        | inl e ↦ rw e w
        | inr e ↦ rw e (
            then-Keeps IsWellformed (look fl rec clock) _ look-IsWellformed
              (bind-Keeps IsWellformed (decode fl rec clock bytes) _ (decode-IsWellformed bytes)
                push_decoded-IsWellformed)
              s w)
      ]

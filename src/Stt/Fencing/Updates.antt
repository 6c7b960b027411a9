-- ===== src/Stt/Fencing/Updates.antt =====
-- The calls behind the updates of `push_pcm16` in `StreamingSession`,
-- crates/impossible-voice-stt/src/lib.rs: an utterance that ends, a frame, and the frames.
use impossible_voice.Prelude.{ℕ, refl, none, List, [], ◌∷◌, ◌++◌}
use impossible_voice.Prelude.Stateful.{◌>>=◌, ◌>>◌, pure}
use impossible_voice.Audio.Float.{Floats}
use impossible_voice.Audio.Vad.{VadEvent, none, ended, started}
use impossible_voice.Request.{Moment}
use impossible_voice.Stt.{Recognizer, Transcript}
use impossible_voice.Stt.Session.{
  peek, Call, Method, look, hear, conclude, reopen, convert, detect, announce, publish,
  record_final, restart, clear_utterance, mark_heard, final_update, end_utterance, report,
  frame_step, frame_loop, drain_frames, push_frames, push_converted, push_decoded,
}
use impossible_voice.Stt.Fencing.Steps.{
  peek-Since, unguarded, owing, Guard, guarded, Since, Begun, Since-Begun, Leads, bind-Leads,
  then-Leads, silent, pure-Leads, next_look-Since, hear-Since, conclude-unguarded, reopen-Since,
  convert-silent, detect-silent, announce-silent, drain_frames-silent,
}

module _ (fl : Floats) (rec : Recognizer fl.F32) (clock : ℕ → Moment) (from : List Call) where
  open fl use {F32}
  open rec use {Text, Stream}

  -- A method from one kind of calls to another, behind the calls `from`.
  abbrev pub Step : {A : Type 0} → Guard → Guard → Method fl rec clock A → Type 0
  Step g g' m = Leads fl rec clock (Since from g) (Since from g') m

  clear_utterance-silent :
      (text : Text)
      → Step unguarded unguarded
          (clear_utterance fl rec clock >> pure (final_update fl rec clock text ∷ []))
  unfolding clear_utterance
  clear_utterance-silent text =
      silent fl rec clock (Since from unguarded)
        (clear_utterance fl rec clock >> pure (final_update fl rec clock text ∷ [])) (λ s. refl)

  restart-Step : (text : Text) → Step guarded unguarded (restart fl rec clock text)
  unfolding restart
  restart-Step text =
      then-Leads fl rec clock (Since from guarded) (Since from unguarded) (Since from unguarded)
        (reopen fl rec clock) _ (reopen-Since fl rec clock from) (clear_utterance-silent text)

  record_final-Step : (text : Text) → Step guarded guarded (record_final fl rec clock text)
  unfolding record_final
  record_final-Step text =
      silent fl rec clock (Since from guarded) (record_final fl rec clock text) (λ s. refl)

  publish-Step : (text : Text) → Step owing unguarded (publish fl rec clock text)
  unfolding publish
  publish-Step text =
      then-Leads fl rec clock (Since from owing) (Since from guarded) (Since from unguarded)
        (look fl rec clock) _
        (λ s h. next_look-Since fl rec clock from s (Since-Begun from owing s.calls h))
        (then-Leads fl rec clock (Since from guarded) (Since from guarded) (Since from unguarded)
          (record_final fl rec clock text) (restart fl rec clock text) (record_final-Step text)
          (restart-Step text))

  end_utterance-Step : Step unguarded unguarded (end_utterance fl rec clock)
  unfolding end_utterance
  end_utterance-Step =
      bind-Leads fl rec clock (Since from unguarded) (Since from owing) (Since from unguarded)
        (conclude fl rec clock) (publish fl rec clock) (conclude-unguarded fl rec clock from)
        publish-Step

  report_interim-Step : Step unguarded unguarded (peek fl rec clock >>= announce fl rec clock)
  report_interim-Step =
      bind-Leads fl rec clock (Since from unguarded) (Since from unguarded) (Since from unguarded)
        (peek fl rec clock) (announce fl rec clock) (peek-Since fl rec clock from)
        (announce-silent fl rec clock (Since from unguarded))

  report-Step : (event : VadEvent) → Step unguarded unguarded (report fl rec clock event)
  unfolding report
  report-Step ended = end_utterance-Step
  report-Step none = report_interim-Step
  report-Step started = report_interim-Step

  mark_heard-Step : Step unguarded unguarded (mark_heard fl rec clock)
  unfolding mark_heard
  mark_heard-Step = silent fl rec clock (Since from unguarded) (mark_heard fl rec clock) (λ s. refl)

  -- Samples are accepted behind a look, and what follows makes calls of its own.
  pub hear_and-Step :
      {A : Type 0} (samples : List F32) (next : VadEvent → Method fl rec clock A)
      → ((event : VadEvent) → Step unguarded unguarded (next event))
      → Step guarded unguarded (
          hear fl rec clock samples
          >> (mark_heard fl rec clock >> (detect fl rec clock samples >>= next)))
  hear_and-Step samples next steps =
      then-Leads fl rec clock (Since from guarded) (Since from unguarded) (Since from unguarded)
        (hear fl rec clock samples) _ (hear-Since fl rec clock from samples)
        (then-Leads fl rec clock (Since from unguarded) (Since from unguarded)
          (Since from unguarded) (mark_heard fl rec clock) (detect fl rec clock samples >>= next)
          mark_heard-Step
          (bind-Leads fl rec clock (Since from unguarded) (Since from unguarded)
            (Since from unguarded) (detect fl rec clock samples) next
            (detect-silent fl rec clock (Since from unguarded) samples) steps))

  frame_step-Step :
      (frame : List F32)
      → Leads fl rec clock (Begun from) (Since from unguarded) (frame_step fl rec clock frame)
  unfolding frame_step
  frame_step-Step frame =
      then-Leads fl rec clock (Begun from) (Since from guarded) (Since from unguarded)
        (look fl rec clock) _ (next_look-Since fl rec clock from)
        (hear_and-Step frame (report fl rec clock) report-Step)

  frame_loop-Step :
      (frames : List (List F32))
      → Leads fl rec clock (Begun from) (Begun from) (frame_loop fl rec clock frames)
  unfolding frame_loop
  frame_loop-Step [] = pure-Leads fl rec clock {A = List (Transcript Text)} (Begun from) []
  frame_loop-Step (frame ∷ frames) =
      bind-Leads fl rec clock (Begun from) (Since from unguarded) (Begun from)
        (frame_step fl rec clock frame) _ (frame_step-Step frame)
        (λ updates s h.
          bind-Leads fl rec clock (Begun from) (Begun from) (Begun from)
            (frame_loop fl rec clock frames) (λ rest. pure (updates ++ rest))
            (frame_loop-Step frames)
            (λ rest. pure-Leads fl rec clock (Begun from) (updates ++ rest)) s
            (Since-Begun from unguarded s.calls h))

  push_frames-Step :
      (frames : List (List F32))
      → Leads fl rec clock (Begun from) (Since from guarded) (push_frames fl rec clock frames)
  unfolding push_frames
  push_frames-Step frames =
      bind-Leads fl rec clock (Begun from) (Begun from) (Since from guarded)
        (frame_loop fl rec clock frames) (λ updates. look fl rec clock >> pure updates)
        (frame_loop-Step frames)
        (λ updates.
          then-Leads fl rec clock (Begun from) (Since from guarded) (Since from guarded)
            (look fl rec clock) (pure updates) (next_look-Since fl rec clock from)
            (pure-Leads fl rec clock (Since from guarded) updates))

  pub push_decoded-Step :
      (decoded : List F32) → Step guarded guarded (push_decoded fl rec clock decoded)
  unfolding push_decoded push_converted
  push_decoded-Step [] =
      pure-Leads fl rec clock {A = List (Transcript Text)} (Since from guarded) []
  push_decoded-Step (x ∷ xs) =
      bind-Leads fl rec clock (Since from guarded) (Since from guarded) (Since from guarded)
        (convert fl rec clock (x ∷ xs)) (push_converted fl rec clock)
        (convert-silent fl rec clock (Since from guarded) (x ∷ xs))
        (λ converted.
          bind-Leads fl rec clock (Since from guarded) (Since from guarded) (Since from guarded)
            (drain_frames fl rec clock converted) (push_frames fl rec clock)
            (drain_frames-silent fl rec clock (Since from guarded) converted)
            (λ frames s h. push_frames-Step frames s (Since-Begun from guarded s.calls h)))

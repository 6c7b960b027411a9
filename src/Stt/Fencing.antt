-- ===== src/Stt/Fencing.antt =====
-- Cancellation and deadlines in `StreamingSession`, crates/impossible-voice-stt/src/lib.rs: where the
-- looks at the context stand among the native calls.
mod Steps
mod Updates
use impossible_voice.Prelude.{
  ◌⊎◌, ok_or, ℕ, ◌≡◌, refl, inl, inr, Bool-cases, Bool, ◌||◌, none, List, [], ◌∷◌, ◌++◌, arith, ltb,
  length, if◌then◌else◌, subst, is_empty, Result, ok, err,
}
use impossible_voice.Prelude.Stateful.{◌>>=◌, ◌>>◌, pure, lift}
use impossible_voice.Audio.Float.{Floats}
use impossible_voice.Audio.Vad.{VadEvent, none, ended, started}
use impossible_voice.Request.{Moment}
use impossible_voice.Stt.{audio, SttError, Recognizer, Transcript, invalid_input}
use impossible_voice.Stt.Session.{
  StreamingSession, Call, Method, look, hear, conclude, reopen, decode, convert, detect, announce,
  publish, record_final, restart, clear_utterance, mark_heard, final_update, end_utterance, report,
  frame_step, frame_loop, drain_frames, push_frames, push_converted, push_decoded, push_pcm16,
  flush, last_text, clear_residual, finish_decoder, mark_finished, return_text, finish_unfinished,
  finish,
}
use impossible_voice.Stt.Fencing.Steps.{
  silent_run, Since, Begun, Since-Begun, Calls, Leads, bind-Leads, then-Leads, branch-Calls, silent,
  pure-Leads, first_look-Since, next_look-Since, hear-Since, conclude-guarded, conclude-unguarded,
  reopen-Since, decode-silent, convert-silent, detect-silent, announce-silent, drain_frames-silent,
}
use impossible_voice.Stt.Fencing.Updates.{Step, hear_and-Step, push_decoded-Step}
pub use Steps.{
  IsActive, Guard, guarded, unguarded, owing, Fenced, first_look, next_look, accepting, opening,
  reading, reading_heard,
}

module _ (fl : Floats) (rec : Recognizer fl.F32) (clock : ℕ → Moment) (from : List Call) where
  open fl use {F32}
  open rec use {Text, Stream}

  push_pcm16-Step :
      (bytes : List ℕ)
      → Leads fl rec clock
          (λ calls. calls ≡ from)
          (Since from guarded)
          (push_pcm16 fl rec clock bytes)
  unfolding push_pcm16
  push_pcm16-Step bytes s h =
      elim (Bool-cases (s.finished || is_empty bytes || ltb s.max_chunk_bytes (length bytes))) [
        | inl e ↦ rw e tt
        | inr e ↦ rw e (
            then-Leads fl rec clock (λ calls. calls ≡ from) (Since from guarded)
              (Since from guarded) (look fl rec clock) _ (first_look-Since fl rec clock from)
              (bind-Leads fl rec clock (Since from guarded) (Since from guarded)
                (Since from guarded) (decode fl rec clock bytes) (push_decoded fl rec clock)
                (decode-silent fl rec clock (Since from guarded) bytes)
                (push_decoded-Step fl rec clock from))
              s h)
      ]

  -- Behind a look or behind samples, with no recognition read since.
  abbrev Settled : List Call → Type 0
  Settled calls = Since from guarded calls ⊎ Since from unguarded calls

  clear_residual-silent : Step fl rec clock from unguarded unguarded (clear_residual fl rec clock)
  unfolding clear_residual
  clear_residual-silent =
      silent fl rec clock (Since from unguarded) (clear_residual fl rec clock) (λ s. refl)

  settled :
      {A : Type 0} (r : StreamingSession F32 Text Stream × Result SttError A)
      → Calls fl rec clock (Since from unguarded) r
      → Calls fl rec clock Settled r
  settled (s, ok a) h = inr h
  settled (s, err e) h = tt

  flush-Settled : Leads fl rec clock (Since from guarded) Settled (flush fl rec clock)
  unfolding flush
  flush-Settled s h = elim (Bool-cases (is_empty s.residual)) [
    | inl e ↦ rw e (inl h)
    | inr e ↦ rw e (
        settled
          ((hear fl rec clock s.residual
              >> (mark_heard fl rec clock
                  >> (detect fl rec clock s.residual >>= λ event. clear_residual fl rec clock)))
            s)
          (hear_and-Step fl rec clock from s.residual (λ event. clear_residual fl rec clock)
            (λ event. clear_residual-silent) s h))
  ]

  begun :
      {A : Type 0} (g : Guard) (r : StreamingSession F32 Text Stream × Result SttError A)
      → Calls fl rec clock (Since from g) r
      → Calls fl rec clock (Begun from) r
  begun g (s, ok a) h = Since-Begun from g s.calls h
  begun g (s, err e) h = tt

  Settled-Begun : (calls : List Call) → Settled calls → Begun from calls
  Settled-Begun calls (inl h) = Since-Begun from guarded calls h
  Settled-Begun calls (inr h) = Since-Begun from unguarded calls h

  conclude-Begun : Leads fl rec clock Settled (Begun from) (conclude fl rec clock)
  conclude-Begun s (inl h) =
      begun owing (conclude fl rec clock s) (conclude-guarded fl rec clock from s h)
  conclude-Begun s (inr h) =
      begun owing (conclude fl rec clock s) (conclude-unguarded fl rec clock from s h)

  last_text-Begun : Leads fl rec clock Settled (Begun from) (last_text fl rec clock)
  unfolding last_text
  last_text-Begun s h = elim (Bool-cases s.current_has_audio) [
    | inl e ↦ rw e (conclude-Begun s h)
    | inr e ↦ rw e (
        silent_run fl rec clock (Begun from) s.calls
          (record s { last_final = none }, ok_or s.last_final audio) refl (Settled-Begun s.calls h))
  ]

  return_text-Since : Leads fl rec clock Settled (Since from guarded) (return_text fl rec clock)
  unfolding return_text
  return_text-Since =
      bind-Leads fl rec clock Settled (Begun from) (Since from guarded) (last_text fl rec clock)
        (λ text. look fl rec clock >> pure (final_update fl rec clock text)) last_text-Begun
        (λ text.
          then-Leads fl rec clock (Begun from) (Since from guarded) (Since from guarded)
            (look fl rec clock) (pure (final_update fl rec clock text))
            (next_look-Since fl rec clock from)
            (pure-Leads fl rec clock (Since from guarded) (final_update fl rec clock text)))

  mark_finished-Settled : Leads fl rec clock Settled Settled (mark_finished fl rec clock)
  unfolding mark_finished
  mark_finished-Settled = silent fl rec clock Settled (mark_finished fl rec clock) (λ s. refl)

  finish_decoder-Step : Step fl rec clock from guarded guarded (finish_decoder fl rec clock)
  unfolding finish_decoder
  finish_decoder-Step =
      silent fl rec clock (Since from guarded) (finish_decoder fl rec clock) (λ s. refl)

  finish_unfinished-Since :
      Leads fl rec clock
        (λ calls. calls ≡ from)
        (Since from guarded)
        (finish_unfinished fl rec clock)
  unfolding finish_unfinished
  finish_unfinished-Since =
      let close = mark_finished fl rec clock >> return_text fl rec clock in
      then-Leads fl rec clock (λ calls. calls ≡ from) (Since from guarded) (Since from guarded)
        (look fl rec clock)
        (finish_decoder fl rec clock >>= λ recording. flush fl rec clock >> close)
        (first_look-Since fl rec clock from)
        (bind-Leads fl rec clock (Since from guarded) (Since from guarded) (Since from guarded)
          (finish_decoder fl rec clock) (λ recording. flush fl rec clock >> close)
          finish_decoder-Step
          (λ recording.
            then-Leads fl rec clock (Since from guarded) Settled (Since from guarded)
              (flush fl rec clock) close flush-Settled
              (then-Leads fl rec clock Settled Settled (Since from guarded)
                (mark_finished fl rec clock) (return_text fl rec clock) mark_finished-Settled
                return_text-Since)))

  finish-Since :
      Leads fl rec clock (λ calls. calls ≡ from) (Since from guarded) (finish fl rec clock)
  unfolding finish
  finish-Since s h =
      branch-Calls fl rec clock (Since from guarded) s.finished (s, err invalid_input)
        (finish_unfinished fl rec clock s) tt (finish_unfinished-Since s h)

module _ (fl : Floats) (rec : Recognizer fl.F32) (clock : ℕ → Moment) where
  open fl use {F32}
  open rec use {Text, Stream}

  -- If `push_pcm16` returns updates, the calls that it made on the context and on the backend are a
  -- fenced row: the first is a look at the context and so is the last, each look saw a request that
  -- was neither cancelled nor late, samples are accepted and a stream is opened only directly behind
  -- a look, and what directly follows the read of a final text is a look.
  pub push_pcm16-Fenced :
      (bytes : List ℕ) (s s' : StreamingSession F32 Text Stream) (updates : List (Transcript Text))
      → push_pcm16 fl rec clock bytes s ≡ (s', ok updates)
      → (row : List Call) × (s'.calls ≡ row ++ s.calls) × Fenced guarded row
  push_pcm16-Fenced bytes s s' updates h =
      subst (λ r. Calls fl rec clock (Since s.calls guarded) r) h
        (push_pcm16-Step fl rec clock s.calls bytes s refl)

  -- If `finish` returns a text, the calls that it made on the context and on the backend are a fenced
  -- row: the first is a look at the context and so is the last, each look saw a request that was
  -- neither cancelled nor late, samples are accepted only directly behind a look, and what directly
  -- follows the read of the final text is a look.
  pub finish-Fenced :
      (s s' : StreamingSession F32 Text Stream) (last : Transcript Text)
      → finish fl rec clock s ≡ (s', ok last)
      → (row : List Call) × (s'.calls ≡ row ++ s.calls) × Fenced guarded row
  finish-Fenced s s' last h =
      subst (λ r. Calls fl rec clock (Since s.calls guarded) r) h
        (finish-Since fl rec clock s.calls s refl)

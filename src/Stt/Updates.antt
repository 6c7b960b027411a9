-- ===== src/Stt/Updates.antt =====
-- The updates that `StreamingSession::push_pcm16` returns, crates/impossible-voice-stt/src/lib.rs.
use impossible_voice.Prelude.{
  ℕ, ◌≡◌, refl, sym, ◌∙◌, subst, Bool, true, false, List, [], ◌∷◌, ◌++◌, arith, is_empty, length,
  ltb, ◌||◌, Result, ok, err, if◌then◌else◌,
}
use impossible_voice.Prelude.Stateful.{continue_with, ◌>>=◌, ◌>>◌, pure}
use impossible_voice.Audio.Float.{Floats}
use impossible_voice.Audio.Vad.{VadEvent, none, ended, started}
use impossible_voice.Request.{Moment}
use impossible_voice.Stt.{
  SttError, Recognizer, Transcript, TranscriptKind, interim, final, ensure_active, invalid_input,
}
use impossible_voice.Stt.Session.{
  peek, StreamingSession, Method, look, hear, conclude, reopen, decode, convert, detect, announce,
  publish, record_final, restart, clear_utterance, mark_heard, end_utterance, report, frame_step,
  frame_loop, drain_frames, push_frames, push_converted, push_decoded, push_pcm16,
}

module _ (fl : Floats) (rec : Recognizer fl.F32) where
  open fl use {F32}
  open rec use {Text, Stream}

  -- The interim text that counts as the last one behind an update.
  abbrev shown : TranscriptKind → Text → Text
  shown interim text = text
  shown final text = rec.no_text

  -- An interim text is not empty and differs from the one before in the same utterance.
  abbrev IsNew : Text → TranscriptKind → Text → Type 0
  IsNew last interim text = (rec.text_is_empty text ≡ false) × (rec.text_eq text last ≡ false)
  IsNew last final text = Unit

  abbrev pub AreNew : Text → List (Transcript Text) → Type 0
  AreNew last [] = Unit
  AreNew last (t ∷ ts) = IsNew last t.kind t.text × AreNew (shown t.kind t.text) ts

  abbrev pub last_shown : Text → List (Transcript Text) → Text
  last_shown last [] = last
  last_shown last (t ∷ ts) = last_shown (shown t.kind t.text) ts

  AreNew-append :
      (last : Text) (us vs : List (Transcript Text))
      → AreNew last us
      → AreNew (last_shown last us) vs
      → AreNew last (us ++ vs)
  AreNew-append last [] vs a b = b
  AreNew-append last (u ∷ us) vs (n, a) b = (n, AreNew-append (shown u.kind u.text) us vs a b)

  last_shown-append :
      (last : Text) (us vs : List (Transcript Text))
      → last_shown last (us ++ vs) ≡ last_shown (last_shown last us) vs
  last_shown-append last [] vs = refl
  last_shown-append last (u ∷ us) vs = last_shown-append (shown u.kind u.text) us vs

  module _ (clock : ℕ → Moment) where
    -- What a run that started with the text `last` has told, if it succeeds.
    abbrev Told :
        Text → StreamingSession F32 Text Stream × Result SttError (List (Transcript Text)) → Type 0
    Told last (s, ok us) = AreNew last us × (s.last_interim ≡ last_shown last us)
    Told last (s, err e) = Unit

    announce-Told :
        (text : Text) (s : StreamingSession F32 Text Stream)
        → Told s.last_interim (announce fl rec clock text s)
    unfolding announce
    announce-Told text s = ground arith

    end_utterance-Told :
        (s : StreamingSession F32 Text Stream) → Told s.last_interim (end_utterance fl rec clock s)
    unfolding end_utterance conclude publish look record_final restart reopen clear_utterance
    end_utterance-Told s = ground arith

    -- Behind a step that leaves the last interim text as it is.
    continue_with-Told :
        {A : Type 0} (last : Text) (r : StreamingSession F32 Text Stream × Result SttError A)
        (next : A → Method fl rec clock (List (Transcript Text)))
        → r.0.last_interim ≡ last
        → ((a : A) (t : StreamingSession F32 Text Stream)
            → t.last_interim ≡ last
            → Told last (next a t))
        → Told last (continue_with r next)
    continue_with-Told last (t, ok a) next same told = told a t same
    continue_with-Told last (t, err e) next same told = tt

    branch-Told :
        (last : Text) (b : Bool)
        (r r' : StreamingSession F32 Text Stream × Result SttError (List (Transcript Text)))
        → Told last r
        → Told last r'
        → Told last (if b then r else r')
    branch-Told last true r r' f f' = f
    branch-Told last false r r' f f' = f'

    report-Told :
        (event : VadEvent) (s : StreamingSession F32 Text Stream)
        → Told s.last_interim (report fl rec clock event s)
    unfolding report
    report-Told ended s = end_utterance-Told s
    report-Told none s =
        continue_with-Told s.last_interim (peek fl rec clock s) (announce fl rec clock) refl
          (λ text t same. rw (← same) (announce-Told text t))
    report-Told started s =
        continue_with-Told s.last_interim (peek fl rec clock s) (announce fl rec clock) refl
          (λ text t same. rw (← same) (announce-Told text t))

    detect-last_interim :
        (frame : List F32) (s : StreamingSession F32 Text Stream)
        → (detect fl rec clock frame s).0.last_interim ≡ s.last_interim
    unfolding detect
    detect-last_interim frame s = ground arith

    decode-last_interim :
        (bytes : List ℕ) (s : StreamingSession F32 Text Stream)
        → (decode fl rec clock bytes s).0.last_interim ≡ s.last_interim
    unfolding decode
    decode-last_interim bytes s = ground arith

    frame_step-Told :
        (frame : List F32) (s : StreamingSession F32 Text Stream)
        → Told s.last_interim (frame_step fl rec clock frame s)
    unfolding frame_step look hear mark_heard
    frame_step-Told frame s =
        continue_with-Told s.last_interim (look fl rec clock s) _ refl (λ _ t same.
          continue_with-Told s.last_interim (hear fl rec clock frame t) _ same (λ _ u same'.
            continue_with-Told s.last_interim (mark_heard fl rec clock u)
              (λ _. detect fl rec clock frame >>= report fl rec clock) same'
              (λ _ v same''.
                continue_with-Told s.last_interim (detect fl rec clock frame v)
                  (report fl rec clock) (detect-last_interim frame v ∙ same'')
                  (λ event w h. rw (← h) (report-Told event w)))))

    append-Told :
        (last : Text) (us : List (Transcript Text))
        (r : StreamingSession F32 Text Stream × Result SttError (List (Transcript Text)))
        → AreNew last us
        → Told (last_shown last us) r
        → Told last (continue_with r (λ rest. pure (us ++ rest)))
    append-Told last us (t, ok vs) new (new', same) =
        (AreNew-append last us vs new new', same ∙ sym (last_shown-append last us vs))
    append-Told last us (t, err e) new told = tt

    join-Told :
        (last : Text)
        (r : StreamingSession F32 Text Stream × Result SttError (List (Transcript Text)))
        (rest : Method fl rec clock (List (Transcript Text)))
        → Told last r
        → ((t : StreamingSession F32 Text Stream) → Told t.last_interim (rest t))
        → Told last (continue_with r (λ us. rest >>= λ vs. pure (us ++ vs)))
    join-Told last (t, ok us) rest (new, same) told =
        append-Told last us (rest t) new (rw (← same) (told t))
    join-Told last (t, err e) rest h told = tt

    frame_loop-Told :
        (frames : List (List F32)) (s : StreamingSession F32 Text Stream)
        → Told s.last_interim (frame_loop fl rec clock frames s)
    unfolding frame_loop
    frame_loop-Told [] s = (tt, refl)
    frame_loop-Told (frame ∷ frames) s =
        join-Told s.last_interim (frame_step fl rec clock frame s) (frame_loop fl rec clock frames)
          (frame_step-Told frame s) (frame_loop-Told frames)

    looked-Told :
        (last : Text)
        (r : StreamingSession F32 Text Stream × Result SttError (List (Transcript Text)))
        → Told last r
        → Told last (continue_with r (λ us. look fl rec clock >> pure us))
    unfolding look ensure_active
    looked-Told last (t, ok us) h = ground arith
    looked-Told last (t, err e) h = tt

    push_frames-Told :
        (frames : List (List F32)) (s : StreamingSession F32 Text Stream)
        → Told s.last_interim (push_frames fl rec clock frames s)
    unfolding push_frames
    push_frames-Told frames s =
        looked-Told s.last_interim (frame_loop fl rec clock frames s) (frame_loop-Told frames s)

    push_converted-Told :
        (converted : List F32) (s : StreamingSession F32 Text Stream)
        → Told s.last_interim (push_converted fl rec clock converted s)
    unfolding push_converted drain_frames
    push_converted-Told converted s =
        continue_with-Told s.last_interim (drain_frames fl rec clock converted s)
          (push_frames fl rec clock) refl (λ frames t same. rw (← same) (push_frames-Told frames t))

    push_decoded-Told :
        (decoded : List F32) (s : StreamingSession F32 Text Stream)
        → Told s.last_interim (push_decoded fl rec clock decoded s)
    unfolding push_decoded convert
    push_decoded-Told [] s = (tt, refl)
    push_decoded-Told (x ∷ xs) s =
        continue_with-Told s.last_interim (convert fl rec clock (x ∷ xs) s)
          (push_converted fl rec clock) refl
          (λ converted t same. rw (← same) (push_converted-Told converted t))

    push_pcm16-Told :
        (bytes : List ℕ) (s : StreamingSession F32 Text Stream)
        → Told s.last_interim (push_pcm16 fl rec clock bytes s)
    unfolding push_pcm16 look
    push_pcm16-Told bytes s =
        branch-Told s.last_interim
          (s.finished || is_empty bytes || ltb s.max_chunk_bytes (length bytes))
          (s, err invalid_input)
          ((look fl rec clock >> (decode fl rec clock bytes >>= push_decoded fl rec clock)) s) tt
          (continue_with-Told s.last_interim (look fl rec clock s) _ refl (λ _ t same.
            continue_with-Told s.last_interim (decode fl rec clock bytes t)
              (push_decoded fl rec clock) (decode-last_interim bytes t ∙ same)
              (λ decoded u h. rw (← h) (push_decoded-Told decoded u))))

    -- The updates of a call that succeeds: no interim text is empty, and none repeats the one before
    -- it in the same utterance, be that of an earlier call. The state holds the last one on.
    pub push_pcm16-AreNew :
        (bytes : List ℕ) (s s' : StreamingSession F32 Text Stream)
        (updates : List (Transcript Text))
        → push_pcm16 fl rec clock bytes s ≡ (s', ok updates)
        → AreNew s.last_interim updates × (s'.last_interim ≡ last_shown s.last_interim updates)
    push_pcm16-AreNew bytes s s' updates h =
        subst (λ r. Told s.last_interim r) h (push_pcm16-Told bytes s)

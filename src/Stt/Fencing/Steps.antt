-- ===== src/Stt/Fencing/Steps.antt =====
-- The calls that single steps of `StreamingSession`, crates/impossible-voice-stt/src/lib.rs, make on
-- the context and the backend, and how those of one step and of the next add up.
use impossible_voice.Prelude.{
  ◌+◌, ℕ, ◌≡◌, refl, ap, Bool, true, false, List, [], ◌∷◌, ◌++◌, arith, if◌then◌else◌, Result, ok,
  err, subst, sym,
}
use impossible_voice.Prelude.Stateful.{continue_with, ◌>>=◌, ◌>>◌, pure}
use impossible_voice.Audio.Float.{Floats}
use impossible_voice.Request.{Moment}
use impossible_voice.Stt.{SttError, Recognizer, ensure_active}
use impossible_voice.Stt.Session.{
  peek, reads_interim, StreamingSession, Call, checks_context, accepts_samples, reads_final,
  opens_stream, Method, look, hear, conclude, reopen, decode, convert, detect, announce,
  drain_frames,
}

abbrev pub IsActive : Moment → Type 0
IsActive m = (m.is_cancelled ≡ false) × (m.is_expired ≡ false)

-- What the last call leaves: a request just seen active; one not looked at since; or the result of
-- a recognition behind which it is still to be looked at.
pub data Guard : Type 0 where
  guarded unguarded owing : Guard

-- Calls, the last one first, of which the first looked at the context; every look saw an active
-- request; samples are accepted and a stream is opened only directly behind a look; and only a look
-- follows a final text that is read.
pub data Fenced : Guard → List Call → Type 0 where
  first_look : (m : Moment) → IsActive m → Fenced guarded (checks_context m ∷ [])
  next_look :
      {g : Guard} {calls : List Call} (m : Moment)
      → IsActive m
      → Fenced g calls
      → Fenced guarded (checks_context m ∷ calls)
  accepting :
      {calls : List Call} → Fenced guarded calls → Fenced unguarded (accepts_samples ∷ calls)
  reading_interim :
      {calls : List Call} → Fenced unguarded calls → Fenced unguarded (reads_interim ∷ calls)
  opening : {calls : List Call} → Fenced guarded calls → Fenced unguarded (opens_stream ∷ calls)
  reading : {calls : List Call} → Fenced guarded calls → Fenced owing (reads_final ∷ calls)
  reading_heard : {calls : List Call} → Fenced unguarded calls → Fenced owing (reads_final ∷ calls)

-- The calls are those from before, and behind them a fenced row.
abbrev pub Since : List Call → Guard → List Call → Type 0
Since from g calls = (row : List Call) × (calls ≡ row ++ from) × Fenced g row

abbrev pub Begun : List Call → List Call → Type 0
Begun from calls = (g : Guard) × (row : List Call) × (calls ≡ row ++ from) × Fenced g row

pub Since-Begun :
    (from : List Call) (g : Guard) (calls : List Call) → Since from g calls → Begun from calls
Since-Begun from g calls (row, e, f) = (g, row, e, f)

module _ (fl : Floats) (rec : Recognizer fl.F32) (clock : ℕ → Moment) where
  open fl use {F32}
  open rec use {Text, Stream}

  -- The calls made by a run that does not fail.
  abbrev pub Calls :
      {A : Type 0}
      → (List Call → Type 0)
      → StreamingSession F32 Text Stream × Result SttError A
      → Type 0
  Calls Q (s, ok a) = Q s.calls
  Calls Q (s, err e) = Unit

  -- From calls with `P` a method leads to calls with `Q`, unless it fails.
  abbrev pub Leads :
      {A : Type 0} → (List Call → Type 0) → (List Call → Type 0) → Method fl rec clock A → Type 0
  Leads P Q m = (s : StreamingSession F32 Text Stream) → P s.calls → Calls Q (m s)

  pub continue_with-Leads :
      {A B : Type 0} (Q R : List Call → Type 0) (f : A → Method fl rec clock B)
      (r : StreamingSession F32 Text Stream × Result SttError A)
      → Calls Q r
      → ((a : A) → Leads Q R (f a))
      → Calls R (continue_with r f)
  continue_with-Leads Q R f (s, ok a) h next = next a s h
  continue_with-Leads Q R f (s, err e) h next = tt

  pub bind-Leads :
      {A B : Type 0} (P Q R : List Call → Type 0) (m : Method fl rec clock A)
      (f : A → Method fl rec clock B)
      → Leads P Q m
      → ((a : A) → Leads Q R (f a))
      → Leads P R (m >>= f)
  bind-Leads P Q R m f here next s h = continue_with-Leads Q R f (m s) (here s h) next

  pub then-Leads :
      {B : Type 0} (P Q R : List Call → Type 0) (m : Method fl rec clock (Unit {0}))
      (k : Method fl rec clock B)
      → Leads P Q m
      → Leads Q R k
      → Leads P R (m >> k)
  then-Leads P Q R m k here next s h = continue_with-Leads Q R (λ _. k) (m s) (here s h) (λ _. next)

  pub silent_run :
      {A : Type 0} (P : List Call → Type 0) (calls : List Call)
      (r : StreamingSession F32 Text Stream × Result SttError A)
      → r.0.calls ≡ calls
      → P calls
      → Calls P r
  silent_run P calls (s, ok a) same h = subst P (sym same) h
  silent_run P calls (s, err e) same h = tt

  -- A method that makes no call.
  pub silent :
      {A : Type 0} (P : List Call → Type 0) (m : Method fl rec clock A)
      → ((s : StreamingSession F32 Text Stream) → (m s).0.calls ≡ s.calls)
      → Leads P P m
  silent P m same s h = silent_run P s.calls (m s) (same s) h

  pub branch-Calls :
      {A : Type 0} (Q : List Call → Type 0) (b : Bool)
      (r r' : StreamingSession F32 Text Stream × Result SttError A)
      → Calls Q r
      → Calls Q r'
      → Calls Q (if b then r else r')
  branch-Calls Q true r r' h h' = h
  branch-Calls Q false r r' h h' = h'

  pub pure-Leads : {A : Type 0} (P : List Call → Type 0) (a : A) → Leads P P (pure a)
  pure-Leads P a s h = h

  ensure_active-eq-ok : (m : Moment) → ensure_active m ≡ ok tt → IsActive m
  unfolding ensure_active
  ensure_active-eq-ok m p = ground arith

  look_run :
      (Q : List Call → Type 0) (s : StreamingSession F32 Text Stream)
      (r : Result SttError (Unit {0}))
      → (r ≡ ok tt → Q s.calls)
      → Calls Q (s, r)
  look_run Q s (ok done) h = h refl
  look_run Q s (err e) h = tt

  look-Leads :
      (P Q : List Call → Type 0)
      → ((calls : List Call) (m : Moment) → IsActive m → P calls → Q (checks_context m ∷ calls))
      → Leads P Q (look fl rec clock)
  unfolding look
  look-Leads P Q grows s h =
      look_run Q
        (record s { looks = s.looks + 1; calls = checks_context (clock s.looks) ∷ s.calls })
        (ensure_active (clock s.looks))
        (λ e. grows s.calls (clock s.looks) (ensure_active-eq-ok (clock s.looks) e) h)

  pub first_look-Since :
      (from : List Call) → Leads (λ calls. calls ≡ from) (Since from guarded) (look fl rec clock)
  first_look-Since from =
      look-Leads (λ calls. calls ≡ from) (Since from guarded)
        (λ calls m a same.
          (checks_context m ∷ [], ap (λ l. checks_context m ∷ l) same, first_look m a))

  pub next_look-Since :
      (from : List Call) → Leads (Begun from) (Since from guarded) (look fl rec clock)
  next_look-Since from = look-Leads (Begun from) (Since from guarded) (λ calls m a (g, row, e, f).
      (checks_context m ∷ row, ap (λ l. checks_context m ∷ l) e, next_look m a f))

  hear_run :
      (from row calls : List Call) (r : Stream × Result SttError (Unit {0}))
      (s : StreamingSession F32 Text Stream)
      → calls ≡ row ++ from
      → Fenced guarded row
      → Calls
          (Since from unguarded)
          (record s { stream = r.0; calls = accepts_samples ∷ calls }, r.1)
  hear_run from row calls (stream, ok a) s e f =
      (accepts_samples ∷ row, ap (λ l. accepts_samples ∷ l) e, accepting f)
  hear_run from row calls (stream, err x) s e f = tt

  pub hear-Since :
      (from : List Call) (samples : List F32)
      → Leads (Since from guarded) (Since from unguarded) (hear fl rec clock samples)
  unfolding hear
  hear-Since from samples s (row, e, f) =
      hear_run from row s.calls (rec.accept s.stream samples) s e f

  peek_run :
      (from row calls : List Call) (r : Result SttError Text) (s : StreamingSession F32 Text Stream)
      → calls ≡ row ++ from
      → Fenced unguarded row
      → Calls (Since from unguarded) (record s { calls = reads_interim ∷ calls }, r)
  peek_run from row calls (ok a) s e f =
      (reads_interim ∷ row, ap (λ l. reads_interim ∷ l) e, reading_interim f)
  peek_run from row calls (err x) s e f = tt

  pub peek-Since :
      (from : List Call) → Leads (Since from unguarded) (Since from unguarded) (peek fl rec clock)
  unfolding peek
  peek-Since from s (row, e, f) = peek_run from row s.calls (rec.read_interim s.stream) s e f

  conclude_run :
      (from row calls : List Call) (r : Stream × Result SttError Text)
      (s : StreamingSession F32 Text Stream)
      → calls ≡ row ++ from
      → Fenced owing (reads_final ∷ row)
      → Calls (Since from owing) (record s { stream = r.0; calls = reads_final ∷ calls }, r.1)
  conclude_run from row calls (stream, ok a) s e f =
      (reads_final ∷ row, ap (λ l. reads_final ∷ l) e, f)
  conclude_run from row calls (stream, err x) s e f = tt

  pub conclude-guarded :
      (from : List Call) → Leads (Since from guarded) (Since from owing) (conclude fl rec clock)
  unfolding conclude
  conclude-guarded from s (row, e, f) =
      conclude_run from row s.calls (rec.read_final s.stream) s e (reading f)

  pub conclude-unguarded :
      (from : List Call) → Leads (Since from unguarded) (Since from owing) (conclude fl rec clock)
  unfolding conclude
  conclude-unguarded from s (row, e, f) =
      conclude_run from row s.calls (rec.read_final s.stream) s e (reading_heard f)

  reopen-calls :
      (s : StreamingSession F32 Text Stream)
      → (reopen fl rec clock s).0.calls ≡ opens_stream ∷ s.calls
  unfolding reopen
  reopen-calls s = ground arith

  pub reopen-Since :
      (from : List Call) → Leads (Since from guarded) (Since from unguarded) (reopen fl rec clock)
  reopen-Since from s (row, e, f) =
      silent_run (Since from unguarded) (opens_stream ∷ s.calls) (reopen fl rec clock s)
        (reopen-calls s) (opens_stream ∷ row, ap (λ l. opens_stream ∷ l) e, opening f)

  pub decode-silent :
      (P : List Call → Type 0) (bytes : List ℕ) → Leads P P (decode fl rec clock bytes)
  unfolding decode
  decode-silent P bytes = silent P (decode fl rec clock bytes) (λ s. ground arith)

  pub convert-silent :
      (P : List Call → Type 0) (decoded : List F32) → Leads P P (convert fl rec clock decoded)
  unfolding convert
  convert-silent P decoded = silent P (convert fl rec clock decoded) (λ s. refl)

  pub detect-silent :
      (P : List Call → Type 0) (frame : List F32) → Leads P P (detect fl rec clock frame)
  unfolding detect
  detect-silent P frame = silent P (detect fl rec clock frame) (λ s. ground arith)

  pub announce-silent :
      (P : List Call → Type 0) (text : Text) → Leads P P (announce fl rec clock text)
  unfolding announce
  announce-silent P text = silent P (announce fl rec clock text) (λ s. ground arith)

  pub drain_frames-silent :
      (P : List Call → Type 0) (converted : List F32)
      → Leads P P (drain_frames fl rec clock converted)
  unfolding drain_frames
  drain_frames-silent P converted = silent P (drain_frames fl rec clock converted) (λ s. refl)

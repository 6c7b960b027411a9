-- ===== src/Server/Grpc/Told.antt =====
-- How a stream of `stream_transcribe` in crates/impossible-voice-server/src/grpc.rs ends.
use impossible_voice.Prelude.{
  ℕ, ◌≡◌, refl, sym, ◌∙◌, Bool, true, false, not, ◌&&◌, Option, none, some, List, [], ◌∷◌, ◌++◌,
  Result, ok, err, ◌⊎◌, inl, inr, Bool-cases, is_empty, ltb, length,
}
use impossible_voice.Prelude.Bytes.{Bytes}
use impossible_voice.Audio.Float.{Floats}
use impossible_voice.Stt.{Transcript}
use impossible_voice.Server.{VoiceBackendError}
use impossible_voice.Server.Grpc.{Status, VoiceBackend, map_backend_error, max_stream_audio_bytes}
use impossible_voice.Server.Grpc.Transcribe.{
  open_session, Event, config, audio, commit, cancel, Ending, ended, failed, stop_cancelled,
  stop_deadline, TranscriptEvent, Call, Flow, leave, result, is_final_kind, CallState, send_item,
  send_updates, send_result, push_audio, send_final, handle_audio, handle_commit, handle_config,
  handle_event, fail_with, finish_stream, continue_stream, stream_transcribe, new_call,
}

-- Nothing follows an error.
abbrev pub IsTerminated : {Text : Type 0} → List (Result Status (TranscriptEvent Text)) → Type 0
IsTerminated [] = Unit
IsTerminated (ok item ∷ rest) = IsTerminated rest
IsTerminated (err failure ∷ rest) = rest ≡ []

abbrev HasNoError : {Text : Type 0} → List (Result Status (TranscriptEvent Text)) → Type 0
HasNoError [] = Unit
HasNoError (ok item ∷ rest) = HasNoError rest
HasNoError (err failure ∷ rest) = ⊥

-- The last item is an error or a final transcript.
abbrev pub Tells : {Text : Type 0} → Result Status (TranscriptEvent Text) → Type 0
Tells (err failure) = Unit
Tells (ok item) = item.is_final ≡ true

module _ {Text : Type 0} where
  HasNoError-append :
      (items : List (Result Status (TranscriptEvent Text))) (item : TranscriptEvent Text)
      → HasNoError items
      → HasNoError (items ++ (ok item ∷ []))
  HasNoError-append [] item h = tt
  HasNoError-append (ok x ∷ items) item h = HasNoError-append items item h
  HasNoError-append (err e ∷ items) item h = h

  HasNoError-IsTerminated :
      (items : List (Result Status (TranscriptEvent Text))) → HasNoError items → IsTerminated items
  HasNoError-IsTerminated [] h = tt
  HasNoError-IsTerminated (ok x ∷ items) h = HasNoError-IsTerminated items h
  HasNoError-IsTerminated (err e ∷ items) h = elim h [ ]

  append-IsTerminated :
      (items : List (Result Status (TranscriptEvent Text))) (failure : Status)
      → HasNoError items
      → IsTerminated (items ++ (err failure ∷ []))
  append-IsTerminated [] failure h = refl
  append-IsTerminated (ok x ∷ items) failure h = append-IsTerminated items failure h
  append-IsTerminated (err e ∷ items) failure h = elim h [ ]

-- The stream has an end that tells how it went.
abbrev pub EndsTold : {Text : Type 0} → List (Result Status (TranscriptEvent Text)) → Type 0
EndsTold {Text} items =
    (before : List (Result Status (TranscriptEvent Text))) × (last : Result Status
      (TranscriptEvent Text))
    × (items ≡ before ++ (last ∷ []))
    × Tells last

module _ (fl : Floats) (backend : VoiceBackend fl) (delivers : ℕ → Bool) where
  open backend use {Text, Transcriber}

  abbrev Sound : Call Text Transcriber → Type 0
  Sound s = HasNoError s.sent

  abbrev Told : Call Text Transcriber → Type 0
  Told t = ((n : ℕ) → delivers n ≡ true) → (t.is_cancelled ≡ true) ⊎ EndsTold t.sent

  -- What a message may leave behind, before the commit.
  abbrev Fine : Call Text Transcriber × Flow → Type 0
  Fine (t, leave) = Sound t × Told t
  Fine (t, result (err e)) = Sound t
  Fine (t, result (ok done)) = Sound t × (t.committed ≡ false)

  send_item-Sound :
      (item : TranscriptEvent Text) (s : Call Text Transcriber)
      → Sound s
      → Sound (send_item fl backend delivers (ok item) s)
  send_item-Sound item s h = elim (Bool-cases (delivers s.attempts)) [
    | inl e ↦ rw e (HasNoError-append s.sent item h)
    | inr e ↦ rw e h
  ]

  send_item-Told :
      (item : Result Status (TranscriptEvent Text)) (s : Call Text Transcriber)
      → Tells item
      → Told (send_item fl backend delivers item s)
  send_item-Told item s h all = rw (all s.attempts) (inr (s.sent, item, refl, h))

  fail_with-IsTerminated :
      (failure : Status) (s : Call Text Transcriber)
      → Sound s
      → IsTerminated (fail_with fl backend delivers failure s).sent
  fail_with-IsTerminated failure s h = elim (Bool-cases (delivers s.attempts)) [
    | inl e ↦ rw e (append-IsTerminated s.sent failure h)
    | inr e ↦ rw e (HasNoError-IsTerminated s.sent h)
  ]

  abbrev event_for : Transcript Text → TranscriptEvent Text
  event_for u = record { text = u.text; is_final = is_final_kind u.kind }

  send_updates-Fine :
      (updates : List (Transcript Text)) (s : Call Text Transcriber)
      → Sound s
      → s.committed ≡ false
      → Fine (send_updates fl backend delivers updates s)
  unfolding send_updates
  send_updates-Fine [] s h c = (h, c)
  send_updates-Fine (u ∷ updates) s h c = elim (Bool-cases (delivers s.attempts)) [
    | inl e ↦
        rw (e, send_updates)
          (send_updates-Fine updates _ (HasNoError-append s.sent (event_for u) h) c)
    | inr e ↦ rw (e, send_updates) (h, λ all. let clash = sym e ∙ all s.attempts in cc)
  ]

  send_result-Fine :
      (updates : Result VoiceBackendError (List (Transcript Text))) (s : Call Text Transcriber)
      → Sound s
      → s.committed ≡ false
      → Fine (send_result fl backend delivers updates s)
  unfolding send_result
  send_result-Fine (ok updates) s h c = send_updates-Fine updates s h c
  send_result-Fine (err e) s h c = h

  handle_audio-Fine :
      (session : Option Transcriber) (bytes : Bytes) (s : Call Text Transcriber)
      → Sound s
      → s.committed ≡ false
      → Fine (handle_audio fl backend delivers session bytes s)
  unfolding handle_audio push_audio
  handle_audio-Fine none bytes s h c = h
  handle_audio-Fine (some active) bytes s h c =
      elim (Bool-cases (
        not s.committed
        && not (is_empty bytes)
        && not (ltb max_stream_audio_bytes (length bytes)))) [
          | inl e ↦ rw e (
              send_result-Fine (backend.push_pcm16 active bytes).1
                (record s { session = some (backend.push_pcm16 active bytes).0 }) h c)
          | inr e ↦ rw e h
        ]

  send_final-Fine :
      (final_result : Result VoiceBackendError (Transcript Text)) (s : Call Text Transcriber)
      → Sound s
      → Fine (send_final fl backend delivers final_result s)
  unfolding send_final
  send_final-Fine (ok t) s h = (
    send_item-Sound (record { text = t.text; is_final = true }) s h,
    send_item-Told (ok (record { text = t.text; is_final = true })) s refl,
  )
  send_final-Fine (err e) s h = h

  handle_commit-Fine :
      (session : Option Transcriber) (s : Call Text Transcriber)
      → Sound s
      → Fine (handle_commit fl backend delivers session s)
  unfolding handle_commit
  handle_commit-Fine none s h = h
  handle_commit-Fine (some active) s h = elim (Bool-cases s.committed) [
    | inl e ↦ rw e h
    | inr e ↦
        rw e (
          send_final-Fine (backend.finish active) (record s { committed = true; session = none }) h)
  ]

  open_session-Fine :
      (opened : Result VoiceBackendError Transcriber) (s : Call Text Transcriber)
      → Sound s
      → s.committed ≡ false
      → Fine (open_session fl backend delivers opened s)
  open_session-Fine (ok opened) s h c = (h, c)
  open_session-Fine (err e) s h c = h

  handle_config-Fine :
      (session : Option Transcriber) (rate : ℕ) (s : Call Text Transcriber)
      → Sound s
      → s.committed ≡ false
      → Fine (handle_config fl backend delivers session rate s)
  unfolding handle_config
  handle_config-Fine (some active) rate s h c = h
  handle_config-Fine none rate s h c =
      rw c (
        open_session-Fine (backend.start_transcription rate) (record s { committed = false }) h
          refl)

  handle_event-Fine :
      (message : Option Event) (s : Call Text Transcriber)
      → Sound s
      → s.committed ≡ false
      → Fine (handle_event fl backend delivers message s)
  unfolding handle_event
  handle_event-Fine none s h c = h
  handle_event-Fine (some (config rate)) s h c = handle_config-Fine s.session rate s h c
  handle_event-Fine (some (audio bytes)) s h c = handle_audio-Fine s.session bytes s h c
  handle_event-Fine (some (commit true)) s h c = handle_commit-Fine s.session s h
  handle_event-Fine (some (commit false)) s h c = h
  handle_event-Fine (some (cancel true)) s h c = (h, λ _. inl refl)
  handle_event-Fine (some (cancel false)) s h c = h

  continue_stream-ends :
      (rest : CallState fl backend delivers → CallState fl backend delivers)
      (r : Call Text Transcriber × Flow)
      → ((t : Call Text Transcriber)
          → Sound t
          → t.committed ≡ false
          → IsTerminated (rest t).sent × Told (rest t))
      → Fine r
      → IsTerminated (continue_stream fl backend delivers rest r).sent
        × Told (continue_stream fl backend delivers rest r)
  unfolding continue_stream
  continue_stream-ends rest (t, leave) next (h, told) = (HasNoError-IsTerminated t.sent h, told)
  continue_stream-ends rest (t, result (err e)) next h = (
    fail_with-IsTerminated (map_backend_error e) t h,
    send_item-Told (err (map_backend_error e)) t tt,
  )
  continue_stream-ends rest (t, result (ok done)) next (h, c) =
      rw c (next (record t { committed = false }) h refl)

  finish_stream-ends :
      (ending : Ending) (s : Call Text Transcriber)
      → Sound s
      → s.committed ≡ false
      → IsTerminated (finish_stream fl backend delivers ending s).sent
        × Told (finish_stream fl backend delivers ending s)
  unfolding finish_stream
  finish_stream-ends stop_cancelled s h c = (fail_with-IsTerminated _ s h, send_item-Told _ s tt)
  finish_stream-ends stop_deadline s h c = (fail_with-IsTerminated _ s h, send_item-Told _ s tt)
  finish_stream-ends failed s h c = (fail_with-IsTerminated _ s h, send_item-Told _ s tt)
  finish_stream-ends ended s h c = rw c (
    fail_with-IsTerminated _ (record s { committed = false }) h,
    send_item-Told _ (record s { committed = false }) tt,
  )

  stream_transcribe-ends :
      (messages : List (Option Event)) (ending : Ending) (s : Call Text Transcriber)
      → Sound s
      → s.committed ≡ false
      → IsTerminated (stream_transcribe fl backend delivers messages ending s).sent
        × Told (stream_transcribe fl backend delivers messages ending s)
  unfolding stream_transcribe
  stream_transcribe-ends [] ending s h c = finish_stream-ends ending s h c
  stream_transcribe-ends (message ∷ messages) ending s h c =
      continue_stream-ends (stream_transcribe fl backend delivers messages ending)
        (handle_event fl backend delivers message s)
        (λ t p q. stream_transcribe-ends messages ending t p q) (handle_event-Fine message s h c)

-- Whatever the caller sends and whatever the backend returns: in what a call sends back, nothing
-- follows an error.
pub stream_transcribe-IsTerminated :
    (fl : Floats) (backend : VoiceBackend fl) (delivers : ℕ → Bool) (messages : List (Option Event))
    (ending : Ending)
    → IsTerminated
        (stream_transcribe fl backend delivers messages ending (new_call fl backend delivers)).sent
stream_transcribe-IsTerminated fl backend delivers messages ending =
    (stream_transcribe-ends fl backend delivers messages ending (new_call fl backend delivers) tt
      refl).0

-- A caller that takes all that is sent, and whose call it did not cancel itself, is told how the
-- call ended: the last item is an error or a final transcript.
pub stream_transcribe-EndsTold :
    (fl : Floats) (backend : VoiceBackend fl) (delivers : ℕ → Bool) (messages : List (Option Event))
    (ending : Ending)
    → ((n : ℕ) → delivers n ≡ true)
    → (stream_transcribe fl backend delivers messages ending
        (new_call fl backend delivers)).is_cancelled
      ≡ false
    → EndsTold
        (stream_transcribe fl backend delivers messages ending (new_call fl backend delivers)).sent
stream_transcribe-EndsTold fl backend delivers messages ending all active =
    elim ((stream_transcribe-ends fl backend delivers messages ending (new_call fl backend delivers)
        tt refl).1
      all) [ inl e ↦ let clash = sym e ∙ active in cc | inr told ↦ told ]

-- ===== src/Stt/Engine.antt =====
-- `SttEngine::transcribe` and `start_stream`, crates/impossible-voice-stt/src/lib.rs.
use impossible_voice.Prelude.{
  ℕ, ◌+◌, ◌<◌, ◌≡◌, refl, ◌⊎◌, inl, inr, Bool-cases, ltb, ltb→lt, lt→ltb, ◌∙◌, false, List, arith,
  Result, ok, err, map_err, >>-eq-ok, >>=-eq-ok, map_err-eq-ok, ok_injective, subst,
}
use impossible_voice.Prelude.Word.{u64_mod}
use impossible_voice.Audio.Float.{Floats}
use impossible_voice.Audio.Admission.{validate_rate}
use impossible_voice.Audio.Pcm.{MonoPcm, validate_pcm}
use impossible_voice.Audio.Vad.{VadConfig, EnergyVad, new_vad, samples_for}
use impossible_voice.Audio.Vad.Utterance.{IsCounting}
use impossible_voice.Audio.Incremental.{new_incremental}
use impossible_voice.Audio.Resample.{resample, new_resampler}
use impossible_voice.Request.{Moment}
use impossible_voice.Request.Limiter.{Limiter, acquire, release}
use impossible_voice.Stt.{
  SttError, SttLimits, Recognizer, engine_sample_rate, cancelled, deadline_exceeded, busy,
  ensure_active, recognize, convert_and_recognize, transcribe,
}
use impossible_voice.Stt.Session.{StreamingSession}
use impossible_voice.Stt.Start.{build_session, hold_for_session, start_stream}
use impossible_voice.Stt.Wellformed.{IsWellformed}
use impossible_voice.Stt.Fencing.{IsActive}

-- A new detector is idle, and its configuration opens no utterance without speech.
new_vad-IsCounting :
    (fl : Floats) (c : VadConfig fl.F32) {v : EnergyVad fl.F32}
    → new_vad fl c 16_000 ≡ ok v
    → IsCounting v × (v.active ≡ false)
unfolding new_vad samples_for validate_rate
new_vad-IsCounting fl c h = ground arith

module _ (fl : Floats) (rec : Recognizer fl.F32) where
  open fl use {F32}
  open rec use {Text, Stream}

  recognize-eq-ok :
      (stream : Stream) (samples : List F32) (behind_accept behind_finish : Moment) {text : Text}
      → recognize fl rec stream samples behind_accept behind_finish ≡ ok text
      → IsActive behind_accept × IsActive behind_finish
  unfolding recognize ensure_active
  recognize-eq-ok stream samples behind_accept behind_finish h = ground arith

  convert_and_recognize-eq-ok :
      (limits : SttLimits) (recording : MonoPcm F32) (opened : ℕ)
      (behind_accept behind_finish : Moment) {text : Text}
      → convert_and_recognize fl rec limits recording opened behind_accept behind_finish ≡ ok text
      → (validate_pcm fl limits.audio recording ≡ ok tt)
        × IsActive behind_accept
        × IsActive behind_finish
  unfolding convert_and_recognize
  convert_and_recognize-eq-ok limits recording opened behind_accept behind_finish h =
      let (valid, more) = >>-eq-ok (map_err _ (validate_pcm fl limits.audio recording)) _ h in
      let (converted, _, opening) =
        >>=-eq-ok (map_err _ (resample fl recording engine_sample_rate)) _ more in
      let (stream, _, recognized) = >>=-eq-ok (rec.open_stream opened) _ opening in
      let (a, b) =
        recognize-eq-ok stream converted.samples behind_accept behind_finish recognized in
      (map_err-eq-ok _ (validate_pcm fl limits.audio recording) valid, a, b)

  -- A text that `transcribe` returns is of a recording within the limits; there was a permit for it;
  -- and the request was neither cancelled nor late before the call, behind the samples and behind
  -- the result.
  pub transcribe-eq-ok :
      (limits : SttLimits) (l : Limiter) (recording : MonoPcm F32) (opened : ℕ)
      (before behind_accept behind_finish : Moment) (text : Text)
      → (transcribe fl rec limits l recording opened before behind_accept behind_finish).1 ≡ ok text
      → (l.active < l.maximum)
        × (validate_pcm fl limits.audio recording ≡ ok tt)
        × IsActive before
        × IsActive behind_accept
        × IsActive behind_finish
  unfolding transcribe ensure_active acquire
  transcribe-eq-ok limits l recording opened before behind_accept behind_finish text h =
      ground
        (arith, convert_and_recognize-eq-ok limits recording opened behind_accept behind_finish)

  build_session-IsWellformed :
      (clock : ℕ → Moment) (limits : SttLimits) (vad : VadConfig F32) (source_rate : ℕ)
      {s : StreamingSession F32 Text Stream}
      → build_session fl rec limits vad source_rate ≡ ok s
      → IsWellformed fl rec clock s
  unfolding build_session
  build_session-IsWellformed clock limits vad source_rate h =
      let (stream, _, h) = >>=-eq-ok (rec.open_stream 0) _ h in
      let (decoder, _, h) =
        >>=-eq-ok (map_err _ (new_incremental fl source_rate limits.audio)) _ h in
      let (resampler, _, h) =
        >>=-eq-ok (map_err _ (new_resampler fl source_rate engine_sample_rate)) _ h in
      let (detector, made, h) = >>=-eq-ok (map_err _ (new_vad fl vad engine_sample_rate)) _ h in
      let (counting, idle) =
        new_vad-IsCounting fl vad (map_err-eq-ok _ (new_vad fl vad engine_sample_rate) made) in
      subst (IsWellformed fl rec clock) (ok_injective h) (record {
        leftover = omega arith;
        counting = counting;
        fresh = λ e. refl;
        silent = λ e. idle;
      })

  hold_for_session_cases :
      (l : Limiter)
      → l.active + 1 < u64_mod
      → (r : Result SttError (StreamingSession F32 Text Stream))
      → ((e : SttError) × (hold_for_session fl rec (record l { active = l.active + 1 }) r
            ≡ (l, err e)))
        ⊎ ((s : StreamingSession F32 Text Stream) × (r ≡ ok s)
            × (hold_for_session fl rec (record l { active = l.active + 1 }) r
                ≡ (record l { active = l.active + 1 }, ok s)))
  unfolding hold_for_session release
  hold_for_session_cases l h (ok s) = inr (s, refl, refl)
  hold_for_session_cases l h (err e) = inl (e, ground arith)

  start_stream-active :
      (limits : SttLimits) (vad : VadConfig F32) (l : Limiter) (before : Moment) (source_rate : ℕ)
      → IsActive before
      → l.active < l.maximum
      → start_stream fl rec limits vad l before source_rate
        ≡ hold_for_session fl rec
            (record l { active = l.active + 1 })
            (build_session fl rec limits vad source_rate)
  unfolding start_stream ensure_active acquire
  start_stream-active limits vad l before source_rate (c, d) free =
      rw (c, d, start_stream) (rw (lt→ltb l.active l.maximum free, start_stream) refl)

  -- `start_stream` either fails and leaves the limiter as it was, or returns a well-formed session
  -- that holds one permit more, of a request that is active, if the counter is not at the end of its
  -- word.
  pub start_stream_lem :
      (clock : ℕ → Moment) (limits : SttLimits) (vad : VadConfig F32) (l : Limiter)
      (before : Moment) (source_rate : ℕ)
      → l.active + 1 < u64_mod
      → ((e : SttError) × (start_stream fl rec limits vad l before source_rate ≡ (l, err e)))
        ⊎ ((s : StreamingSession F32 Text Stream) × (start_stream fl rec limits vad l before
                source_rate
              ≡ (record l { active = l.active + 1 }, ok s))
            × (l.active < l.maximum)
            × IsActive before
            × IsWellformed fl rec clock s)
  unfolding start_stream hold_for_session ensure_active acquire release
  start_stream_lem clock limits vad l before source_rate h = elim (Bool-cases before.is_cancelled) [
    | inl c ↦ inl (cancelled, rw c refl)
    | inr c ↦ elim (Bool-cases before.is_expired) [
      | inl d ↦ inl (deadline_exceeded, rw (c, d) refl)
      | inr d ↦ elim (Bool-cases (ltb l.active l.maximum)) [
        | inr full ↦ inl (busy, rw (c, d, start_stream) (rw (full, start_stream) refl))
        | inl free ↦
            let start =
              start_stream-active limits vad l before source_rate (c, d)
                (ltb→lt l.active l.maximum free) in
            elim (hold_for_session_cases l h (build_session fl rec limits vad source_rate)) [
              | inl (e, back) ↦ inl (e, start ∙ back)
              | inr (s, built, held) ↦ inr (
                s,
                start ∙ held,
                ltb→lt l.active l.maximum free,
                (c, d),
                build_session-IsWellformed clock limits vad source_rate built,
              )
            ]
      ]
    ]
  ]

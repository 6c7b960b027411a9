-- ===== src/Audio/Incremental/Frames.antt =====
-- `IncrementalPcm16` of crates/impossible-voice-audio/src/lib.rs does not depend on how the bytes
-- are cut into frames.
use impossible_voice.Prelude.{
  ℕ, lt→ltb, ◌>>=◌, ◌≢◌, ◌+◌, ◌*◌, ◌/◌, ◌%◌, ◌<◌, ◌≡◌, refl, sym, ap, ◌∙◌, Option, none, some, List,
  [], ◌∷◌, ◌++◌, append-nil, append_assoc, arith, length, length-append, concat, ok,
}
use impossible_voice.Prelude.Word.{u64_mod, from_le2, saturating_mul}
use impossible_voice.Audio.Float.{Floats, decode_sample}
use impossible_voice.Audio.Admission.{AudioLimits, admit, admit_mono, validate_rate}
use impossible_voice.Audio.Pcm.{decode_pairs, from_pcm16_le}
use impossible_voice.Audio.Incremental.{
  IncrementalPcm16, count_pending, new_incremental, drain_pairs, decode_frame, push, finish,
  push_all,
}

module _ (fl : Floats) where
  open fl use {F32}

  -- The samples of two frames, and the byte that is pending behind them.
  abbrev two_frames : List F32 × Option ℕ → List ℕ → List F32 × Option ℕ
  two_frames t b = (t.0 ++ (decode_frame fl t.1 b).0, (decode_frame fl t.1 b).1)

  abbrev with_sample : F32 → List F32 × Option ℕ → List F32 × Option ℕ
  with_sample x t = (x ∷ t.0, t.1)

  drain_pairs-append : (a b : List ℕ) → drain_pairs fl (a ++ b) ≡ two_frames (drain_pairs fl a) b
  unfolding decode_frame drain_pairs
  drain_pairs-append [] b = refl
  drain_pairs-append (low ∷ []) [] = refl
  drain_pairs-append (low ∷ []) (high ∷ rest) = refl
  drain_pairs-append (low ∷ (high ∷ rest)) b =
      ap (with_sample (decode_sample fl (from_le2 low high))) (drain_pairs-append rest b)

  decode_frame-append :
      (p : Option ℕ) (a b : List ℕ)
      → decode_frame fl p (a ++ b) ≡ two_frames (decode_frame fl p a) b
  unfolding decode_frame
  decode_frame-append none a b = drain_pairs-append a b
  decode_frame-append (some low) [] b = refl
  decode_frame-append (some low) (high ∷ rest) b =
      ap (with_sample (decode_sample fl (from_le2 low high))) (drain_pairs-append rest b)

  drain_pairs-decode_pairs : (bytes : List ℕ) → (drain_pairs fl bytes).0 ≡ decode_pairs fl bytes
  unfolding drain_pairs decode_pairs
  drain_pairs-decode_pairs [] = refl
  drain_pairs-decode_pairs (low ∷ []) = refl
  drain_pairs-decode_pairs (low ∷ (high ∷ rest)) =
      ap (◌∷◌ (decode_sample fl (from_le2 low high))) (drain_pairs-decode_pairs rest)

  length-drain_pairs :
      (bytes : List ℕ)
      → length (drain_pairs fl bytes).0 * 2 + count_pending (drain_pairs fl bytes).1 ≡ length bytes
  unfolding drain_pairs
  length-drain_pairs [] = omega arith
  length-drain_pairs (low ∷ []) = omega arith
  length-drain_pairs (low ∷ (high ∷ rest)) = omega (arith, length-drain_pairs rest)

  -- Every byte is in a sample or pending.
  length-decode_frame :
      (p : Option ℕ) (bytes : List ℕ)
      → length (decode_frame fl p bytes).0 * 2 + count_pending (decode_frame fl p bytes).1
        ≡ count_pending p + length bytes
  unfolding decode_frame
  length-decode_frame none bytes = omega (arith, length-drain_pairs bytes)
  length-decode_frame (some low) [] = omega arith
  length-decode_frame (some low) (high ∷ rest) = omega (arith, length-drain_pairs rest)

  -- The bytes received so far.
  abbrev received : IncrementalPcm16 F32 → ℕ
  received s = length s.samples * 2 + count_pending s.pending

  -- The state behind the frames, if none is refused.
  abbrev after : IncrementalPcm16 F32 → List ℕ → IncrementalPcm16 F32
  after s bytes = record s {
    samples = s.samples ++ (decode_frame fl s.pending bytes).0;
    pending = (decode_frame fl s.pending bytes).1;
  }

  after-append : (s : IncrementalPcm16 F32) (a b : List ℕ) → after (after s a) b ≡ after s (a ++ b)
  after-append s a b = rw (decode_frame-append s.pending a b, append_assoc)

  received-after :
      (s : IncrementalPcm16 F32) (bytes : List ℕ)
      → received (after s bytes) ≡ received s + length bytes
  received-after s bytes = omega (
    arith,
    length-append s.samples (decode_frame fl s.pending bytes).0,
    length-decode_frame s.pending bytes,
  )

  abbrev Admitted : IncrementalPcm16 F32 → ℕ → Type 0
  Admitted s more =
      (received s + more < u64_mod)
      × (admit s.limits (received s + more) s.sample_rate ((received s + more) / 2) ≡ ok tt)

  push-after :
      (s : IncrementalPcm16 F32) (bytes : List ℕ) (more : ℕ)
      → Admitted s (length bytes + more)
      → push fl s bytes ≡ ok (after s bytes, (decode_frame fl s.pending bytes).0)
  unfolding push
  push-after s bytes more (fit, adm) =
      let exact : saturating_mul u64_mod (length s.samples) 2 ≡ length s.samples * 2 =
        omega arith in
      rw (
        exact,
        lt→ltb (received s + length bytes) u64_mod (omega arith),
        admit_mono s.limits (received s + length bytes) (received s + (length bytes + more))
            s.sample_rate ((received s + length bytes) / 2)
            ((received s + (length bytes + more)) / 2) (omega arith) (omega arith) adm,
      )

  decode_frame-nil : (p : Option ℕ) → decode_frame fl p [] ≡ ([], p)
  unfolding decode_frame drain_pairs
  decode_frame-nil none = refl
  decode_frame-nil (some low) = refl

  after-nil : (s : IncrementalPcm16 F32) → after s [] ≡ s
  after-nil s = rw (decode_frame-nil s.pending, append-nil)

  -- Frames that are admitted together are accepted one by one.
  pub push_all-after :
      (frames : List (List ℕ)) (s : IncrementalPcm16 F32)
      → Admitted s (length (concat frames))
      → push_all fl s frames ≡ ok (after s (concat frames))
  unfolding push_all
  push_all-after [] s adm = ap ok (sym (after-nil s))
  push_all-after (frame ∷ frames) s adm =
      let (fit, ok_all) = rw (length-append frame (concat frames)) at adm in
      let more : received (after s frame) + length (concat frames)
          ≡ received s + (length frame + length (concat frames)) =
        omega (arith, received-after s frame) in
      rw (push-after s frame (length (concat frames)) (fit, ok_all)) (
        push_all-after frames (after s frame) (rw more fit, rw more ok_all)
        ∙ ap ok (after-append s frame (concat frames)))

  no_pending : (bytes : List ℕ) → length bytes % 2 ≡ 0 → (drain_pairs fl bytes).1 ≡ none
  unfolding drain_pairs
  no_pending [] e = refl
  no_pending (low ∷ []) e = absurd (omega arith)
  no_pending (low ∷ (high ∷ rest)) e = no_pending rest (omega arith)

  abbrev fresh : ℕ → AudioLimits → IncrementalPcm16 F32
  fresh rate limits = record { sample_rate = rate; limits = limits; samples = []; pending = none }

  new_incremental-fresh :
      (rate : ℕ) (limits : AudioLimits)
      → validate_rate rate ≡ ok tt
      → new_incremental fl rate limits ≡ ok (fresh rate limits)
  unfolding new_incremental
  new_incremental-fresh rate limits v = rw v

  finish-after :
      (rate : ℕ) (limits : AudioLimits) (bytes : List ℕ)
      → validate_rate rate ≡ ok tt
      → bytes ≢ []
      → length bytes % 2 ≡ 0
      → admit limits (length bytes) rate (length bytes / 2) ≡ ok tt
      → finish fl (after (fresh rate limits) bytes) ≡ from_pcm16_le fl bytes rate limits
  unfolding finish from_pcm16_le decode_frame
  finish-after rate limits [] v ne even adm = absurd (ne refl)
  finish-after rate limits (b ∷ bs) v ne even adm =
      rw (no_pending (b ∷ bs) even, drain_pairs-decode_pairs (b ∷ bs), v, even, adm)

  -- At a supported rate, however the bytes of a recording are cut into frames, empty ones included:
  -- if the whole is not empty, of even length below 2^64 and admitted, every frame is accepted, and
  -- `finish` gives what `from_pcm16_le` gives on the whole.
  pub push_all-from_pcm16_le :
      (rate : ℕ) (limits : AudioLimits) (frames : List (List ℕ))
      → validate_rate rate ≡ ok tt
      → concat frames ≢ []
      → length (concat frames) % 2 ≡ 0
      → length (concat frames) < u64_mod
      → admit limits (length (concat frames)) rate (length (concat frames) / 2) ≡ ok tt
      → (do s ← new_incremental fl rate limits; done ← push_all fl s frames; finish fl done)
        ≡ from_pcm16_le fl (concat frames) rate limits
  push_all-from_pcm16_le rate limits frames v ne even fit adm =
      let zero_in : received (fresh rate limits) + length (concat frames) ≡ length (concat frames) =
        omega arith in
      rw
        (
          new_incremental-fresh rate limits v,
          push_all-after frames (fresh rate limits) (rw zero_in fit, rw zero_in adm),
        )
        (finish-after rate limits (concat frames) v ne even adm)

-- ===== src/Audio/Resample/Equivalence.antt =====
-- The comment on `StreamingResampler` in crates/impossible-voice-audio/src/lib.rs: its output is
-- that of `MonoPcm::resample` on the concatenated input, however the input is cut.
use impossible_voice.Prelude.{
  ℕ, zero, suc, ◌+◌, ◌-◌, ◌*◌, ◌≤◌, ◌<◌, ◌≡◌, ◌≢◌, refl, sym, ap, ◌∙◌, ◌⊎◌, inl, inr, true, false,
  not, some, List, [], ◌∷◌, ◌++◌, Bool, ◌||◌, ◌==◌, append-nil, append_assoc, arith, lt→ltb, length,
  length-append, concat, any, is_empty, get_elem?, Result, ok, err, ◌>>=◌, >>=-then,
}
use impossible_voice.Prelude.Word.{u64_mod}
use impossible_voice.Audio.Float.{Floats, ZeroFraction, valid_sample}
use impossible_voice.Audio.Admission.{AudioError, validate_rate, validate_rate_bounds}
use impossible_voice.Audio.Pcm.{new_pcm}
use impossible_voice.Audio.Resample.{
  StreamingResampler, output_count, render, resample, new_resampler, push_rounds, push,
}
use impossible_voice.Audio.Resample.Positions.{count_to, count_to_mono, count_to_fits}
use impossible_voice.Audio.Resample.Streaming.{AllValid}
use impossible_voice.Audio.Resample.Rounds.{render_total, render-append, render-add}

-- The frames one after the other, and all that they put out; it stops at the first failure.
unfoldable pub push_all :
    (fl : Floats)
    → StreamingResampler fl.F32
    → List (List fl.F32)
    → StreamingResampler fl.F32 × Result AudioError (List fl.F32)
push_all fl s [] = (s, ok [])
push_all fl s (frame ∷ frames) =
    let (s', pushed) = push fl s frame in
    let (s'', rest) = push_all fl s' frames in
    elim pushed [ err e ↦ (s', err e) | ok out ↦ (s'', do more ← rest; ok (out ++ more)) ]

ne-eq : (a b : ℕ) → a ≢ b → (a == b) ≡ false
ne-eq a b h = ground arith

ne-zero : (n : ℕ) → 0 < n → (n == 0) ≡ false
ne-zero n h = ground arith

or_false_right : (a b : Bool) → (a || b) ≡ false → b ≡ false
or_false_right true b h = cc
or_false_right false b h = h

or_false_left : (a b : Bool) → (a || b) ≡ false → a ≡ false
or_false_left true b h = h
or_false_left false b h = refl

is_empty-ne {ℓ} : {A : Type ℓ} (xs : List A) → xs ≢ [] → is_empty xs ≡ false
is_empty-ne [] h = absurd (h refl)
is_empty-ne (x ∷ xs) h = refl

module _ {ℓ} {A : Type ℓ} (p : A → Bool) where
  any-append : (xs ys : List A) → any p (xs ++ ys) ≡ (any p xs || any p ys)
  any-append [] ys = refl
  any-append (x ∷ xs) ys = ground (arith, any-append xs ys)

  any-get_elem?-false :
      (xs : List A) (i : ℕ) (a : A) → any p xs ≡ false → get_elem? xs i ≡ some a → p a ≡ false
  any-get_elem?-false [] i a h e = cc
  any-get_elem?-false (x ∷ xs) zero a h e = ground arith
  any-get_elem?-false (x ∷ xs) (suc i) a h e = any-get_elem?-false xs i a (ground arith) e

-- No frame is empty.
abbrev pub NoneEmpty {ℓ} : {A : Type ℓ} → List (List A) → Type ℓ
NoneEmpty [] = Unit
NoneEmpty (frame ∷ frames) = (frame ≢ []) × NoneEmpty frames

module _ (fl : Floats) where
  push_all-cons :
      (s : StreamingResampler fl.F32) (frame : List fl.F32) (frames : List (List fl.F32))
      {s' s'' : StreamingResampler fl.F32} {new news : List fl.F32}
      → push fl s frame ≡ (s', ok new)
      → push_all fl s' frames ≡ (s'', ok news)
      → push_all fl s (frame ∷ frames) ≡ (s'', ok (new ++ news))
  unfolding push_all
  push_all-cons s frame frames e e' = rw (e, push_all) (rw (e, e'))

module _ (fl : Floats) (zf : ZeroFraction fl) (source target : ℕ) (source_pos : 0 < source)
    (target_pos : 0 < target) (target_small : target < 65_536)
    (source_small : source < 65_536) where
  open fl use {F32}

  -- The output count does not overflow.
  output_count-eq-ok :
      (last : ℕ)
      → suc last * 65_536 < u64_mod
      → output_count last source target ≡ ok (count_to source target last)
  unfolding output_count
  output_count-eq-ok last h =
      let (product, count) = count_to_fits source target last u64_mod source_pos target_small h in
      rw (
        lt→ltb (last * target) u64_mod product,
        ne-zero source source_pos,
        lt→ltb (count_to source target last) u64_mod count,
      )

  abbrev state : List F32 → ℕ → StreamingResampler F32
  state input n = record {
    source_rate = source;
    target_rate = target;
    input = input;
    next_output = n;
  }

  -- The resampler has put out what the rounds up to its `next_output` give on its input.
  abbrev Emitted : List F32 → ℕ → List F32 → Type 0
  Emitted input n out =
      ((input ≡ []) × (n ≡ 0) × (out ≡ []))
      ⊎ ((last : ℕ) × (length input ≡ suc last)
          × (n ≡ count_to source target last)
          × (render fl input last source target n 0 ≡ (n, ok out)))

  module _ (input more : List F32) (last' : ℕ) (len' : length (input ++ more) ≡ suc last')
      (small' : length (input ++ more) * 65_536 < u64_mod)
      (valid : any (λ x. not (valid_sample fl x)) (input ++ more) ≡ false) where
    valid_at : AllValid fl (input ++ more)
    valid_at i a e =
        ground
          (arith, any-get_elem?-false (λ x. not (valid_sample fl x)) (input ++ more) i a valid e)

    longer : length (input ++ more) ≡ length input + length more
    longer = length-append input more

    -- What has been put out stays right when more input comes.
    Emitted-append :
        (n : ℕ) (out : List F32)
        → Emitted input n out
        → (render fl (input ++ more) last' source target n 0 ≡ (n, ok out))
          × (n ≤ count_to source target last')
    unfolding render
    Emitted-append n out (inl (e, z, o)) = (rw (z, o), omega arith)
    Emitted-append n out (inr (last, len, e, r)) =
        let mono = count_to_mono source target last last' source_pos (omega (arith, longer)) in
        (
          render-append fl zf source target source_pos target_pos target_small source_small input
                more last last' len len' small' valid_at n 0 (omega arith)
              ∙ r,
          omega arith,
        )

    push-Emitted :
        (n : ℕ) (out : List F32)
        → more ≢ []
        → Emitted input n out
        → (new : List F32) × (push fl (state input n) more
            ≡ (state (input ++ more) (count_to source target last'), ok new))
          × Emitted (input ++ more) (count_to source target last') (out ++ new)
    unfolding push push_rounds
    push-Emitted n out ne em =
        let (kept, below) = Emitted-append n out em in
        let rounds : ℕ = count_to source target last' - n in
        let (new, e) =
          render_total fl zf source target source_pos target_pos target_small source_small
            (input ++ more) last' len' small' rounds n (omega arith) in
        let stop : n + rounds ≡ count_to source target last' = omega arith in
        let zero_n : 0 + n ≡ n = omega arith in
        let last_eq : length (input ++ more) - 1 ≡ last' = omega arith in
        let e' = rw stop at e in
        let fine : any (λ x. not (valid_sample fl x)) more ≡ false =
          or_false_right (any (λ x. not (valid_sample fl x)) input) _
            (sym (any-append (λ x. not (valid_sample fl x)) input more) ∙ valid) in
        (
          new,
          rw (
            is_empty-ne more ne,
            fine,
            lt→ltb (length input + length more) u64_mod (omega (arith, longer)),
            push_rounds,
            last_eq,
            output_count-eq-ok last' (rw len' at small'),
            last_eq,
            e',
          ),
          inr (
            last',
            len',
            refl,
            rw (← stop) (
                render-add fl (input ++ more) last' source target n rounds 0 out new
                  (rw zero_n kept) (rw zero_n e)),
          ),
        )

  last_sample : (xs : List F32) → xs ≢ [] → (last : ℕ) × (length xs ≡ suc last)
  last_sample [] h = absurd (h refl)
  last_sample (x ∷ xs) h = (length xs, refl)

  append-ne-nil : (xs ys : List F32) → ys ≢ [] → xs ++ ys ≢ []
  append-ne-nil [] ys h = h
  append-ne-nil (x ∷ xs) ys h = λ e. cc

  push_all-Emitted :
      (frames : List (List F32)) (input : List F32) (n : ℕ) (out : List F32)
      → NoneEmpty frames
      → length (input ++ concat frames) * 65_536 < u64_mod
      → any (λ x. not (valid_sample fl x)) (input ++ concat frames) ≡ false
      → Emitted input n out
      → (new : List F32) × (n' : ℕ) × (push_all fl (state input n) frames
          ≡ (state (input ++ concat frames) n', ok new))
        × Emitted (input ++ concat frames) n' (out ++ new)
  unfolding push_all
  push_all-Emitted [] input n out ne small valid em =
      ([], n, rw (append-nil input), rw (append-nil input, append-nil out) em)
  push_all-Emitted (frame ∷ frames) input n out (ne, nes) small valid em =
      let assoc = append_assoc input frame (concat frames) in
      let small' = rw (← assoc) at small in
      let valid' = rw (← assoc) at valid in
      let longer = length-append (input ++ frame) (concat frames) in
      let (last', len') = last_sample (input ++ frame) (append-ne-nil input frame ne) in
      let (new, e, em') =
        push-Emitted input frame last' len' (omega (arith, longer))
          (or_false_left (any (λ x. not (valid_sample fl x)) (input ++ frame)) _ (
            sym (any-append (λ x. not (valid_sample fl x)) (input ++ frame) (concat frames))
            ∙ valid'))
          n out ne em in
      let (news, n', e', em'') =
        push_all-Emitted frames (input ++ frame) (count_to source target last') (out ++ new) nes
          small' valid' em' in
      (
        new ++ news,
        n',
        rw assoc at (push_all-cons fl _ frame frames e e'),
        rw (← assoc, ← append_assoc out new news) em'',
      )

  Emitted-render :
      (input : List F32) (n : ℕ) (out : List F32)
      → input ≢ []
      → length input * 65_536 < u64_mod
      → Emitted input n out
      → (do
        count ← output_count (length input - 1) source target
        (render fl input (length input - 1) source target count 0).1)
        ≡ ok out
  Emitted-render input n out ne small (inl (e, _, _)) = absurd (ne e)
  Emitted-render input n out ne small (inr (last, len, count, r)) =
      let last_eq : length input - 1 ≡ last = omega arith in
      rw (last_eq, output_count-eq-ok last (rw len at small), ← count) (ap (λ t. t.1) r)

-- Cut into frames that are not empty, a recording of valid samples goes through the streaming
-- resampler without an error, and what it puts out in all is what `resample` at once computes:
-- between two different supported rates, `resample` is `MonoPcm::new` on it. The recording is not
-- empty, its length times 65536 is below 2^64, and for these floats x + y * (0 / z) is x.
pub push_all-resample :
    (fl : Floats)
    → ZeroFraction fl
    → (source target : ℕ) (frames : List (List fl.F32)) → validate_rate source ≡ ok tt
    → validate_rate target ≡ ok tt
    → target ≢ source
    → NoneEmpty frames
    → concat frames ≢ []
    → any (λ x. not (valid_sample fl x)) (concat frames) ≡ false
    → length (concat frames) * 65_536 < u64_mod
    → (s : StreamingResampler fl.F32) × (s' : StreamingResampler fl.F32) × (out : List fl.F32)
      × (new_resampler fl source target ≡ ok s)
      × (push_all fl s frames ≡ (s', ok out))
      × (resample fl (record { sample_rate = source; samples = concat frames }) target
          ≡ new_pcm fl target out)
unfolding new_resampler resample
push_all-resample fl zf source target frames vs vt ne nes filled valid small =
    let bs = validate_rate_bounds source vs in
    let bt = validate_rate_bounds target vt in
    let (out, n, e, em) =
      push_all-Emitted fl zf source target (omega arith) (omega arith) (omega arith) (omega arith)
        frames [] 0 [] nes small valid (inl (refl, refl, refl)) in
    (
      state fl zf source target (omega arith) (omega arith) (omega arith) (omega arith) [] 0,
      _,
      out,
      rw (vs, vt),
      e,
      rw (vt, ne-eq target source ne)
          (>>=-then (output_count (length (concat frames) - 1) source target)
            (λ count.
              (render fl (concat frames) (length (concat frames) - 1) source target count 0).1)
            (new_pcm fl target)
            (Emitted-render fl zf source target (omega arith) (omega arith) (omega arith)
              (omega arith) (concat frames) n out filled small em)),
    )

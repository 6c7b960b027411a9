-- ===== src/Audio/Resample/Streaming.antt =====
-- The streaming resampler of crates/impossible-voice-audio/src/lib.rs against the batch one.
use impossible_voice.Prelude.{
  ℕ, suc, ◌+◌, ◌-◌, ◌*◌, ◌/◌, ◌%◌, ◌≤◌, ◌<◌, ◌≡◌, sym, ap, ◌∙◌, true, min, some, List, ◌++◌, arith,
  lt→ltb, length, length-append, get_elem?, get_elem?-lt, get_elem?-append_left, ok,
}
use native.Mathlib.Decide.{dec_lt}
use impossible_voice.Prelude.Word.{u64_mod}
use impossible_voice.Audio.Float.{Floats, ZeroFraction, valid_sample}
use impossible_voice.Audio.Resample.{sample_at}
use impossible_voice.Audio.Resample.Positions.{
  Within, position-le-last, at-last, Within-mono, product_fits, mod-lt_of_pos,
}

module _ (fl : Floats) where
  open fl use {F32}

  -- Every sample is one that `push` admits.
  abbrev pub AllValid : List F32 → Type 0
  AllValid xs = (i : ℕ) (a : F32) → get_elem? xs i ≡ some a → valid_sample fl a ≡ true

module _ (fl : Floats) (zf : ZeroFraction fl) (source target : ℕ) (source_pos : 0 < source)
    (target_pos : 0 < target) (target_small : target < 65_536) where
  open fl use {F32}

  -- The value of an output sample: between the input samples on both sides of its position.
  abbrev between : F32 → F32 → ℕ → F32
  between a b remainder =
      fl.add a (fl.mul (fl.sub b a) (fl.div (fl.of_u16 remainder) (fl.of_u16 target)))

  module _ (input : List F32) (last i : ℕ) (len : length input ≡ suc last)
      (small : length input * 65_536 < u64_mod) (source_small : source < 65_536)
      (within : Within last source target i) where
    abbrev left : ℕ
    left = i * source / target

    left-le-last : left ≤ last
    left-le-last = position-le-last (i * source) last target target_pos within

    position_fits : i * source < u64_mod
    position_fits =
        product_fits (i * source) last target u64_mod within target_small (rw len at small)

    sample_at-between :
        (a b : F32)
        → get_elem? input left ≡ some a
        → get_elem? input (min (left + 1) last) ≡ some b
        → sample_at fl input last source target i ≡ ok (between a b (i * source % target))
    unfolding sample_at
    sample_at-between a b ea eb =
        let room : suc last * 65_536 < u64_mod = rw len at small in
        let exact : min (left + 1) (u64_mod - 1) ≡ left + 1 = omega (arith, left-le-last) in
        let rem = mod-lt_of_pos (i * source) target target_pos in
        rw (
          lt→ltb (i * source) u64_mod position_fits,
          lt→ltb (i * source % target) 65_536 (omega arith),
          lt→ltb target 65_536 target_small,
          exact,
          ea,
          eb,
        )

    -- A round within the input never indexes out of range.
    pub sample_at-eq-ok : (x : F32) × (sample_at fl input last source target i ≡ ok x)
    sample_at-eq-ok =
        let (a, ea) = get_elem?-lt input left (omega (arith, left-le-last)) in
        let (b, eb) = get_elem?-lt input (min (left + 1) last) (omega arith) in
        (between a b (i * source % target), sample_at-between a b ea eb)

  module _ (input more : List F32) (last last' i : ℕ) (len : length input ≡ suc last)
      (len' : length (input ++ more) ≡ suc last')
      (small' : length (input ++ more) * 65_536 < u64_mod) (source_small : source < 65_536)
      (within : Within last source target i) where
    abbrev at : ℕ
    at = i * source / target

    longer : length (input ++ more) ≡ length input + length more
    longer = length-append input more

    within' : Within last' source target i
    within' = Within-mono last last' source target i (omega (arith, longer)) within

    small : length input * 65_536 < u64_mod
    small = omega (arith, longer)

    at-lt-length : at < length input
    at-lt-length = omega (arith, position-le-last (i * source) last target target_pos within)

    same_sample :
        (a b b' : F32)
        → get_elem? input at ≡ some a
        → get_elem? input (min (at + 1) last) ≡ some b
        → get_elem? (input ++ more) (min (at + 1) last') ≡ some b'
        → valid_sample fl a ≡ true
        → valid_sample fl b ≡ true
        → valid_sample fl b' ≡ true
        → between a b' (i * source % target) ≡ between a b (i * source % target)
    same_sample a b b' ea eb eb' va vb vb' = elim (dec_lt at last) [
      | yes inside ↦
          let here : min (at + 1) last ≡ at + 1 = omega arith in
          let here' : min (at + 1) last' ≡ at + 1 = omega (arith, longer) in
          let same : some b' ≡ some b =
            sym eb'
            ∙ (rw here' (get_elem?-append_left input more (at + 1) (omega arith)))
            ∙ (rw here at eb) in
          ap (λ x. between a x (i * source % target)) (cc same)
      | no outside ↦
          let zero_rem = at-last (i * source) last target target_pos within (omega arith) in
          rw zero_rem (
            zf.zero_fraction a b' target target_pos target_small va vb'
            ∙ sym (zf.zero_fraction a b target target_pos target_small va vb))
    ]

    -- More input behind it leaves the output sample as it is.
    pub sample_at-append :
        AllValid fl (input ++ more)
        → sample_at fl (input ++ more) last' source target i
          ≡ sample_at fl input last source target i
    sample_at-append valid =
        let (a, ea) = get_elem?-lt input at at-lt-length in
        let (b, eb) = get_elem?-lt input (min (at + 1) last) (omega arith) in
        let (b', eb') = get_elem?-lt (input ++ more) (min (at + 1) last') (omega arith) in
        let ea' = get_elem?-append_left input more at at-lt-length ∙ ea in
        let inb = get_elem?-append_left input more (min (at + 1) last) (omega arith) ∙ eb in
        sample_at-between (input ++ more) last' i len' small' source_small within' a b' ea' eb'
        ∙ ap ok (
            same_sample a b b' ea eb eb' (valid at a ea') (valid (min (at + 1) last) b inb)
              (valid (min (at + 1) last') b' eb'))
        ∙ sym (sample_at-between input last i len small source_small within a b ea eb)

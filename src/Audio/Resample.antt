-- ===== src/Audio/Resample.antt =====
-- Linear resampling in crates/impossible-voice-audio/src/lib.rs: `MonoPcm::resample` on a whole
-- recording, and `StreamingResampler` on one that arrives in pieces.
pub mod Positions
pub mod Streaming
pub mod Rounds
pub mod Equivalence
use impossible_voice.Prelude.{
  ℕ, zero, suc, ◌+◌, ◌-◌, ◌*◌, ◌/◌, ◌%◌, min, Bool, true, false, not, ◌||◌, Option, none, some,
  List, [], ◌∷◌, ◌++◌, ◌==◌, if◌then◌else◌, length, is_empty, any, get_elem?, Result, ok, err,
  ◌>>=◌, ◌>>◌, reject_if, ok_or,
}
use impossible_voice.Prelude.Word.{u64_mod, fits, checked_add, checked_mul, saturating_add}
use impossible_voice.Audio.Float.{Floats, valid_sample}
use impossible_voice.Audio.Admission.{
  AudioError, resample_too_large, resample_invalid, index_out_of_range, validate_rate,
}
use impossible_voice.Audio.Pcm.{MonoPcm, new_pcm}

abbrev checked_div : ℕ → ℕ → Option ℕ
checked_div a b = if b == 0 then none else some (a / b)

-- The number of output samples up to the input sample `last`: last * target / source + 1.
unfoldable pub output_count : ℕ → ℕ → ℕ → Result AudioError ℕ
output_count last source target = do
  product ← ok_or (checked_mul u64_mod last target) resample_too_large
  quotient ← ok_or (checked_div product source) resample_too_large
  ok_or (checked_add u64_mod quotient 1) resample_too_large

pub record StreamingResampler (F : Type 0) : Type 0 where
  pub source_rate : ℕ
  pub target_rate : ℕ
  pub input : List F
  pub next_output : ℕ

module _ (fl : Floats) where
  open fl use {F32}

  -- The body of both loops: output sample `index`.
  unfoldable pub sample_at : List F32 → ℕ → ℕ → ℕ → ℕ → Result AudioError F32
  sample_at input last source target index = do
    position ← ok_or (checked_mul u64_mod index source) resample_too_large
    remainder ← ok_or (fits 65_536 (position % target)) resample_too_large
    target16 ← ok_or (fits 65_536 target) resample_too_large
    let left = position / target
    let right = min (saturating_add u64_mod left 1) last
    a ← ok_or (get_elem? input left) index_out_of_range
    b ← ok_or (get_elem? input right) index_out_of_range
    ok (fl.add a (fl.mul (fl.sub b a) (fl.div (fl.of_u16 remainder) (fl.of_u16 target16))))

  abbrev pub prepend : F32 → Result AudioError (List F32) → Result AudioError (List F32)
  prepend x (ok xs) = ok (x ∷ xs)
  prepend x (err e) = err e

  -- `rounds` rounds from `next` on: where the loop stops, and what it has put out.
  unfoldable pub render : List F32 → ℕ → ℕ → ℕ → ℕ → ℕ → ℕ × Result AudioError (List F32)
  render input last source target zero next = (next, ok [])
  render input last source target (suc rounds) next =
      elim (sample_at input last source target next) [
        | ok x ↦
            let (stop, rest) = render input last source target rounds (next + 1) in
            (stop, prepend x rest)
        | err e ↦ (next, err e)
      ]

  unfoldable pub resample : MonoPcm F32 → ℕ → Result AudioError (MonoPcm F32)
  resample p target = do
    validate_rate target
    if target == p.sample_rate then ok p else (do
      let last = length p.samples - 1
      count ← output_count last p.sample_rate target
      output ← (render p.samples last p.sample_rate target count 0).1
      new_pcm fl target output)

  unfoldable pub new_resampler : ℕ → ℕ → Result AudioError (StreamingResampler F32)
  new_resampler source target = do
    validate_rate source
    validate_rate target
    ok (record { source_rate = source; target_rate = target; input = []; next_output = 0 })

  -- The rounds once the input is extended. The state moves on also where a round fails.
  unfoldable pub push_rounds :
      StreamingResampler F32
      → Result AudioError ℕ
      → StreamingResampler F32 × Result AudioError (List F32)
  push_rounds s (err e) = (s, err e)
  push_rounds s (ok available) =
      let (stop, out) =
        render s.input (length s.input - 1) s.source_rate s.target_rate (available - s.next_output)
          s.next_output in
      (record s { next_output = stop }, out)

  unfoldable pub push :
      StreamingResampler F32 → List F32 → StreamingResampler F32 × Result AudioError (List F32)
  push s samples =
      if is_empty samples || any (λ x. not (valid_sample fl x)) samples
      then (s, err resample_invalid)
      else elim (checked_add u64_mod (length s.input) (length samples)) [
        | none ↦ (s, err resample_too_large)
        | some total ↦
            push_rounds (record s { input = s.input ++ samples })
              (output_count (length (s.input ++ samples) - 1) s.source_rate s.target_rate)
      ]

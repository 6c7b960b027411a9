-- ===== src/Tests/Resampling.antt =====
-- The resamplers of crates/impossible-voice-audio/src/lib.rs on a short recording.
use impossible_voice.Prelude.{ℕ, false, ◌≡◌, refl, List, [], ◌∷◌, arith, concat, ok}
use impossible_voice.Audio.Fixed.{Fixed, fixed, fixed-ZeroFraction}
use impossible_voice.Audio.Admission.{validate_rate}
use impossible_voice.Audio.Pcm.{new_pcm}
use impossible_voice.Audio.Resample.{
  StreamingResampler, new_resampler, output_count, render, sample_at, resample,
}
use impossible_voice.Audio.Resample.Equivalence.{push_all, push_all-resample}

abbrev level : ℕ → Fixed
level n = record { negative = false; magnitude = n }

abbrev pieces : List (List Fixed)
pieces = (level 0 ∷ level 100 ∷ []) ∷ ((level 300 ∷ []) ∷ [])

doubled :
    resample fixed (record { sample_rate = 8_000; samples = concat pieces }) 16_000
    ≡ ok (record {
      sample_rate = 16_000;
      samples = level 0 ∷ level 50 ∷ level 100 ∷ level 200 ∷ level 300 ∷ [];
    })
unfolding resample output_count render sample_at new_pcm validate_rate
doubled = refl

rates : (validate_rate 8_000 ≡ ok tt) × (validate_rate 16_000 ≡ ok tt)
unfolding validate_rate
rates = (refl, refl)

push_all-resample_example :
    (s : StreamingResampler Fixed) × (s' : StreamingResampler Fixed) × (out : List Fixed)
    × (new_resampler fixed 8_000 16_000 ≡ ok s)
    × (push_all fixed s pieces ≡ (s', ok out))
    × (resample fixed (record { sample_rate = 8_000; samples = concat pieces }) 16_000
        ≡ new_pcm fixed 16_000 out)
push_all-resample_example =
    push_all-resample fixed fixed-ZeroFraction 8_000 16_000 pieces rates.0 rates.1 (omega arith)
      ((λ e. cc), ((λ e. cc), tt)) (λ e. cc) refl (omega arith)

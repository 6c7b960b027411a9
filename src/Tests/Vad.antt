-- ===== src/Tests/Vad.antt =====
-- The voice-activity detector of crates/impossible-voice-audio/src/lib.rs over short rows of frames.
use impossible_voice.Prelude.{◌+◌, ◌≡◌, ◌≤◌, refl, true, false, [], ◌∷◌, arith, inl}
use impossible_voice.Audio.Fixed.{Fixed}
use impossible_voice.Audio.Vad.{EnergyVad, VadConfig, none, started, ended, samples_for, advance}
use impossible_voice.Audio.Vad.Utterance.{
  IsCounting, advance-IsCounting, run, Ends, Alternates, silent, run-Ends, run-silent-Ends,
  run-Alternates,
}

-- 160 samples open an utterance, 320 of silence close it, and it is closed at 1600 in any case.
abbrev config : VadConfig Fixed
config = record {
  rms_threshold = record { negative = false; magnitude = 491 };
  min_speech_ms = 10;
  trailing_silence_ms = 20;
  max_utterance_ms = 100;
}

abbrev quiet : EnergyVad Fixed
quiet = record {
  config = config;
  sample_rate = 16_000;
  speech_run = 0;
  silence_run = 0;
  utterance_samples = 0;
  active = false;
}

abbrev speaking : EnergyVad Fixed
speaking = record quiet { speech_run = 160; utterance_samples = 160; active = true }

spoken :
    run quiet ((true, 100) ∷ (true, 100) ∷ (false, 200) ∷ (false, 200) ∷ (false, 200) ∷ [])
    ≡ none ∷ started ∷ none ∷ ended ∷ none ∷ []
unfolding run advance samples_for
spoken = refl

quiet-IsCounting : IsCounting quiet
unfolding samples_for
quiet-IsCounting = record {
  idle = λ _. (refl, refl, omega arith);
  open_silence = λ e. cc;
  one_run = inl refl;
  min_speech = omega arith;
  trailing = omega arith;
}

advance-IsCounting_example : IsCounting (advance quiet true 100).0
advance-IsCounting_example = advance-IsCounting quiet true 100 quiet-IsCounting

limits : (samples_for speaking 100 ≤ 160 + 1600) × (samples_for speaking 20 ≤ 0 + 320)
unfolding samples_for
limits = omega arith

run-Ends_example : Ends (run speaking ((true, 800) ∷ (true, 800) ∷ []))
unfolding samples_for
run-Ends_example = run-Ends speaking true 800 ((true, 800) ∷ []) refl (omega arith)

run-silent-Ends_example : Ends (run speaking (silent (160 ∷ 160 ∷ [])))
unfolding samples_for
run-silent-Ends_example = run-silent-Ends speaking 160 (160 ∷ []) refl (omega arith)

run-Alternates_example : Alternates false (run quiet ((true, 200) ∷ (false, 400) ∷ []))
run-Alternates_example = run-Alternates ((true, 200) ∷ (false, 400) ∷ []) quiet

-- ===== src/Tests/Engines.antt =====
-- The limiter and the synthesis engine at concrete inputs.
use impossible_voice.Prelude.{
  ℕ, ◌+◌, ◌≡◌, ◌≢◌, ◌≤◌, ◌<◌, ◌⊎◌, refl, false, not, List, [], ◌∷◌, arith, none, some, any, length,
  concat, Pieces, ◌==◌, Result, ok, chunks,
}
use impossible_voice.Audio.Fixed.{Fixed, fixed}
use impossible_voice.Audio.Float.{valid_sample}
use impossible_voice.Audio.Admission.{validate_rate}
use impossible_voice.Audio.Pcm.{new_pcm}
use impossible_voice.Request.{calm}
use impossible_voice.Request.Limiter.{
  Limiter, new_limiter, acquire, acquires, here, next, limiter_bounds,
}
use impossible_voice.Tts.{
  TtsError, Texts, Synthesis, GeneratedAudio, default_tts_limits, input_is_invalid, ensure_active,
  generate, synthesize, transport_chunks, label_chunks,
}
use impossible_voice.Tts.Chunking.{bodies, LastIsFinal, transport_chunks_lem}
use impossible_voice.Tts.Synthesize.{synthesize-eq-ok}

one_out : acquire (new_limiter 1) ≡ some (record { active = 1; maximum = 1 })
unfolding acquire new_limiter
one_out = refl

abbrev full : Limiter
full = record { active = 1; maximum = 1 }

limiter_bounds_example :
    (1 ≤ 1)
    × (1 ≡ full.active)
    × (((1 < 1) × (acquire full ≡ some (record { active = 1 + 1; maximum = 1 })))
        ⊎ ((full.active ≡ 1) × (acquire full ≡ none)))
limiter_bounds_example = limiter_bounds (omega arith) (next here (acquires _ full 0 one_out))

abbrev level : ℕ → Fixed
level n = record { negative = false; magnitude = n }

abbrev speech : Synthesis Fixed
speech = record {
  audio = record { sample_rate = 16_000; samples = level 1 ∷ level 2 ∷ level 3 ∷ [] };
  max_chunk_samples = 2;
}

cut : bodies (transport_chunks speech) ≡ (level 1 ∷ level 2 ∷ []) ∷ ((level 3 ∷ []) ∷ [])
unfolding transport_chunks label_chunks chunks
cut = refl

transport_chunks_lem_example :
    (concat (bodies (transport_chunks speech)) ≡ speech.audio.samples)
    × Pieces 2 (bodies (transport_chunks speech))
    × LastIsFinal (transport_chunks speech)
transport_chunks_lem_example = transport_chunks_lem speech (omega arith)

-- Texts by their bytes; blank ones are those of spaces alone.
abbrev bytes : Texts
bytes = record {
  Text = List ℕ;
  trim_is_empty = λ t. not (any (λ b. not (b == b' ')) t);
  byte_len = length;
  contains_nul = any (λ b. b == 0);
}

abbrev echo : List ℕ → Fixed → ℕ → Result TtsError (GeneratedAudio Fixed)
echo text speed most = ok (record { sample_rate = 16_000; samples = level 1 ∷ [] })

abbrev spoken : Synthesis Fixed
spoken = record {
  audio = record { sample_rate = 16_000; samples = level 1 ∷ [] };
  max_chunk_samples = 22_050;
}

synthesized :
    (synthesize fixed bytes echo default_tts_limits
      (new_limiter 1)
      calm
      calm
      (104 ∷ [])
      fixed.one).1
    ≡ ok spoken
unfolding synthesize input_is_invalid generate acquire new_limiter new_pcm validate_rate
    ensure_active
synthesized = refl

synthesize-eq-ok_example :
    (input_is_invalid fixed bytes default_tts_limits (104 ∷ []) fixed.one ≡ false)
    × (calm.is_cancelled ≡ false)
    × (calm.is_expired ≡ false)
    × (calm.is_cancelled ≡ false)
    × (calm.is_expired ≡ false)
    × ((new_limiter 1).active < (new_limiter 1).maximum)
    × (spoken.audio.samples ≢ [])
    × (length spoken.audio.samples ≤ default_tts_limits.max_output_samples)
    × (any (λ x. not (valid_sample fixed x)) spoken.audio.samples ≡ false)
    × (spoken.max_chunk_samples ≡ default_tts_limits.max_chunk_samples)
synthesize-eq-ok_example =
    synthesize-eq-ok fixed bytes echo default_tts_limits (new_limiter 1) calm calm (104 ∷ [])
      fixed.one spoken synthesized

-- ===== src/Audio/Pcm/RoundTrip.antt =====
-- Raw PCM16 of crates/impossible-voice-audio/src/lib.rs: `from_pcm16_le` against `to_pcm16_le`.
use impossible_voice.Prelude.{
  zero, suc, some_injective, suc, ◌+◌, some, ◌*◌, get_elem?, ℕ, ◌/◌, ◌%◌, ◌<◌, ◌≡◌, refl, sym, ap₂,
  inl, inr, false, not, List, [], ◌∷◌, arith, Bool-cases, length, any, ok,
}
use impossible_voice.Prelude.Word.{from_le2}
use impossible_voice.Audio.Float.{Floats, ExactI16, valid_sample, decode_sample}
use impossible_voice.Audio.Admission.{AudioLimits}
use impossible_voice.Audio.Pcm.{
  MonoPcm, new_pcm, decode_pairs, from_pcm16_le, float_to_i16, encode_samples, to_pcm16_le,
}

-- Every number of the list is a byte.
abbrev pub AllBytes : List ℕ → Type 0
AllBytes [] = Unit
AllBytes (b ∷ bs) = (b < 256) × AllBytes bs

decode_pairs-at :
    (fl : Floats) (bytes : List ℕ) (i low high : ℕ)
    → get_elem? bytes (2 * i) ≡ some low
    → get_elem? bytes (2 * i + 1) ≡ some high
    → get_elem? (decode_pairs fl bytes) i ≡ some (decode_sample fl (low + 256 * high))
unfolding decode_pairs
decode_pairs-at fl [] i low high e e' = cc
decode_pairs-at fl (b ∷ []) zero low high e e' = cc
decode_pairs-at fl (b ∷ []) (suc i) low high e e' =
    let same : 2 * suc i ≡ suc (suc (2 * i)) = omega arith in let clash = rw same at e in cc
decode_pairs-at fl (b ∷ (c ∷ rest)) zero low high e e' =
    ap₂ (λ x y. some (decode_sample fl (x + 256 * y))) (some_injective e) (some_injective e')
decode_pairs-at fl (b ∷ (c ∷ rest)) (suc i) low high e e' =
    let same : 2 * suc i ≡ suc (suc (2 * i)) = omega arith in
    let same' : 2 * suc i + 1 ≡ suc (suc (2 * i + 1)) = omega arith in
    decode_pairs-at fl rest i low high (rw same at e) (rw same' at e')

length-decode_pairs :
    (fl : Floats) (bytes : List ℕ) → length (decode_pairs fl bytes) ≡ length bytes / 2
unfolding decode_pairs
length-decode_pairs fl [] = refl
length-decode_pairs fl (b ∷ []) = refl
length-decode_pairs fl (b ∷ (c ∷ rest)) = omega (arith, length-decode_pairs fl rest)

-- What `from_pcm16_le` accepts of bytes has a sample for every two of them, and none besides: if
-- `low` and `high` are the bytes 2i and 2i + 1, then the i-th sample is the 16-bit pattern
-- low + 256 high divided by the scale.
pub from_pcm16_le-at :
    (fl : Floats) (bytes : List ℕ) (rate : ℕ) (limits : AudioLimits) (p : MonoPcm fl.F32)
    (i low high : ℕ)
    → from_pcm16_le fl bytes rate limits ≡ ok p
    → get_elem? bytes (2 * i) ≡ some low
    → get_elem? bytes (2 * i + 1) ≡ some high
    → (2 * length p.samples ≡ length bytes)
      × (get_elem? p.samples i ≡ some (fl.div (fl.of_i16 (low + 256 * high)) fl.scale))
unfolding from_pcm16_le new_pcm
from_pcm16_le-at fl bytes rate limits p i low high h e e' =
    let at = decode_pairs-at fl bytes i low high e e' in
    let count = length-decode_pairs fl bytes in ground arith

module _ (fl : Floats) (ex : ExactI16 fl) where
  open fl use {F32}

  -- Decoding and encoding again gives every 16-bit pattern back.
  pub float_to_i16-decode_sample : (w : ℕ) → w < 65_536 → float_to_i16 fl (decode_sample fl w) ≡ w
  unfolding float_to_i16
  float_to_i16-decode_sample w h = elim (Bool-cases (fl.le (decode_sample fl w) fl.minus_one)) [
    | inl e ↦ rw e (sym (ex.at_most_minus_one w h e))
    | inr e ↦
        rw (e, ex.clamp_sample w h, ex.mul-div w h, ex.round_whole w h, ex.clamp_whole w h)
          (ex.to_i16-of_i16 w h)
  ]

  encode_samples-decode_pairs :
      (bytes : List ℕ)
      → AllBytes bytes
      → length bytes % 2 ≡ 0
      → encode_samples fl (decode_pairs fl bytes) ≡ bytes
  unfolding encode_samples decode_pairs
  encode_samples-decode_pairs [] b e = refl
  encode_samples-decode_pairs (low ∷ []) b e = absurd (omega arith)
  encode_samples-decode_pairs (low ∷ (high ∷ rest)) (bl, (bh, br)) e =
      rw
        (
          float_to_i16-decode_sample (from_le2 low high) (omega arith),
          encode_samples-decode_pairs rest br (omega arith),
        )
        (ap₂ (λ x y. x ∷ y ∷ rest) (omega arith) (omega arith))

  decode_pairs_valid :
      (bytes : List ℕ)
      → AllBytes bytes
      → any (λ s. not (valid_sample fl s)) (decode_pairs fl bytes) ≡ false
  unfolding decode_pairs
  decode_pairs_valid [] b = refl
  decode_pairs_valid (low ∷ []) b = refl
  decode_pairs_valid (low ∷ (high ∷ rest)) (bl, (bh, br)) =
      rw (ex.decode_valid (from_le2 low high) (omega arith)) (decode_pairs_valid rest br)

  -- With floats that hold 16-bit samples exactly, what `from_pcm16_le` accepts of bytes is encoded by
  -- `to_pcm16_le` into the same bytes, at the same rate.
  pub to_pcm16_le-from_pcm16_le :
      (bytes : List ℕ) (rate : ℕ) (limits : AudioLimits) {p : MonoPcm F32}
      → AllBytes bytes
      → from_pcm16_le fl bytes rate limits ≡ ok p
      → (to_pcm16_le fl p ≡ bytes) × (p.sample_rate ≡ rate)
  unfolding from_pcm16_le new_pcm to_pcm16_le
  to_pcm16_le-from_pcm16_le bytes rate limits b h =
      ground (arith, encode_samples-decode_pairs bytes b)

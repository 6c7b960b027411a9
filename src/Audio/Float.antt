-- ===== src/Audio/Float.antt =====
-- The floating-point operations that crates/impossible-voice-audio/src/lib.rs takes from the
-- language and its core library. `f32` and `f64` are parameters: a type each, with the operations
-- that the code calls.
use impossible_voice.Prelude.{ℕ, ◌<◌, ◌≡◌, Bool, true, ◌&&◌}

pub record Floats : Type 1 where
  pub F32 : Type 0
  pub F64 : Type 0
  -- The literals -1.0, 0.0, 0.5, 1.0, 2.0 and 32_768.0.
  pub minus_one : F32
  pub zero : F32
  pub half : F32
  pub one : F32
  pub two : F32
  pub scale : F32
  pub is_finite : F32 → Bool
  -- `a <= b`, false where one is not a number.
  pub le : F32 → F32 → Bool
  pub add : F32 → F32 → F32
  pub sub : F32 → F32 → F32
  pub mul : F32 → F32 → F32
  pub div : F32 → F32 → F32
  pub clamp : F32 → F32 → F32 → F32
  pub round : F32 → F32
  -- `f32::from` of an i16, given by its bit pattern, and of a u16.
  pub of_i16 : ℕ → F32
  pub of_u16 : ℕ → F32
  -- `as i16`, as a bit pattern.
  pub to_i16 : F32 → ℕ
  -- `f64::from`, of an f32 and of a u32, and the value that an empty sum has.
  pub widen : F32 → F64
  pub of_u32 : ℕ → F64
  pub zero64 : F64
  pub add64 : F64 → F64 → F64
  pub mul64 : F64 → F64 → F64
  pub div64 : F64 → F64 → F64
  pub sqrt64 : F64 → F64
  pub le64 : F64 → F64 → Bool

-- What `MonoPcm::new` and `StreamingResampler::push` admit as a sample.
abbrev pub valid_sample : (fl : Floats) → fl.F32 → Bool
valid_sample fl s = fl.is_finite s && (fl.le fl.minus_one s && fl.le s fl.one)

-- `f32::from(i16::from_le_bytes([low, high])) / 32_768.0`
abbrev pub decode_sample : (fl : Floats) → ℕ → fl.F32
decode_sample fl w = fl.div (fl.of_i16 w) fl.scale

-- Facts of IEEE 754 binary32 about the 65536 values of an i16: each is a float, and scaling one by
-- a power of two is exact both ways. So a decoded sample lies within -1 and 1, and is -1 only at
-- i16::MIN; a whole number rounds to itself, and `clamp` leaves a number within its bounds alone.
pub record ExactI16 (fl : Floats) : Type 0 where
  pub decode_valid : (w : ℕ) → w < 65_536 → valid_sample fl (decode_sample fl w) ≡ true
  pub at_most_minus_one :
      (w : ℕ) → w < 65_536 → fl.le (decode_sample fl w) fl.minus_one ≡ true → w ≡ 32_768
  pub clamp_sample :
      (w : ℕ) → w < 65_536 → fl.clamp (decode_sample fl w) fl.minus_one fl.one ≡ decode_sample fl w
  pub mul-div : (w : ℕ) → w < 65_536 → fl.mul (decode_sample fl w) fl.scale ≡ fl.of_i16 w
  pub round_whole : (w : ℕ) → w < 65_536 → fl.round (fl.of_i16 w) ≡ fl.of_i16 w
  pub clamp_whole :
      (w : ℕ)
      → w < 65_536
      → fl.clamp (fl.of_i16 w) (fl.of_i16 32_768) (fl.of_i16 32_767) ≡ fl.of_i16 w
  pub to_i16-of_i16 : (w : ℕ) → w < 65_536 → fl.to_i16 (fl.of_i16 w) ≡ w

-- Interpolation at fraction zero: 0 / t is zero, the difference of two samples is finite, so the
-- product is a zero, and adding a zero leaves the left sample as it is. (The zeros of the two signs
-- count as one number here.)
pub record ZeroFraction (fl : Floats) : Type 0 where
  pub zero_fraction :
      (a b : fl.F32) (t : ℕ)
      → 0 < t
      → t < 65_536
      → valid_sample fl a ≡ true
      → valid_sample fl b ≡ true
      → fl.add a (fl.mul (fl.sub b a) (fl.div (fl.of_u16 0) (fl.of_u16 t))) ≡ a

-- ===== src/Audio/Fixed.antt =====
-- Fixed-point numbers with 15 binary places that can stand for `f32` where a concrete run needs
-- some: every fact that the proofs ask of floating-point numbers holds of them.
use impossible_voice.Prelude.{
  ℕ, ◌+◌, ◌-◌, ◌*◌, ◌/◌, ◌%◌, ◌<◌, ◌≡◌, Bool, true, false, not, ◌&&◌, arith, ltb, leb, ◌==◌,
  if◌then◌else◌,
}
use impossible_voice.Audio.Float.{Floats, valid_sample, decode_sample, ExactI16, ZeroFraction}

pub record Fixed : Type 0 where
  pub negative : Bool
  pub magnitude : ℕ

abbrev pub fixed_le : Fixed → Fixed → Bool
fixed_le a b =
    if a.negative
    then (if b.negative then leb b.magnitude a.magnitude else true)
    else (if b.negative then a.magnitude == 0 && b.magnitude == 0 else leb a.magnitude b.magnitude)

abbrev xor : Bool → Bool → Bool
xor true b = not b
xor false b = b

abbrev fixed_add : Fixed → Fixed → Fixed
fixed_add a b =
    if not (xor a.negative b.negative)
    then record { negative = a.negative; magnitude = a.magnitude + b.magnitude }
    else if leb b.magnitude a.magnitude
    then record { negative = a.negative; magnitude = a.magnitude - b.magnitude }
    else record { negative = b.negative; magnitude = b.magnitude - a.magnitude }

abbrev fixed_neg : Fixed → Fixed
fixed_neg a = record { negative = not a.negative; magnitude = a.magnitude }

abbrev fixed_mul : Fixed → Fixed → Fixed
fixed_mul a b = record {
  negative = xor a.negative b.negative;
  magnitude = a.magnitude * b.magnitude / 32_768;
}

abbrev fixed_div : Fixed → Fixed → Fixed
fixed_div a b = record {
  negative = xor a.negative b.negative;
  magnitude = a.magnitude * 32_768 / b.magnitude;
}

abbrev whole : ℕ → Fixed
whole n = record { negative = false; magnitude = n * 32_768 }

abbrev fixed_clamp : Fixed → Fixed → Fixed → Fixed
fixed_clamp x lo hi = if not (fixed_le lo x) then lo else if not (fixed_le x hi) then hi else x

abbrev fixed_of_i16 : ℕ → Fixed
fixed_of_i16 w =
    if ltb w 32_768 then whole w else record { negative = true; magnitude = (65_536 - w) * 32_768 }

abbrev fixed_round : Fixed → Fixed
fixed_round x = record {
  negative = x.negative;
  magnitude = (x.magnitude + 16_384) / 32_768 * 32_768;
}

abbrev fixed_to_i16 : Fixed → ℕ
fixed_to_i16 x =
    if x.negative then (65_536 - x.magnitude / 32_768) % 65_536 else x.magnitude / 32_768

abbrev pub fixed : Floats
fixed = record {
  F32 = Fixed;
  F64 = Fixed;
  minus_one = record { negative = true; magnitude = 32_768 };
  zero = whole 0;
  half = record { negative = false; magnitude = 16_384 };
  one = whole 1;
  two = whole 2;
  scale = whole 32_768;
  is_finite = λ x. true;
  le = fixed_le;
  add = fixed_add;
  sub = λ a b. fixed_add a (fixed_neg b);
  mul = fixed_mul;
  div = fixed_div;
  clamp = fixed_clamp;
  round = fixed_round;
  of_i16 = fixed_of_i16;
  of_u16 = whole;
  to_i16 = fixed_to_i16;
  widen = λ x. x;
  of_u32 = whole;
  zero64 = whole 0;
  add64 = fixed_add;
  mul64 = fixed_mul;
  div64 = fixed_div;
  sqrt64 = λ x. x;
  le64 = fixed_le;
}

decode_valid : (w : ℕ) → w < 65_536 → valid_sample fixed (decode_sample fixed w) ≡ true
decode_valid w h = ground arith

at_most_minus_one :
    (w : ℕ) → w < 65_536 → fixed_le (decode_sample fixed w) fixed.minus_one ≡ true → w ≡ 32_768
at_most_minus_one w h e = ground arith

clamp_sample :
    (w : ℕ)
    → w < 65_536
    → fixed_clamp (decode_sample fixed w) fixed.minus_one fixed.one ≡ decode_sample fixed w
clamp_sample w h = ground arith

mul-div : (w : ℕ) → w < 65_536 → fixed_mul (decode_sample fixed w) (whole 32_768) ≡ fixed_of_i16 w
mul-div w h = ground arith

round_whole : (w : ℕ) → w < 65_536 → fixed_round (fixed_of_i16 w) ≡ fixed_of_i16 w
round_whole w h = ground arith

clamp_whole :
    (w : ℕ)
    → w < 65_536
    → fixed_clamp (fixed_of_i16 w) (fixed_of_i16 32_768) (fixed_of_i16 32_767) ≡ fixed_of_i16 w
clamp_whole w h = ground arith

to_i16-of_i16 : (w : ℕ) → w < 65_536 → fixed_to_i16 (fixed_of_i16 w) ≡ w
to_i16-of_i16 w h = ground arith

pub fixed-ExactI16 : ExactI16 fixed
fixed-ExactI16 = record {
  decode_valid = decode_valid;
  at_most_minus_one = at_most_minus_one;
  clamp_sample = clamp_sample;
  mul-div = mul-div;
  round_whole = round_whole;
  clamp_whole = clamp_whole;
  to_i16-of_i16 = to_i16-of_i16;
}

zero_fraction :
    (a b : Fixed) (t : ℕ)
    → 0 < t
    → fixed_add a (fixed_mul (fixed_add b (fixed_neg a)) (fixed_div (whole 0) (whole t))) ≡ a
zero_fraction a b t h = ground arith

pub fixed-ZeroFraction : ZeroFraction fixed
fixed-ZeroFraction = record { zero_fraction = λ a b t h _ _ _. zero_fraction a b t h }

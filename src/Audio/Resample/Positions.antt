-- ===== src/Audio/Resample/Positions.antt =====
-- The positions that the resampling loops of crates/impossible-voice-audio/src/lib.rs read: no
-- round leaves the input, and a longer input changes no output that was there before.
use impossible_voice.Prelude.{ℕ, suc, ◌+◌, ◌*◌, ◌/◌, ◌%◌, ◌≤◌, ◌<◌, ◌≡◌, arith}

-- Output `i` lies within an input whose last sample is `last`.
abbrev pub Within : ℕ → ℕ → ℕ → ℕ → Type 0
Within last source target i = i * source ≤ last * target

pub position-le-last : (a b t : ℕ) → 0 < t → a ≤ b * t → a / t ≤ b
position-le-last a b t p h = grind arith

pub at-last : (a b t : ℕ) → 0 < t → a ≤ b * t → b ≤ a / t → a % t ≡ 0
at-last a b t p h k = grind arith

pub Within-lt-count :
    (last source target i : ℕ)
    → 0 < source
    → i < last * target / source + 1
    → Within last source target i
Within-lt-count last source target i p h = grind arith

pub product_fits : (a last t m : ℕ) → a ≤ last * t → t < 65_536 → suc last * 65_536 < m → a < m
product_fits a last t m h k l = let p : last * t ≤ last * 65_536 = grind arith in omega arith

pub mod-lt_of_pos : (a t : ℕ) → 0 < t → a % t < t
mod-lt_of_pos a t p = omega arith

pub Within-mono :
    (last last' source target i : ℕ)
    → last ≤ last'
    → Within last source target i
    → Within last' source target i
Within-mono last last' source target i h w =
    let p : last * target ≤ last' * target = grind arith in omega arith

-- The number of output samples up to the input sample `last`.
abbrev pub count_to : ℕ → ℕ → ℕ → ℕ
count_to source target last = last * target / source + 1

pub count_to_mono :
    (source target last last' : ℕ)
    → 0 < source
    → last ≤ last'
    → count_to source target last ≤ count_to source target last'
count_to_mono source target last last' p h =
    let m : last * target ≤ last' * target = grind arith in grind arith

pub count_to_fits :
    (source target last m : ℕ)
    → 0 < source
    → target < 65_536
    → suc last * 65_536 < m
    → (last * target < m) × (count_to source target last < m)
count_to_fits source target last m p t h =
    let k : last * target ≤ last * 65_536 = grind arith in
    let q : last * target / source ≤ last * target = grind arith in (omega arith, omega arith)

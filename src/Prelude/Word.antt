-- ===== src/Prelude/Word.antt =====
-- Machine words: `usize` and `u64` are 64 bits wide on the two supported platforms (x86_64).
-- A word is its value, a byte is a number below 256, and an `i16` is its 16-bit pattern.
use Prim.Native.Nat.{ℕ, ◌+◌, ◌-◌, ◌*◌, ◌/◌, ◌%◌, ◌^◌, ◌<◌, min}
use mathlib.Core.Path.{◌≡◌}
use mathlib.Core.List.{List, [], ◌∷◌}
use mathlib.Core.Option.{Option, none, some}
use native.Mathlib.Omega.{arith}
use impossible_voice.Prelude.Tests.{ltb, if◌then◌else◌}

abbrev pub u64_mod : ℕ
u64_mod = 2 ^ 64

abbrev pub u32_mod : ℕ
u32_mod = 2 ^ 32

-- The value where it is below the modulus: `try_from`, and the checked operations.
abbrev pub fits : ℕ → ℕ → Option ℕ
fits m n = if ltb n m then some n else none

abbrev pub checked_add : ℕ → ℕ → ℕ → Option ℕ
checked_add m a b = fits m (a + b)

abbrev pub checked_mul : ℕ → ℕ → ℕ → Option ℕ
checked_mul m a b = fits m (a * b)

abbrev pub saturating_add : ℕ → ℕ → ℕ → ℕ
saturating_add m a b = min (a + b) (m - 1)

abbrev pub saturating_mul : ℕ → ℕ → ℕ → ℕ
saturating_mul m a b = min (a * b) (m - 1)

-- `u16::to_le_bytes` and `u32::to_le_bytes`.
abbrev pub u16_le : ℕ → List ℕ
u16_le n = (n % 256) ∷ (n / 256 % 256) ∷ []

abbrev pub u32_le : ℕ → List ℕ
u32_le n = (n % 256) ∷ (n / 256 % 256) ∷ (n / 65_536 % 256) ∷ (n / 16_777_216 % 256) ∷ []

-- `from_le_bytes`.
abbrev pub from_le2 : ℕ → ℕ → ℕ
from_le2 a b = a + 256 * b

abbrev pub from_le4 : ℕ → ℕ → ℕ → ℕ → ℕ
from_le4 a b c d = a + 256 * b + 65_536 * c + 16_777_216 * d

pub from_le4-u32_le :
    (n : ℕ)
    → n < u32_mod
    → from_le4 (n % 256) (n / 256 % 256) (n / 65_536 % 256) (n / 16_777_216 % 256) ≡ n
from_le4-u32_le n h = omega arith

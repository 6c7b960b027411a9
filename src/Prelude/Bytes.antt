-- ===== src/Prelude/Bytes.antt =====
-- Text and file contents as their bytes.
use Prim.Native.Nat.{ℕ, ◌+◌, ◌-◌, ◌/◌, ◌%◌}
use Prim.Native.Char.{code}
use Prim.Native.String.{String}
use mathlib.Core.Path.{◌≡◌, refl}
use mathlib.Core.Bool.{Bool, true, false, not, ◌&&◌, ◌||◌}
use mathlib.Core.List.{List, [], ◌∷◌, ◌++◌, map}
use native.Mathlib.Omega.{arith}
use impossible_voice.Prelude.Tests.{◌==◌, ltb, leb, if◌then◌else◌}

abbrev pub Bytes : Type 0
Bytes = List ℕ

-- The bytes of an ASCII text.
abbrev pub ascii : String → Bytes
ascii String.[] = []
ascii (String.◌∷◌ c s) = code c ∷ ascii s

abbrev pub bytes_eq : Bytes → Bytes → Bool
bytes_eq [] [] = true
bytes_eq (x ∷ xs) (y ∷ ys) = x == y && bytes_eq xs ys
bytes_eq _ _ = false

pub eq_of_bytes_eq : (a b : Bytes) → bytes_eq a b ≡ true → a ≡ b
eq_of_bytes_eq [] [] h = refl
eq_of_bytes_eq [] (y ∷ ys) h = cc
eq_of_bytes_eq (x ∷ xs) [] h = cc
eq_of_bytes_eq (x ∷ xs) (y ∷ ys) h = ground (arith, eq_of_bytes_eq xs ys)

pub bytes_eq_refl : (a : Bytes) → bytes_eq a a ≡ true
bytes_eq_refl [] = refl
bytes_eq_refl (x ∷ xs) = ground (arith, bytes_eq_refl xs)

-- A `HashSet` of texts, as a list.
abbrev pub contains_bytes : Bytes → List Bytes → Bool
contains_bytes a [] = false
contains_bytes a (b ∷ bs) = bytes_eq a b || contains_bytes a bs

pub contains_bytes-append :
    (a : Bytes) (xs ys : List Bytes)
    → contains_bytes a (xs ++ ys) ≡ (contains_bytes a xs || contains_bytes a ys)
contains_bytes-append a [] ys = refl
contains_bytes-append a (x ∷ xs) ys = ground (arith, contains_bytes-append a xs ys)

-- No text stands twice.
abbrev pub all_distinct : List Bytes → Bool
all_distinct [] = true
all_distinct (a ∷ bs) = not (contains_bytes a bs) && all_distinct bs

-- The order of `cmp`.
abbrev pub bytes_leb : Bytes → Bytes → Bool
bytes_leb [] ys = true
bytes_leb (x ∷ xs) [] = false
bytes_leb (x ∷ xs) (y ∷ ys) = ltb x y || (x == y && bytes_leb xs ys)

-- `to_ascii_lowercase`.
abbrev pub lower_byte : ℕ → ℕ
lower_byte b = if leb b'A' b && leb b b'Z' then b + 32 else b

abbrev pub to_ascii_lowercase : Bytes → Bytes
to_ascii_lowercase = map lower_byte

abbrev pub is_ascii_digit : ℕ → Bool
is_ascii_digit b = leb b'0' b && leb b b'9'

abbrev pub is_ascii_alphanumeric : ℕ → Bool
is_ascii_alphanumeric b =
    is_ascii_digit b || (leb b'A' b && leb b b'Z') || (leb b'a' b && leb b b'z')

abbrev pub is_ascii_hexdigit : ℕ → Bool
is_ascii_hexdigit b = is_ascii_digit b || (leb b'A' b && leb b b'F') || (leb b'a' b && leb b b'f')

-- `hex_digest`: two lower-case digits for each byte.
abbrev hex_digit : ℕ → ℕ
hex_digit n = if ltb n 10 then b'0' + n else b'a' + n - 10

unfoldable pub hex_digest : Bytes → Bytes
hex_digest [] = []
hex_digest (b ∷ bs) = hex_digit (b / 16) ∷ hex_digit (b % 16) ∷ hex_digest bs

hex_example : hex_digest (0 ∷ 171 ∷ 255 ∷ []) ≡ ascii "00abff"
unfolding hex_digest
hex_example = refl

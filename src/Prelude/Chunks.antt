-- ===== src/Prelude/Chunks.antt =====
-- `slice::chunks` and `usize::div_ceil`, which the transports use to cut audio into pieces.
use Prim.Native.Nat.{ℕ, zero, suc, ◌+◌, ◌-◌, ◌/◌, ◌%◌, ◌≤◌, ◌<◌}
use mathlib.Core.Path.{◌≡◌, refl, ap, ◌∙◌, sym}
use mathlib.Core.List.{List, [], ◌∷◌, ◌++◌}
use native.Mathlib.Omega.{arith}
use native.Mathlib.Nat.{
  mod-eq-sub-mod, div-eq-sub-div, div-eq_of_lt, mod-eq_of_lt, zero-mod, zero-div,
}
use native.Mathlib.Decide.{dec_lt}
use impossible_voice.Prelude.Tests.{◌==◌, if◌then◌else◌}
use impossible_voice.Prelude.Lists.{length, take, drop, concat, take-append-drop, length-drop}

unfoldable pub div_ceil : ℕ → ℕ → ℕ
div_ceil a n = if a % n == 0 then a / n else a / n + 1

pub div_ceil-zero : (n : ℕ) → 0 < n → div_ceil 0 n ≡ 0
unfolding div_ceil
div_ceil-zero n h = ground arith

-- One more than for what is left behind the first `n`; a length up to `n` leaves nothing.
pub div_ceil-sub : (a n : ℕ) → 0 < n → 0 < a → div_ceil a n ≡ suc (div_ceil (a - n) n)
unfolding div_ceil
div_ceil-sub a n h p = elim (dec_lt a n) [
  | yes below ↦
      let nothing : a - n ≡ 0 = omega arith in
      rw (nothing, div-eq_of_lt below, mod-eq_of_lt below, zero-mod n, zero-div n) (ground arith)
  | no above ↦
      let enough : n ≤ a = omega arith in
      rw (mod-eq-sub-mod enough, div-eq-sub-div h enough) (ground arith)
]

module _ {ℓ} {A : Type ℓ} where
  -- Fuel as long as the list is enough where `n` is not zero.
  chunks_from : ℕ → ℕ → List A → List (List A)
  chunks_from zero n xs = []
  chunks_from (suc fuel) n [] = []
  chunks_from (suc fuel) n (x ∷ xs) = take n (x ∷ xs) ∷ chunks_from fuel n (drop n (x ∷ xs))

  unfoldable pub chunks : ℕ → List A → List (List A)
  unfolding chunks_from
  chunks n xs = chunks_from (length xs) n xs

  drop_shorter : (n : ℕ) (x : A) (xs : List A) → 0 < n → length (drop n (x ∷ xs)) ≤ length xs
  drop_shorter n x xs h = omega (arith, length-drop n (x ∷ xs))

  concat-chunks_from :
      (fuel n : ℕ) (xs : List A) → 0 < n → length xs ≤ fuel → concat (chunks_from fuel n xs) ≡ xs
  unfolding chunks_from
  concat-chunks_from zero n [] h l = refl
  concat-chunks_from zero n (x ∷ xs) h l = elim l [ ]
  concat-chunks_from (suc fuel) n [] h l = refl
  concat-chunks_from (suc fuel) n (x ∷ xs) h l =
      ap (◌++◌ (take n (x ∷ xs)))
        (concat-chunks_from fuel n (drop n (x ∷ xs)) h (omega (arith, drop_shorter n x xs h)))
      ∙ take-append-drop n (x ∷ xs)

  -- The chunks in their order are the list.
  pub concat-chunks : (n : ℕ) (xs : List A) → 0 < n → concat (chunks n xs) ≡ xs
  unfolding chunks
  concat-chunks n xs h = concat-chunks_from (length xs) n xs h (omega arith)

  length-chunks_from :
      (fuel n : ℕ) (xs : List A)
      → 0 < n
      → length xs ≤ fuel
      → length (chunks_from fuel n xs) ≡ div_ceil (length xs) n
  unfolding chunks_from
  length-chunks_from zero n [] h l = sym (div_ceil-zero n h)
  length-chunks_from zero n (x ∷ xs) h l = elim l [ ]
  length-chunks_from (suc fuel) n [] h l = sym (div_ceil-zero n h)
  length-chunks_from (suc fuel) n (x ∷ xs) h l =
      ap suc (
        length-chunks_from fuel n (drop n (x ∷ xs)) h (omega (arith, drop_shorter n x xs h))
        ∙ ap (λ k. div_ceil k n) (length-drop n (x ∷ xs)))
      ∙ sym (div_ceil-sub (suc (length xs)) n h (omega arith))

  pub length-chunks : (n : ℕ) (xs : List A) → 0 < n → length (chunks n xs) ≡ div_ceil (length xs) n
  unfolding chunks
  length-chunks n xs h = length-chunks_from (length xs) n xs h (omega arith)

  -- Every piece has at least one element and at most `n`.
  abbrev pub Pieces : ℕ → List (List A) → Type 0
  Pieces n [] = Unit
  Pieces n (c ∷ cs) = (0 < length c) × (length c ≤ n) × Pieces n cs

  take_bounds :
      (n : ℕ) (x : A) (xs : List A)
      → 0 < n
      → (0 < length (take n (x ∷ xs))) × (length (take n (x ∷ xs)) ≤ n)
  take_bounds zero x xs h = elim h [ ]
  take_bounds (suc n) x xs h = (omega arith, length-take_le (suc n) (x ∷ xs))
    where
      length-take_le : (n : ℕ) (xs : List A) → length (take n xs) ≤ n
      length-take_le zero xs = omega arith
      length-take_le (suc n) [] = omega arith
      length-take_le (suc n) (x ∷ xs) = omega (arith, length-take_le n xs)

  chunks_from-Pieces : (fuel n : ℕ) (xs : List A) → 0 < n → Pieces n (chunks_from fuel n xs)
  unfolding chunks_from
  chunks_from-Pieces zero n xs h = tt
  chunks_from-Pieces (suc fuel) n [] h = tt
  chunks_from-Pieces (suc fuel) n (x ∷ xs) h =
      let (some, few) = take_bounds n x xs h in
      (some, few, chunks_from-Pieces fuel n (drop n (x ∷ xs)) h)

  pub chunks-Pieces : (n : ℕ) (xs : List A) → 0 < n → Pieces n (chunks n xs)
  unfolding chunks
  chunks-Pieces n xs h = chunks_from-Pieces (length xs) n xs h

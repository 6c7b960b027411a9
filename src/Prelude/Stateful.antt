-- ===== src/Prelude/Stateful.antt =====
-- Methods on `&mut self` that can fail: the new state is there beside an error too.
use mathlib.Core.Bool.{Bool, true, false}
use mathlib.Core.Path.{◌≡◌, refl}
use mathlib.Core.Logic.{◌⊎◌, inl, inr}
use impossible_voice.Prelude.Tests.{if◌then◌else◌}
use impossible_voice.Prelude.Outcome.{Result, ok, err}

abbrev pub Stateful {ℓ κ μ} : Type ℓ → Type κ → Type μ → Type (ℓ ⊔ κ ⊔ μ)
Stateful S E A = S → S × Result E A

abbrev pub continue_with {ℓ κ μ ν} :
    {S : Type ℓ} {E : Type κ} {A : Type μ} {B : Type ν}
    → S × Result E A
    → (A → Stateful S E B)
    → S × Result E B
continue_with (s, err failure) next = (s, err failure)
continue_with (s, ok value) next = next value s

infixl 5 ◌>>=◌ ◌>>◌
abbrev pub ◌>>=◌ {ℓ κ μ ν} :
    {S : Type ℓ} {E : Type κ} {A : Type μ} {B : Type ν}
    → Stateful S E A
    → (A → Stateful S E B)
    → Stateful S E B
(first >>= next) s = continue_with (first s) next

abbrev pub ◌>>◌ {ℓ κ ν} :
    {S : Type ℓ} {E : Type κ} {B : Type ν}
    → Stateful S E (Unit {0})
    → Stateful S E B
    → Stateful S E B
(first >> rest) s = continue_with (first s) (λ _. rest)

abbrev pub pure {ℓ κ μ} : {S : Type ℓ} {E : Type κ} {A : Type μ} → A → Stateful S E A
pure value s = (s, ok value)

abbrev pub modify {ℓ κ} : {S : Type ℓ} {E : Type κ} → (S → S) → Stateful S E (Unit {0})
modify f s = (f s, ok tt)

abbrev pub lift {ℓ κ μ} : {S : Type ℓ} {E : Type κ} {A : Type μ} → (S → Result E A) → Stateful S E A
lift f s = (s, f s)

-- A predicate on states that an operation keeps, whatever it returns.
abbrev pub Keeps {ℓ κ μ ν} :
    {S : Type ℓ} {E : Type κ} {A : Type μ} → (S → Type ν) → Stateful S E A → Type (ℓ ⊔ ν)
Keeps {S = S} P m = (s : S) → P s → P (m s).0

module _ {ℓ κ μ ν ξ} {S : Type ℓ} {E : Type κ} {A : Type μ} {B : Type ν} (P : S → Type ξ) where
  continue-Keeps :
      (f : A → Stateful S E B)
      → ((a : A) → Keeps P (f a))
      → (r : S × Result E A) → P r.0
      → P (continue_with r f).0
  continue-Keeps f next (s, err e) p = p
  continue-Keeps f next (s, ok a) p = next a s p

  pub bind-Keeps :
      (m : Stateful S E A) (f : A → Stateful S E B)
      → Keeps P m
      → ((a : A) → Keeps P (f a))
      → Keeps P (m >>= f)
  bind-Keeps m f keeps next s p = continue-Keeps f next (m s) (keeps s p)

pub then-Keeps {ℓ κ ν ξ} :
    {S : Type ℓ} {E : Type κ} {B : Type ν} (P : S → Type ξ) (m : Stateful S E (Unit {0}))
    (k : Stateful S E B)
    → Keeps P m
    → Keeps P k
    → Keeps P (m >> k)
then-Keeps P m k keeps next s p = continue-Keeps P (λ _. k) (λ _. next) (m s) (keeps s p)

-- An early return of an error.
abbrev pub fail_if {ℓ κ} : {S : Type ℓ} {E : Type κ} → (S → Bool) → E → Stateful S E (Unit {0})
fail_if test failure s = (s, if test s then err failure else ok tt)

-- Inversion of a run that succeeds.
pub continue_with-eq-ok {ℓ κ μ ν} :
    {S : Type ℓ} {E : Type κ} {A : Type μ} {B : Type ν} (r : S × Result E A)
    (f : A → Stateful S E B) {t : S} {y : B}
    → continue_with r f ≡ (t, ok y)
    → (s : S) × (x : A) × (r ≡ (s, ok x)) × (f x s ≡ (t, ok y))
continue_with-eq-ok (s, err e) f p = cc
continue_with-eq-ok (s, ok x) f p = (s, x, refl, p)

-- A run after a step that succeeds.
pub >>-eq-ok {ℓ κ ν} :
    {S : Type ℓ} {E : Type κ} {B : Type ν} (m : Stateful S E (Unit {0})) (k : Stateful S E B)
    (s : S) {t : S} {y : B}
    → (m >> k) s ≡ (t, ok y)
    → (s' : S) × (m s ≡ (s', ok tt)) × (k s' ≡ (t, ok y))
>>-eq-ok m k s p = let (s', x, q, r) = continue_with-eq-ok (m s) (λ _. k) p in (s', q, r)

pub if-Keeps {ℓ κ μ ν} :
    {S : Type ℓ} {E : Type κ} {A : Type μ} (P : S → Type ν) (b : Bool) (m n : Stateful S E A)
    → Keeps P m
    → Keeps P n
    → Keeps P (if b then m else n)
if-Keeps P true m n first second = first
if-Keeps P false m n first second = second

pub if-eq-ok {ℓ κ μ} :
    {S : Type ℓ} {E : Type κ} {A : Type μ} (b : Bool) (m n : Stateful S E A) (s : S) {t : S} {y : A}
    → (if b then m else n) s ≡ (t, ok y)
    → ((b ≡ true) × (m s ≡ (t, ok y))) ⊎ ((b ≡ false) × (n s ≡ (t, ok y)))
if-eq-ok true m n s p = inl (refl, p)
if-eq-ok false m n s p = inr (refl, p)

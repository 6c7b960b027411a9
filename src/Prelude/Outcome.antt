-- ===== src/Prelude/Outcome.antt =====
-- `Result` of Rust: `?` is `←` in a `do` block, and an early `return Err(..)` is `reject_if`.
use mathlib.Core.Path.{◌≡◌, refl, ap}
use mathlib.Core.Logic.{◌⊎◌, inl, inr}
use mathlib.Core.Bool.{Bool, true, false}
use mathlib.Core.Option.{Option, none, some}

pub data Result {ℓ κ} (E : Type ℓ) (A : Type κ) : Type (ℓ ⊔ κ) where
  ok : A → Result E A
  err : E → Result E A

infixl 5 ◌>>=◌ ◌>>◌
abbrev pub ◌>>=◌ {ℓ κ μ} :
    {E : Type ℓ} {A : Type κ} {B : Type μ} → Result E A → (A → Result E B) → Result E B
err failure >>= next = err failure
ok value >>= next = next value

-- Inversion of a successful bind.
pub >>=-eq-ok {ℓ κ μ} :
    {E : Type ℓ} {A : Type κ} {B : Type μ} (first : Result E A) (next : A → Result E B) {y : B}
    → (first >>= next) ≡ ok y
    → (x : A) × (first ≡ ok x) × (next x ≡ ok y)
>>=-eq-ok (err failure) next p = cc
>>=-eq-ok (ok value) next p = (value, refl, p)

abbrev pub ◌>>◌ {ℓ κ} : {E : Type ℓ} {B : Type κ} → Result E (Unit {0}) → Result E B → Result E B
err failure >> rest = err failure
ok _ >> rest = rest

abbrev pub reject_if {ℓ} : {E : Type ℓ} → Bool → E → Result E (Unit {0})
reject_if true failure = err failure
reject_if false failure = ok tt

abbrev pub ok_or {ℓ κ} : {E : Type ℓ} {A : Type κ} → Option A → E → Result E A
ok_or (some value) failure = ok value
ok_or none failure = err failure

abbrev pub map_err {ℓ κ μ} :
    {E : Type ℓ} {F : Type κ} {A : Type μ} → (E → F) → Result E A → Result F A
map_err f (err failure) = err (f failure)
map_err f (ok value) = ok value

-- What follows a step that is known to succeed.
pub >>=-then {ℓ κ μ ν} :
    {E : Type ℓ} {A : Type κ} {B : Type μ} {C : Type ν} (m : Result E A) (f : A → Result E B)
    (g : B → Result E C) {y : B}
    → (m >>= f) ≡ ok y
    → (m >>= λ x. f x >>= g) ≡ g y
>>=-then (err failure) f g p = cc
>>=-then (ok value) f g p = ap (λ r. r >>= g) p

pub >>-eq-ok {ℓ κ} :
    {E : Type ℓ} {B : Type κ} (first : Result E (Unit {0})) (rest : Result E B) {y : B}
    → (first >> rest) ≡ ok y
    → (first ≡ ok tt) × (rest ≡ ok y)
>>-eq-ok (err failure) rest p = cc
>>-eq-ok (ok done) rest p = (refl, p)

pub map_err-eq-ok {ℓ κ μ} :
    {E : Type ℓ} {F : Type κ} {A : Type μ} (f : E → F) (r : Result E A) {x : A}
    → map_err f r ≡ ok x
    → r ≡ ok x
map_err-eq-ok f (err failure) p = cc
map_err-eq-ok f (ok value) p = cc

pub ok_or-eq-ok {ℓ κ} :
    {E : Type ℓ} {A : Type κ} (value : Option A) (failure : E) {x : A}
    → ok_or value failure ≡ ok x
    → value ≡ some x
ok_or-eq-ok none failure p = cc
ok_or-eq-ok (some value) failure p = cc

pub ok_injective {ℓ κ} :
    {E : Type ℓ} {A : Type κ} {x y : A} → ◌≡◌ {A = Result E A} (ok x) (ok y) → x ≡ y
ok_injective p = cc

pub reject_if-eq-ok {ℓ} :
    {E : Type ℓ} (b : Bool) (failure : E) {u : Unit {0}} → reject_if b failure ≡ ok u → b ≡ false
reject_if-eq-ok true failure p = cc
reject_if-eq-ok false failure p = refl

pub Result-cases {ℓ κ} :
    {E : Type ℓ} {A : Type κ} (r : Result E A) → ((e : E) × (r ≡ err e)) ⊎ ((a : A) × (r ≡ ok a))
Result-cases (err e) = inl (e, refl)
Result-cases (ok a) = inr (a, refl)

pub some_injective {ℓ} : {A : Type ℓ} {x y : A} → ◌≡◌ {A = Option A} (some x) (some y) → x ≡ y
some_injective p = cc

pub some_ok_injective {ℓ κ} :
    {E : Type ℓ} {A : Type κ} {x y : A}
    → ◌≡◌ {A = Option (Result E A)} (some (ok x)) (some (ok y))
    → x ≡ y
some_ok_injective p = cc

-- ===== src/Common/Outcome.antt =====
-- Go's `(value, error)` results as values: exactly one of the two is there.
use mathlib.Core.Path.{◌≡◌, refl}
use mathlib.Core.Logic.{◌⊎◌, inl, inr}
use mathlib.Core.Bool.{Bool, true, false}

pub data Result {ℓ κ} (E : Type κ) (A : Type ℓ) : Type (ℓ ⊔ κ) where
  ok : A → Result E A
  err : E → Result E A

infixl 5 ◌>>=◌ ◌>>◌
abbrev pub ◌>>=◌ {ℓ κ ι} :
    {E : Type ι} {A : Type ℓ} {B : Type κ} → Result E A → (A → Result E B) → Result E B
ok a >>= f = f a
err e >>= f = err e

abbrev pub ◌>>◌ {ℓ ι} : {E : Type ι} {B : Type ℓ} → Result E (Unit {0}) → Result E B → Result E B
m >> k = m >>= λ _. k

-- `if test { return nil, e }`
abbrev pub fail_if {ι} : {E : Type ι} → Bool → E → Result E (Unit {0})
fail_if true e = err e
fail_if false e = ok tt

-- `if err != nil { return nil, g(err) }`
abbrev pub map_err {ℓ ι κ} :
    {E : Type ι} {F : Type κ} {A : Type ℓ} → (E → F) → Result E A → Result F A
map_err g (ok a) = ok a
map_err g (err e) = err (g e)

abbrev pub is_ok {ℓ ι} : {E : Type ι} {A : Type ℓ} → Result E A → Bool
is_ok (ok a) = true
is_ok (err e) = false

-- To split on a computed result and keep the equation.
pub Result-cases {ℓ ι} :
    {E : Type ι} {A : Type ℓ} (r : Result E A) → ((a : A) × (r ≡ ok a)) ⊎ ((e : E) × (r ≡ err e))
Result-cases (ok a) = inl (a, refl)
Result-cases (err e) = inr (e, refl)

abbrev pub ok_in {ℓ ι} : {A : Type ℓ} (E : Type ι) → A → Result E A
ok_in E a = ok a

-- A chain of steps that succeeds.
pub >>=-eq-ok {ℓ κ ι} :
    {E : Type ι} {A : Type ℓ} {B : Type κ} (first : Result E A) (then : A → Result E B) {last : B}
    → first >>= then ≡ ok last
    → (given : A) × (first ≡ ok given) × (then given ≡ ok last)
>>=-eq-ok (err failure) then done = cc
>>=-eq-ok (ok given) then done = (given, refl, done)

pub fail_if-eq-ok {ℓ ι} :
    {E : Type ι} {B : Type ℓ} (test : Bool) (e : E) (r : Result E B) {b : B}
    → (fail_if test e >> r) ≡ ok b
    → (test ≡ false) × (r ≡ ok b)
fail_if-eq-ok true e r h = cc
fail_if-eq-ok false e r h = (refl, h)

pub map_err-eq-ok {ℓ ι κ} :
    {E : Type ι} {F : Type κ} {A : Type ℓ} (g : E → F) (r : Result E A) {a : A}
    → map_err g r ≡ ok a
    → r ≡ ok a
map_err-eq-ok g (ok a) h = cc
map_err-eq-ok g (err e) h = cc

pub ok-inj {ℓ ι} : {E : Type ι} {A : Type ℓ} (a b : A) → ok_in E a ≡ ok_in E b → a ≡ b
ok-inj a b h = cc

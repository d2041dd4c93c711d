-- ===== src/Base/Results.antt =====
-- Results of code that may throw: `err e` stands for the exception `e`.
use mathlib.Core.Path.{◌≡◌, refl}
use mathlib.Core.Logic.{◌⊎◌, inl, inr}
use mathlib.Core.Bool.{Bool, true, false}
use mathlib.Core.Option.{Option, none, some}

pub data Result {ℓ} (E : Type 0) (A : Type ℓ) : Type ℓ where
  ok : A → Result E A
  err : E → Result E A

infixl 5 ◌>>=◌ ◌>>◌
abbrev pub ◌>>=◌ {ℓ κ} :
    {E : Type 0} {A : Type ℓ} {B : Type κ} → Result E A → (A → Result E B) → Result E B
ok a >>= f = f a
err e >>= f = err e

abbrev pub ◌>>◌ {ℓ} : {E : Type 0} {B : Type ℓ} → Result E (Unit {0}) → Result E B → Result E B
m >> k = m >>= λ _. k

-- `if (!b) throw e;`
abbrev pub require : {E : Type 0} → Bool → E → Result E (Unit {0})
require true e = ok tt
require false e = err e

-- What holds of the result, if there is one.
abbrev pub OnOk {ℓ κ} : {E : Type 0} {A : Type ℓ} → (A → Type κ) → Result E A → Type κ
OnOk P (ok a) = P a
OnOk P (err e) = Unit

-- A loop on fuel ends, and what holds of its result, if it throws nothing.
abbrev pub Returns {ℓ} : {E : Type 0} {A : Type ℓ} → (A → Type 0) → Option (Result E A) → Type 0
Returns P none = ⊥
Returns P (some o) = OnOk P o

pub OnOk-bind :
    {E A B : Type 0} (P : A → Type 0) (Q : B → Type 0) (o : Result E A) (f : A → B)
    → OnOk P o
    → ((a : A) → P a → Q (f a))
    → OnOk Q (o >>= (λ a. ok (f a)))
OnOk-bind P Q (ok a) f p k = k a p
OnOk-bind P Q (err e) f p k = tt

pub OnOk-map {ℓ} :
    {E : Type 0} {A : Type ℓ} (P Q : A → Type 0) (o : Result E A)
    → ((a : A) → P a → Q a)
    → OnOk P o
    → OnOk Q o
OnOk-map P Q (ok a) f p = f a p
OnOk-map P Q (err e) f p = tt

pub Returns-map {ℓ} :
    {E : Type 0} {A : Type ℓ} (P Q : A → Type 0) (o : Option (Result E A))
    → ((a : A) → P a → Q a)
    → Returns P o
    → Returns Q o
Returns-map P Q none f r = r
Returns-map P Q (some (ok a)) f r = f a r
Returns-map P Q (some (err e)) f r = tt

pub Result-cases {ℓ} :
    {E : Type 0} {A : Type ℓ} (r : Result E A) → ((a : A) × (r ≡ ok a)) ⊎ ((e : E) × (r ≡ err e))
Result-cases (ok a) = inl (a, refl)
Result-cases (err e) = inr (e, refl)

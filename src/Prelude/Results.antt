-- ===== src/Prelude/Results.antt =====
-- A Go function with a pair of results, a value and an error, returns a `Result`.
use mathlib.Core.Bool.{Bool, true, false}
use mathlib.Core.Logic.{◌⊎◌, inl, inr}
use mathlib.Core.Option.{Option, none, some}
use mathlib.Core.Path.{◌≡◌, refl, ap}
use chirpstack_gateway_bridg.Prelude.Tests.{if◌then◌else◌}

pub data Result {ℓ κ} (E : Type ℓ) (A : Type κ) : Type (ℓ ⊔ κ) where
  ok : A → Result E A
  err : E → Result E A

-- `if err != nil { return err }` between two steps.
infixl 5 ◌>>=◌
abbrev pub ◌>>=◌ {ℓ κ μ} :
    {Failure : Type κ} {B : Type μ} {A : Type ℓ}
    → Result Failure A
    → (next : A → Result Failure B) → Result Failure B
err failure >>= next = err failure
ok value >>= next = next value

-- `errors.Wrap`: the error of a step, in the terms of its caller.
abbrev pub map_err {ℓ κ μ} :
    {E : Type ℓ} {F : Type κ} {A : Type μ} → (E → F) → Result E A → Result F A
map_err f (ok a) = ok a
map_err f (err e) = err (f e)

-- Inversion of a successful step.
pub >>=-eq-ok {ℓ κ μ} :
    {Failure : Type κ} {B : Type μ} {A : Type ℓ} {end : B} (first : Result Failure A)
    (next : A → Result Failure B)
    → first >>= next ≡ ok end
    → (mid : A) × (first ≡ ok mid) × (next mid ≡ ok end)
>>=-eq-ok (err failure) next same = cc
>>=-eq-ok (ok mid) next same = (mid, refl, same)

pub ok-injective {ℓ κ} :
    {E : Type ℓ} {A : Type κ} {a b : A} → ◌≡◌ {A = Result E A} (ok a) (ok b) → a ≡ b
ok-injective e = cc

-- The error `e` where there is no value.
abbrev pub or_fail {ℓ κ} : {E : Type ℓ} {A : Type κ} → E → Option A → Result E A
or_fail e none = err e
or_fail e (some a) = ok a

pub or_fail-eq-ok {ℓ κ} :
    {E : Type ℓ} {A : Type κ} (e : E) (o : Option A) {a : A} → or_fail e o ≡ ok a → o ≡ some a
or_fail-eq-ok e none h = cc
or_fail-eq-ok e (some b) h = cc

pub Result-cases {ℓ κ} :
    {E : Type ℓ} {A : Type κ} (m : Result E A) → ((a : A) × (m ≡ ok a)) ⊎ ((e : E) × (m ≡ err e))
Result-cases (ok a) = inl (a, refl)
Result-cases (err e) = inr (e, refl)

-- A test that ends with an error has not held where there is a result.
pub guard-eq-ok {ℓ κ} :
    {E : Type ℓ} {A : Type κ} (b : Bool) (e : E) (m : Result E A) {a : A}
    → (if b then err e else m) ≡ ok a
    → (b ≡ false) × (m ≡ ok a)
guard-eq-ok true e m h = cc
guard-eq-ok false e m h = (refl, h)

pub map_err-eq-ok {ℓ κ μ} :
    {E : Type ℓ} {F : Type κ} {A : Type μ} {a : A} (f : E → F) (m : Result E A)
    → map_err f m ≡ ok a
    → m ≡ ok a
map_err-eq-ok f (ok b) e = ap ok (ok-injective e)
map_err-eq-ok f (err x) e = cc

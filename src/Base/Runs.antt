-- ===== src/Base/Runs.antt =====
-- What a run of C code comes to: a value, or undefined behaviour of a named kind.
use mathlib.Core.Path.{◌≡◌, refl, subst}
use mathlib.Core.Bool.{Bool, true, false}
use rpiweatherd.Base.Tests.{if◌then◌else◌}

pub data Fault : Type 0 where
  null_pointer : Fault
  write_overflow : Fault
  read_overflow : Fault
  dangling : Fault
  uninitialised : Fault

pub data Outcome {ℓ} (A : Type ℓ) : Type ℓ where
  ret : A → Outcome A
  fault : Fault → Outcome A

infixl 5 ◌>>=◌ ◌>>◌
abbrev pub ◌>>=◌ {ℓ κ} : {A : Type ℓ} {B : Type κ} → Outcome A → (A → Outcome B) → Outcome B
ret a >>= f = f a
fault e >>= f = fault e

abbrev pub ◌>>◌ {ℓ} : {B : Type ℓ} → Outcome (Unit {0}) → Outcome B → Outcome B
m >> k = m >>= λ _. k

pub >>=-eq-ret {ℓ κ} :
    {A : Type ℓ} {B : Type κ} (m : Outcome A) (f : A → Outcome B) {b : B}
    → (m >>= f) ≡ ret b
    → (a : A) × (m ≡ ret a) × (f a ≡ ret b)
>>=-eq-ret (ret a) f h = (a, refl, h)
>>=-eq-ret (fault e) f h = cc

-- Where the run returns, its value satisfies `P`.
abbrev pub Holds {ℓ κ} : {A : Type ℓ} → (A → Type κ) → Outcome A → Type κ
Holds P (ret a) = P a
Holds P (fault e) = Unit

pub Holds-bind {ℓ κ μ} :
    {A : Type ℓ} {B : Type κ} (P : B → Type μ) (m : Outcome A) (f : A → Outcome B)
    → ((a : A) → m ≡ ret a → Holds P (f a))
    → Holds P (m >>= f)
Holds-bind P (ret a) f h = h a refl
Holds-bind P (fault e) f h = tt

pub Holds-if {ℓ κ} :
    {A : Type ℓ} (P : A → Type κ) (b : Bool) (x y : Outcome A)
    → (b ≡ true → Holds P x)
    → (b ≡ false → Holds P y)
    → Holds P (if b then x else y)
Holds-if P true x y hx hy = hx refl
Holds-if P false x y hx hy = hy refl

pub Holds-ret {ℓ κ} :
    {A : Type ℓ} (P : A → Type κ) (m : Outcome A) {a : A} → Holds P m → m ≡ ret a → P a
Holds-ret P m h e = subst (Holds P) e h

pub Holds-intro {ℓ κ} :
    {A : Type ℓ} (P : A → Type κ) (m : Outcome A) → ((a : A) → m ≡ ret a → P a) → Holds P m
Holds-intro P (ret a) h = h a refl
Holds-intro P (fault e) h = tt

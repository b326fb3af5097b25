-- ===== src/Base/Exec.antt =====
-- Code that may run into undefined behaviour: a value, or the fault that ends the run.
use mathlib.Core.Path.{◌≡◌, refl}
use mathlib.Core.Bool.{Bool, true, false}
use oonf_api.Base.Tests.{if◌then◌else◌}

-- `out_of_bounds` is a read or write outside an object, `div_by_zero` a division by zero.
pub data Fault : Type 0 where
  out_of_bounds div_by_zero : Fault

pub data Exec {ℓ} (A : Type ℓ) : Type ℓ where
  done : A → Exec A
  fault : Fault → Exec A

infixl 5 ◌>>=◌
abbrev pub ◌>>=◌ {ℓ κ} : {A : Type ℓ} {B : Type κ} → Exec A → (A → Exec B) → Exec B
done a >>= f = f a
fault e >>= f = fault e

-- Inversion of a bind that gives a value.
pub >>=-eq-done {ℓ κ} :
    {A : Type ℓ} {B : Type κ} (m : Exec A) (f : A → Exec B) {b : B}
    → (m >>= f) ≡ done b
    → (a : A) × (m ≡ done a) × (f a ≡ done b)
>>=-eq-done (done a) f h = (a, refl, h)
>>=-eq-done (fault e) f h = cc

-- The run ends in a value of which `P` holds, or in a fault that `F` admits.
abbrev pub Ends {ℓ} : {A : Type ℓ} → (Fault → Type 0) → (A → Type 0) → Exec A → Type 0
Ends F P (done a) = P a
Ends F P (fault e) = F e

-- No fault at all; or none that leaves an object.
abbrev pub NoFault : Fault → Type 0
NoFault e = ⊥

abbrev pub InBounds : Fault → Type 0
InBounds out_of_bounds = ⊥
InBounds div_by_zero = Unit

abbrev pub AnyFault : Fault → Type 0
AnyFault e = Unit

module _ (F : Fault → Type 0) where
  -- A property of a run, from one of its first part.
  pub Ends-bind {ℓ κ} :
      {A : Type ℓ} {B : Type κ} (P : A → Type 0) (Q : B → Type 0) (m : Exec A) (f : A → Exec B)
      → Ends F P m
      → ((a : A) → P a → Ends F Q (f a))
      → Ends F Q (m >>= f)
  Ends-bind P Q (done a) f h k = k a h
  Ends-bind P Q (fault e) f h k = h

  pub Ends-map {ℓ} :
      {A : Type ℓ} (P Q : A → Type 0) (m : Exec A) → ((a : A) → P a → Q a) → Ends F P m → Ends F Q m
  Ends-map P Q (done a) f h = f a h
  Ends-map P Q (fault e) f h = h

  -- Two properties of the same run.
  pub Ends-and {ℓ} :
      {A : Type ℓ} (P Q : A → Type 0) (m : Exec A)
      → Ends F P m
      → Ends F Q m
      → Ends F (λ a. P a × Q a) m
  Ends-and P Q (done a) h k = (h, k)
  Ends-and P Q (fault e) h k = h

pub Ends-NoFault {ℓ} :
    {A : Type ℓ} (F : Fault → Type 0) (P : A → Type 0) (m : Exec A) → Ends NoFault P m → Ends F P m
Ends-NoFault F P (done a) h = h
Ends-NoFault F P (fault e) h = elim h [ ]

pub Ends-eq-done {ℓ} :
    {A : Type ℓ} (F : Fault → Type 0) (P : A → Type 0) (m : Exec A) {a : A}
    → Ends F P m
    → m ≡ done a
    → P a
Ends-eq-done F P m h e = rw e at h

-- The first part has no fault, whatever faults the whole admits.
pub Ends-bind_safe {ℓ κ} :
    {A : Type ℓ} {B : Type κ} (F : Fault → Type 0) (P : A → Type 0) (Q : B → Type 0) (m : Exec A)
    (f : A → Exec B)
    → Ends NoFault P m
    → ((a : A) → P a → Ends F Q (f a))
    → Ends F Q (m >>= f)
Ends-bind_safe F P Q (done a) f h k = k a h
Ends-bind_safe F P Q (fault e) f h k = elim h [ ]

-- Any run, if nothing is asked of its value.
pub Ends-AnyFault {ℓ} : {A : Type ℓ} (m : Exec A) → Ends AnyFault (λ a. Unit) m
Ends-AnyFault (done a) = tt
Ends-AnyFault (fault e) = tt

pub Ends-weaken {ℓ} :
    {A : Type ℓ} (F : Fault → Type 0) (P : A → Type 0) (m : Exec A) → Ends F P m → Ends AnyFault P m
Ends-weaken F P (done a) h = h
Ends-weaken F P (fault e) h = tt

module _ {ℓ κ} {A : Type ℓ} {B : Type κ} (P : B → Type 0) where
  pub after :
      (m : Exec A) (f : A → Exec B) → ((a : A) → Ends AnyFault P (f a)) → Ends AnyFault P (m >>= f)
  after m f h = Ends-bind AnyFault (λ a. Unit) P m f (Ends-AnyFault m) (λ a t. h a)

-- Both branches of a test.
pub either {ℓ} :
    {A : Type ℓ} (P : A → Type 0) (t : Bool) (x y : Exec A)
    → (t ≡ true → Ends AnyFault P x)
    → (t ≡ false → Ends AnyFault P y)
    → Ends AnyFault P (if t then x else y)
either P true x y h k = h refl
either P false x y h k = k refl

-- A run without faults, with what is known of it if it has none.
pub Ends-safe {ℓ} :
    {A : Type ℓ} (P Q : A → Type 0) (m : Exec A)
    → Ends NoFault P m
    → Ends AnyFault Q m
    → Ends NoFault Q m
Ends-safe P Q (done a) h k = k
Ends-safe P Q (fault e) h k = h

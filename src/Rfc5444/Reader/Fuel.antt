-- ===== src/Rfc5444/Reader/Fuel.antt =====
-- Runs of the packet reader's loops (src-api/rfc5444/rfc5444_reader.c) on fuel: no value when the fuel
-- is used up.
use oonf_api.Base.Exec.{Exec, done, fault, AnyFault, Ends, ◌>>=◌}
use oonf_api.Base.{Option, none, some}

-- A run with the fuel for its loops goes on, if the fuel was enough.
abbrev pub with_value : {A B : Type 0} → (A → Exec (Option B)) → Option A → Exec (Option B)
with_value f none = done none
with_value f (some a) = f a

infixl 5 ◌>>?◌
abbrev pub ◌>>?◌ : {A B : Type 0} → Exec (Option A) → (A → Exec (Option B)) → Exec (Option B)
m >>? f = m >>= with_value f

-- A run has not run out of fuel, and `P` holds of what it returns.
abbrev pub Value : {A : Type 0} → (A → Type 0) → Option A → Type 0
Value P none = ⊥
Value P (some a) = P a

-- One run with fuel behind another.
pub Value-bind :
    {A B : Type 0} (P : A → Type 0) (Q : B → Type 0) (m : Exec (Option A)) (f : A → Exec (Option B))
    → Ends AnyFault (Value P) m
    → ((a : A) → P a → Ends AnyFault (Value Q) (f a))
    → Ends AnyFault (Value Q) (m >>? f)
Value-bind P Q (fault e) f h k = tt
Value-bind P Q (done none) f h k = h
Value-bind P Q (done (some a)) f h k = k a h

abbrev pub HasEnded : {A : Type 0} → Option A → Type 0
HasEnded = Value (λ a. Unit)

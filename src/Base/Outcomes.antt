-- ===== src/Base/Outcomes.antt =====
-- Calls that may panic. Go's `error` results are values of the call's own result.
use mathlib.Core.Path.{◌≡◌, refl}

pub data Outcome {ℓ} (A : Type ℓ) : Type ℓ where
  returns : A → Outcome A
  panics : Outcome A

infixl 5 ◌>>=◌
abbrev pub ◌>>=◌ {ℓ κ} : {A : Type ℓ} {B : Type κ} → Outcome A → (A → Outcome B) → Outcome B
returns a >>= f = f a
panics >>= f = panics

-- The call comes back, with a value of which `P` holds.
abbrev pub Returns : {A : Type 0} → Outcome A → (A → Type 0) → Type 0
Returns (returns a) P = P a
Returns panics P = ⊥

pub Returns-bind :
    {A B : Type 0} (P : A → Type 0) (Q : B → Type 0) (o : Outcome A) (f : A → Outcome B)
    → Returns o P
    → ((a : A) → P a → Returns (f a) Q)
    → Returns (o >>= f) Q
Returns-bind P Q (returns a) f h k = k a h
Returns-bind P Q panics f h k = elim h [ ]

pub Returns-mono :
    {A : Type 0} (P Q : A → Type 0) (o : Outcome A)
    → Returns o P
    → ((a : A) → P a → Q a)
    → Returns o Q
Returns-mono P Q (returns a) h k = k a h
Returns-mono P Q panics h k = elim h [ ]

-- The call comes back, with a value of which `P` holds, or it panics for the reason `B`.
abbrev pub ReturnsOr : {A : Type 0} → Type 0 → Outcome A → (A → Type 0) → Type 0
ReturnsOr B (returns a) P = P a
ReturnsOr B panics P = B

pub ReturnsOr-bind :
    {A C : Type 0} (B : Type 0) (P : A → Type 0) (Q : C → Type 0) (o : Outcome A)
    (f : A → Outcome C)
    → ReturnsOr B o P
    → ((a : A) → o ≡ returns a → P a → ReturnsOr B (f a) Q)
    → ReturnsOr B (o >>= f) Q
ReturnsOr-bind B P Q (returns a) f h k = k a refl h
ReturnsOr-bind B P Q panics f h k = h

pub ReturnsOr-mono :
    {A : Type 0} (B : Type 0) (P Q : A → Type 0) (o : Outcome A)
    → ReturnsOr B o P
    → ((a : A) → P a → Q a)
    → ReturnsOr B o Q
ReturnsOr-mono B P Q (returns a) h k = k a h
ReturnsOr-mono B P Q panics h k = h

pub Returns-or :
    {A : Type 0} (B : Type 0) (P : A → Type 0) (o : Outcome A) → Returns o P → ReturnsOr B o P
Returns-or B P (returns a) h = h
Returns-or B P panics h = elim h [ ]

-- ===== src/Common/Results.antt =====
-- Calls that may raise: `none` is an AssertionError, KeyError or IndexError of the source.
-- `Ensures m P` says that the call returns and that its result meets P.
use mathlib.Core.Path.{◌≡◌, refl}
use mathlib.Core.Bool.{Bool, true, false}
use mathlib.Core.Option.{Option, none, some}

infixl 5 ◌>>=◌ ◌>>◌
abbrev pub ◌>>=◌ {ℓ κ} : {A : Type ℓ} {B : Type κ} → Option A → (A → Option B) → Option B
none >>= f = none
some a >>= f = f a

abbrev pub ◌>>◌ {ℓ} : {B : Type ℓ} → Option (Unit {0}) → Option B → Option B
m >> k = m >>= λ _. k

-- `assert b`
abbrev pub require : Bool → Option (Unit {0})
require true = some tt
require false = none

abbrev pub Ensures {ℓ} : {A : Type ℓ} → Option A → (A → Type 0) → Type 0
Ensures none P = ⊥
Ensures (some a) P = P a

-- The result of a call that is known to meet its postcondition.
pub Ensures-value {ℓ} :
    {A : Type ℓ} (m : Option A) (P : A → Type 0) → Ensures m P → (a : A) × (m ≡ some a) × P a
Ensures-value none P h = absurd h
Ensures-value (some a) P h = (a, refl, h)

-- The rule for a sequence of two calls.
pub Ensures->>= {ℓ κ} :
    {A : Type ℓ} {B : Type κ} (m : Option A) (f : A → Option B) (P : A → Type 0) (Q : B → Type 0)
    → Ensures m P
    → ((a : A) → P a → Ensures (f a) Q)
    → Ensures (m >>= f) Q
Ensures->>= none f P Q h k = absurd h
Ensures->>= (some a) f P Q h k = k a h

pub Ensures-mono {ℓ} :
    {A : Type ℓ} (m : Option A) (P : A → Type 0) (Q : A → Type 0)
    → Ensures m P
    → ((a : A) → P a → Q a)
    → Ensures m Q
Ensures-mono none P Q h k = absurd h
Ensures-mono (some a) P Q h k = k a h

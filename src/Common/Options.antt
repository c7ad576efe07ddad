-- ===== src/Common/Options.antt =====
-- Options: chaining, and what a result that is there comes from.
use mathlib.Core.Path.{◌≡◌, refl, ap}
use mathlib.Core.Option.{Option, none, some}

abbrev pub bind {ℓ κ} : {A : Type ℓ} {B : Type κ} → Option A → (A → Option B) → Option B
bind none f = none
bind (some a) f = f a

pub unwrap : {A : Type 0} (a b : A) → some a ≡ some b → a ≡ b
unwrap a b e = ap (λ o. elim o [ none ↦ a | some x ↦ x ]) e

-- A chain that ends well has passed through a value.
pub bind-some :
    {A B : Type 0} (o : Option A) (f : A → Option B) (b : B)
    → bind o f ≡ some b
    → (a : A) × (o ≡ some a) × (f a ≡ some b)
bind-some none f b e = cc
bind-some (some a) f b e = (a, refl, e)

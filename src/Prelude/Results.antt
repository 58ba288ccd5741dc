-- ===== src/Prelude/Results.antt =====
-- What a piece of kernel code can do besides returning: `panic`, an access that C leaves undefined, or
-- a loop that never ends.
use mathlib.Core.Path.{◌≡◌, refl}

pub data Fault : Type 0 where
  panic diverges null_deref out_of_bounds div_by_zero exit_1 int_overflow : Fault

pub data Result {ℓ} (A : Type ℓ) : Type ℓ where
  fault : Fault → Result A
  ok : A → Result A

-- Code after code: a fault ends both.
infixl 5 ◌>>=◌
abbrev pub ◌>>=◌ {ℓ κ} : {B : Type κ} {A : Type ℓ} → Result A → (A → Result B) → Result B
◌>>=◌ (fault why) next = fault why
◌>>=◌ (ok value) next = next value

pub bind_ext {ℓ κ} :
    {A : Type ℓ} {B : Type κ} (m : Result A) (f g : A → Result B)
    → ((x : A) → f x ≡ g x)
    → (m >>= f) ≡ (m >>= g)
bind_ext (fault w) f g h = refl
bind_ext (ok x) f g h = h x

pub bind_assoc {ℓ κ μ} :
    {A : Type ℓ} {B : Type κ} {C : Type μ} (m : Result A) (f : A → Result B) (g : B → Result C)
    → (m >>= f >>= g) ≡ (m >>= λ x. f x >>= g)
bind_assoc (fault w) f g = refl
bind_assoc (ok x) f g = refl

pub bind_ok {ℓ} : {A : Type ℓ} (m : Result A) → (m >>= λ x. ok x) ≡ m
bind_ok (fault w) = refl
bind_ok (ok x) = refl

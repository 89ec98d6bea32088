-- ===== src/Prelude/Go.antt =====
-- A Go call returns, or panics.
use mathlib.Core.Path.{◌≡◌, refl}
use mathlib.Core.Logic.{◌⊎◌, inl, inr}

pub data Go {ℓ} (A : Type ℓ) : Type ℓ where
  returns : A → Go A
  panics : Go A

infixl 5 ◌>>=◌
abbrev pub ◌>>=◌ {ℓ κ} : {A : Type ℓ} {B : Type κ} → Go A → (A → Go B) → Go B
returns a >>= f = f a
panics >>= f = panics

pub Go-cases {ℓ} : {A : Type ℓ} (g : Go A) → ((a : A) × (g ≡ returns a)) ⊎ (g ≡ panics)
Go-cases (returns a) = inl (a, refl)
Go-cases panics = inr refl

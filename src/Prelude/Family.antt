-- ===== src/Prelude/Family.antt =====
-- Families `ℕ → A`, one member for each number, and lists of numbered elements.
use Prim.Native.Nat.{ℕ}
use mathlib.Core.Path.{◌≡◌, refl, subst, sym}
use mathlib.Core.Logic.{inl, inr}
use mathlib.Core.Bool.{false}
use mathlib.Core.List.{List, [], ◌∷◌, ◌++◌, append-nil}
use message_queue.Prelude.Tests.{◌==◌, if◌then◌else◌, ==_iff, ==_self, Bool-cases}

abbrev pub set {ℓ} : {A : Type ℓ} → (ℕ → A) → ℕ → A → ℕ → A
set f i a j = if j == i then a else f j

pub set_self {ℓ} : {A : Type ℓ} (f : ℕ → A) (i : ℕ) (a : A) → set f i a i ≡ a
set_self f i a = rw (==_self i)

-- A property of all members, after one is replaced.
pub set_all {ℓ κ} :
    {A : Type ℓ} (P : ℕ → A → Type κ) (f : ℕ → A) (i : ℕ) (a : A)
    → P i a
    → ((j : ℕ) → (j == i) ≡ false → P j (f j))
    → (j : ℕ) → P j (set f i a j)
set_all P f i a new old j = elim (Bool-cases (j == i)) [
  | inl same ↦ rw same (subst (λ (k : ℕ). P k a) (sym ((==_iff j i).0 same)) new)
  | inr other ↦ rw other (old j other)
]

-- The elements with one number, and all elements.
abbrev pub of {ℓ} : {A : Type ℓ} → ℕ → List (ℕ × A) → List A
of i [] = []
of i ((j, a) ∷ xs) = if i == j then a ∷ of i xs else of i xs

abbrev pub all_of {ℓ} : {A : Type ℓ} → List (ℕ × A) → List A
all_of [] = []
all_of ((j, a) ∷ xs) = a ∷ all_of xs

module _ {ℓ} {A : Type ℓ} where
  pub all_of-append : (xs ys : List (ℕ × A)) → all_of (xs ++ ys) ≡ all_of xs ++ all_of ys
  all_of-append [] ys = refl
  all_of-append ((j, a) ∷ xs) ys = rw (all_of-append xs ys)

  pub of-append : (i : ℕ) (xs ys : List (ℕ × A)) → of i (xs ++ ys) ≡ of i xs ++ of i ys
  of-append i [] ys = refl
  of-append i ((j, a) ∷ xs) ys = elim (Bool-cases (i == j)) [
    | inl same ↦ rw (same, of-append i xs ys)
    | inr other ↦ rw (other, of-append i xs ys)
  ]

  pub of-snoc_self :
      (i : ℕ) (xs : List (ℕ × A)) (a : A) → of i (xs ++ ((i, a) ∷ [])) ≡ of i xs ++ (a ∷ [])
  of-snoc_self i xs a = rw (of-append i xs ((i, a) ∷ []), ==_self i)

  pub of-snoc_other :
      (i j : ℕ) (xs : List (ℕ × A)) (a : A)
      → (i == j) ≡ false
      → of i (xs ++ ((j, a) ∷ [])) ≡ of i xs
  of-snoc_other i j xs a h = rw (of-append i xs ((j, a) ∷ []), h) (append-nil (of i xs))

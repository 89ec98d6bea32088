-- ===== src/Prelude/Sub.antt =====
-- Subsequences.
use mathlib.Core.List.{List, [], ◌∷◌, ◌++◌}

pub data Sub {ℓ} {A : Type ℓ} : List A → List A → Type ℓ where
  done : Sub [] []
  keep : (m : A) (xs ys : List A) → Sub xs ys → Sub (m ∷ xs) (m ∷ ys)
  skip : (m : A) (xs ys : List A) → Sub xs ys → Sub xs (m ∷ ys)

module _ {ℓ} {A : Type ℓ} where
  pub Sub-nil : (ys : List A) → Sub [] ys
  Sub-nil [] = done
  Sub-nil (y ∷ ys) = skip y [] ys (Sub-nil ys)

  pub Sub-skip : (xs ys : List A) (m : A) → Sub xs ys → Sub xs (ys ++ (m ∷ []))
  Sub-skip _ _ m done = skip m [] [] done
  Sub-skip _ _ m (keep x xs ys s) = keep x xs (ys ++ (m ∷ [])) (Sub-skip xs ys m s)
  Sub-skip _ _ m (skip y xs ys s) = skip y xs (ys ++ (m ∷ [])) (Sub-skip xs ys m s)

  pub Sub-keep : (xs ys : List A) (m : A) → Sub xs ys → Sub (xs ++ (m ∷ [])) (ys ++ (m ∷ []))
  Sub-keep _ _ m done = keep m [] [] done
  Sub-keep _ _ m (keep x xs ys s) = keep x (xs ++ (m ∷ [])) (ys ++ (m ∷ [])) (Sub-keep xs ys m s)
  Sub-keep _ _ m (skip y xs ys s) = skip y (xs ++ (m ∷ [])) (ys ++ (m ∷ [])) (Sub-keep xs ys m s)

  -- More at the end of the longer list.
  pub Sub-append : (xs ys zs : List A) → Sub xs ys → Sub xs (ys ++ zs)
  Sub-append _ _ zs done = Sub-nil zs
  Sub-append _ _ zs (keep x xs ys s) = keep x xs (ys ++ zs) (Sub-append xs ys zs s)
  Sub-append _ _ zs (skip y xs ys s) = skip y xs (ys ++ zs) (Sub-append xs ys zs s)

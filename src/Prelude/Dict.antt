-- ===== src/Prelude/Dict.antt =====
-- Go's maps with string keys, as association lists in which each key stands once. Go fixes no order
-- of iteration, so what depends on an order takes it as an argument.
use mathlib.Core.Path.{◌≡◌, refl}
use mathlib.Core.Bool.{false}
use mathlib.Core.Option.{Option, none, some}
use mathlib.Core.List.{List, [], ◌∷◌}
use native.Mathlib.Omega.{arith}
use message_queue.Prelude.Tests.{if◌then◌else◌}
use message_queue.Prelude.Text.{Text, text_eq, text_eq_iff, text_eq_refl}

abbrev pub Dict {ℓ} : Type ℓ → Type ℓ
Dict V = List (Text × V)

module _ {ℓ} {V : Type ℓ} where
  -- `v, ok := m[k]`.
  unfoldable pub get : Dict V → Text → Option V
  get [] k = none
  get ((j, v) ∷ m) k = if text_eq j k then some v else get m k

  -- `m[k] = v`.
  unfoldable pub put : Dict V → Text → V → Dict V
  put [] k v = (k, v) ∷ []
  put ((j, w) ∷ m) k v = if text_eq j k then (j, v) ∷ m else (j, w) ∷ put m k v

  -- `delete(m, k)`.
  unfoldable pub delete : Dict V → Text → Dict V
  delete [] k = []
  delete ((j, w) ∷ m) k = if text_eq j k then m else (j, w) ∷ delete m k

  pub get-put :
      (m : Dict V) (k j : Text) (v : V)
      → get (put m k v) j ≡ (if text_eq k j then some v else get m j)
  unfolding get put
  get-put [] k j v = refl
  get-put ((i, w) ∷ m) k j v =
      ground (arith, text_eq_iff k j, text_eq_iff i k, text_eq_iff i j, get-put m k j v)

  pub get-put_self : (m : Dict V) (k : Text) (v : V) → get (put m k v) k ≡ some v
  get-put_self m k v = rw (get-put m k k v, text_eq_refl k)

  -- No key stands twice.
  abbrev pub HasNot : Text → Dict V → Type 0
  HasNot k [] = Unit {0}
  HasNot k ((j, v) ∷ m) = (text_eq j k ≡ false) × HasNot k m

  abbrev pub IsDict : Dict V → Type 0
  IsDict [] = Unit {0}
  IsDict ((j, v) ∷ m) = HasNot j m × IsDict m

  pub get-HasNot : (m : Dict V) (k : Text) → HasNot k m → get m k ≡ none
  unfolding get
  get-HasNot [] k h = refl
  get-HasNot ((j, v) ∷ m) k h = ground (arith, get-HasNot m k h.1)

  HasNot-of_get : (m : Dict V) (k : Text) → get m k ≡ none → HasNot k m
  unfolding get
  HasNot-of_get [] k h = tt
  HasNot-of_get ((j, v) ∷ m) k h = ground (arith, HasNot-of_get m k)

  HasNot-put :
      (m : Dict V) (k j : Text) (v : V) → text_eq k j ≡ false → HasNot j m → HasNot j (put m k v)
  unfolding put
  HasNot-put [] k j v e h = (e, tt)
  HasNot-put ((i, w) ∷ m) k j v e h = ground (arith, HasNot-put m k j v e h.1)

  HasNot-delete : (m : Dict V) (k j : Text) → HasNot j m → HasNot j (delete m k)
  unfolding delete
  HasNot-delete [] k j h = tt
  HasNot-delete ((i, w) ∷ m) k j h = ground (arith, HasNot-delete m k j h.1)

  pub put-IsDict : (m : Dict V) (k : Text) (v : V) → IsDict m → IsDict (put m k v)
  unfolding put
  put-IsDict [] k v d = (tt, tt)
  put-IsDict ((i, w) ∷ m) k v d =
      ground (arith, put-IsDict m k v d.1, HasNot-put m k i v, text_eq_iff i k, text_eq_iff k i)

  pub delete-IsDict : (m : Dict V) (k : Text) → IsDict m → IsDict (delete m k)
  unfolding delete
  delete-IsDict [] k d = tt
  delete-IsDict ((i, w) ∷ m) k d = ground (arith, delete-IsDict m k d.1, HasNot-delete m k i d.0)

  pub get-delete :
      (m : Dict V) (k j : Text)
      → IsDict m
      → get (delete m k) j ≡ (if text_eq k j then none else get m j)
  unfolding get delete
  get-delete [] k j d = ground arith
  get-delete ((i, w) ∷ m) k j d = ground (
    arith,
    text_eq_iff k j,
    text_eq_iff i k,
    text_eq_iff i j,
    get-delete m k j d.1,
    get-HasNot m k,
    get-HasNot m i d.0,
  )

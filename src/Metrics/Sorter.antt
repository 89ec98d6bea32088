-- ===== src/Metrics/Sorter.antt =====
-- StringSorter (internal/metrics/implementations.go). `sort.Strings` and `sort.Sort` are modelled by
-- an insertion sort: the sorted order of a list of strings is unique.
use mathlib.Core.List.{Perm}
use mathlib.Core.List.Perm
use message_queue.Prelude.{
  ◌≡◌, refl, inl, inr, Bool, true, false, ◌+◌, length, List, [], ◌∷◌, arith, ltb, ◌==◌, Bool-cases,
  if◌then◌else◌,
}
use message_queue.Prelude.Text.{Text}

pub data SortOrder : Type 0 where
  ascending descending : SortOrder

-- `s <= t` on strings.
pub text_leb : Text → Text → Bool
text_leb [] t = true
text_leb (c ∷ s) [] = false
text_leb (c ∷ s) (d ∷ t) = if c == d then text_leb s t else ltb c d

-- What may stand in front of what: the test that `sort.Reverse` swaps.
unfoldable pub in_order : SortOrder → Text → Text → Bool
in_order ascending s t = text_leb s t
in_order descending s t = text_leb t s

pub insert : SortOrder → Text → List Text → List Text
insert order x [] = x ∷ []
insert order x (y ∷ ys) = if in_order order x y then x ∷ y ∷ ys else y ∷ insert order x ys

unfoldable pub sort_strings : List Text → SortOrder → List Text
sort_strings [] order = []
sort_strings (x ∷ xs) order = insert order x (sort_strings xs order)

text_leb-total : (s t : Text) → text_leb s t ≡ false → text_leb t s ≡ true
unfolding text_leb
text_leb-total [] t h = cc
text_leb-total (c ∷ s) [] h = refl
text_leb-total (c ∷ s) (d ∷ t) h = ground (arith, text_leb-total s t)

in_order-total : (o : SortOrder) (s t : Text) → in_order o s t ≡ false → in_order o t s ≡ true
unfolding in_order
in_order-total ascending s t h = text_leb-total s t h
in_order-total descending s t h = text_leb-total t s h

-- Each item is in order with the next one.
abbrev FirstIs : SortOrder → Text → List Text → Type 0
FirstIs o x [] = Unit {0}
FirstIs o x (y ∷ ys) = in_order o x y ≡ true

abbrev pub IsSorted : SortOrder → List Text → Type 0
IsSorted o [] = Unit {0}
IsSorted o (x ∷ xs) = FirstIs o x xs × IsSorted o xs

FirstIs-insert :
    (o : SortOrder) (x y : Text) (ys : List Text)
    → in_order o y x ≡ true
    → FirstIs o y ys
    → FirstIs o y (insert o x ys)
unfolding insert
FirstIs-insert o x y [] h f = h
FirstIs-insert o x y (z ∷ ys) h f = ground arith

insert-IsSorted :
    (o : SortOrder) (x : Text) (ys : List Text) → IsSorted o ys → IsSorted o (insert o x ys)
unfolding insert
insert-IsSorted o x [] s = (tt, tt)
insert-IsSorted o x (y ∷ ys) s = elim (Bool-cases (in_order o x y)) [
  | inl first ↦ rw first (first, s)
  | inr later ↦
      rw later
        (FirstIs-insert o x y ys (in_order-total o x y later) s.0, insert-IsSorted o x ys s.1)
]

insert-perm : (o : SortOrder) (x : Text) (ys : List Text) → Perm (insert o x ys) (x ∷ ys)
unfolding insert
insert-perm o x [] = Perm.refl (x ∷ [])
insert-perm o x (y ∷ ys) = elim (Bool-cases (in_order o x y)) [
  | inl first ↦ rw first (Perm.refl (x ∷ y ∷ ys))
  | inr later ↦ rw later (Perm.trans (Perm.cons y (insert-perm o x ys)) (Perm.swap x y ys))
]

-- `SortStrings` sorts: the result is in the order asked for, and it is the same strings, each as
-- often as before.
pub sort_strings-IsSorted :
    (xs : List Text) (o : SortOrder) → IsSorted o (sort_strings xs o) × Perm (sort_strings xs o) xs
unfolding sort_strings
sort_strings-IsSorted [] o = (tt, Perm.refl [])
sort_strings-IsSorted (x ∷ xs) o =
    let (s, p) = sort_strings-IsSorted xs o in
    (
      insert-IsSorted o x (sort_strings xs o) s,
      Perm.trans (insert-perm o x (sort_strings xs o)) (Perm.cons x p),
    )

length-insert : (o : SortOrder) (x : Text) (ys : List Text) → length (insert o x ys) ≡ length ys + 1
unfolding insert
length-insert o x [] = omega arith
length-insert o x (y ∷ ys) = ground (arith, length-insert o x ys)

pub length-sort_strings : (xs : List Text) (o : SortOrder) → length (sort_strings xs o) ≡ length xs
unfolding sort_strings
length-sort_strings [] o = refl
length-sort_strings (x ∷ xs) o =
    omega (arith, length-insert o x (sort_strings xs o), length-sort_strings xs o)

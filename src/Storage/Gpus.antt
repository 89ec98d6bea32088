-- ===== src/Storage/Gpus.antt =====
-- The identifiers that the store lists.
use message_queue.Prelude.{
  ℕ, zero, suc, ◌+◌, ◌/◌, ◌%◌, ◌≡◌, refl, false, inl, inr, Option, none, some, List, [], ◌∷◌, All,
  arith, Bool-cases, Option-cases,
}
use message_queue.Prelude.Int.{ℤ, pos, negsuc}
use message_queue.Prelude.Text.{Text, codes, is_empty}
use message_queue.Storage.{
  Collection, FieldValue, string, int32, other, digits_loop, decimal, text_ids, gpu_ids, or_gpu_ids,
  list_gpus,
}

abbrev pub IsId : Text → Type 0
IsId s = is_empty s ≡ false

digits_loop-IsId : (fuel n : ℕ) (s : Text) → IsId s → IsId (digits_loop fuel n s)
unfolding digits_loop
digits_loop-IsId zero n s h = h
digits_loop-IsId (suc fuel) n s h =
    let ih = digits_loop-IsId fuel (n / 10) ((48 + n % 10) ∷ s) refl in ground arith

decimal-IsId : (n : ℤ) → IsId (decimal n)
unfolding decimal
decimal-IsId (pos n) =
    unfold digits_loop in
    let ih = digits_loop-IsId n (n / 10) ((48 + n % 10) ∷ []) refl in ground arith
decimal-IsId (negsuc n) = refl

text_ids-IsId : (vs : List FieldValue) → All IsId (text_ids vs)
unfolding text_ids
text_ids-IsId [] = tt
text_ids-IsId (string s ∷ vs) = elim (Bool-cases (is_empty s)) [
  | inl e ↦ rw e (text_ids-IsId vs)
  | inr e ↦ rw e (e, text_ids-IsId vs)
]
text_ids-IsId (int32 n ∷ vs) = text_ids-IsId vs
text_ids-IsId (other ∷ vs) = text_ids-IsId vs

gpu_ids-IsId : (vs : List FieldValue) → All IsId (gpu_ids vs)
unfolding gpu_ids
gpu_ids-IsId [] = tt
gpu_ids-IsId (string s ∷ vs) = elim (Bool-cases (is_empty s)) [
  | inl e ↦ rw e (gpu_ids-IsId vs)
  | inr e ↦ rw e (e, gpu_ids-IsId vs)
]
gpu_ids-IsId (int32 n ∷ vs) = (decimal-IsId n, gpu_ids-IsId vs)
gpu_ids-IsId (other ∷ vs) = gpu_ids-IsId vs

or_gpu_ids-IsId :
    (ids : List Text) (gpus : Option (List FieldValue)) (out : List Text)
    → All IsId ids
    → or_gpu_ids ids gpus ≡ some out
    → All IsId out
or_gpu_ids-IsId (id ∷ ids) gpus out a h = let e : id ∷ ids ≡ out = cc h in rw (← e) a
or_gpu_ids-IsId [] none out a h = cc h
or_gpu_ids-IsId [] (some gpus) out a h =
    let e : gpu_ids gpus ≡ out = cc h in rw (← e) (gpu_ids-IsId gpus)

-- Whatever the collection holds, no identifier that the store lists is empty.
pub list_gpus-IsId :
    {C V Time Doc : Type 0} (api : Collection C V Time Doc) (c : C) (ids : List Text)
    → list_gpus api c ≡ some ids
    → All IsId ids
unfolding list_gpus
list_gpus-IsId api c ids h = elim (Option-cases (api.distinct c (codes "uuid"))) [
  | inl e ↦ let n = rw (e, list_gpus) at h in cc n
  | inr (vs, e) ↦
      or_gpu_ids-IsId (text_ids vs) (api.distinct c (codes "gpu_id")) ids (text_ids-IsId vs)
        (rw (e, list_gpus) at h)
]

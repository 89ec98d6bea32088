-- ===== src/Metrics/Pagination/Pages.antt =====
-- The pages that `CalculateOffset` and `PaginateSlice` cut.
use message_queue.Prelude.{
  ℕ, zero, suc, ◌+◌, ◌-◌, ◌*◌, ◌^◌, ◌≤◌, ◌<◌, ◌≡◌, refl, ◌∙◌, inl, inr, false, List, [], ◌++◌,
  length, take, drop, take_all, drop_all, length-drop, arith, ltb, leb, Bool-cases, le→leb,
  lt→leb_false, drop-take, take-nil, take-add,
}
use message_queue.Prelude.Go.{Go, returns, panics, ◌>>=◌}
use message_queue.Prelude.Int.{pos, negsuc, ◌+ℤ◌, ◌-ℤ◌, ◌*ℤ◌, wrap64, wrap64-eq_of_IsInt64}
use message_queue.Metrics.Pagination.{calculate_offset, paginate_slice, slice}

pos-pos_mul : (a b : ℕ) → pos a *ℤ pos b ≡ pos (a * b)
unfolding ◌*ℤ◌
pos-pos_mul a b = ground arith

pub wrap64-pos : (n : ℕ) → n < 2 ^ 63 → wrap64 (pos n) ≡ pos n
wrap64-pos n h = wrap64-eq_of_IsInt64 (pos n) (omega arith)

wrap64-negative : (n : ℕ) → 2 ^ 63 ≤ n → n < 2 ^ 64 → (m : ℕ) × (wrap64 (pos n) ≡ negsuc m)
unfolding wrap64
wrap64-negative n low high = (2 ^ 64 - n - 1, ground arith)

pos-pos_add : (a b : ℕ) → pos a +ℤ pos b ≡ pos (a + b)
unfolding ◌+ℤ◌
pos-pos_add a b = ground arith

-- An offset inside a list that fits in memory leaves room for the limit to be added.
end_fits :
    (p limit n : ℕ) → limit < 2 ^ 63 → n ≤ 2 ^ 62 → p * limit < n → p * limit + limit < 2 ^ 63
end_fits zero limit n h k l = omega arith
end_fits (suc p) limit n h k l = omega arith

-- The offset of page `p + 1`: the product, which wraps around.
pub offset_lem :
    (p limit : ℕ)
    → p < 2 ^ 63
    → calculate_offset (pos (suc p)) (pos limit) ≡ wrap64 (pos (p * limit))
unfolding calculate_offset ◌-ℤ◌
offset_lem p limit h =
    let e : pos (suc p) -ℤ pos 1 ≡ pos p = ground arith in
    rw (e, wrap64-pos p h, pos-pos_mul p limit)

module _ {ℓ} {A : Type ℓ} (items : List A) where
  slice-ok :
      (lo hi : ℕ)
      → lo ≤ hi
      → hi ≤ length items
      → slice items (pos lo) (pos hi) ≡ returns (drop lo (take hi items))
  unfolding slice
  slice-ok lo hi h k = rw (le→leb lo hi h, le→leb hi (length items) k)

  -- Behind the end there is nothing.
  paginate-behind :
      (o limit : ℕ)
      → length items ≤ o
      → paginate_slice items (pos o) (pos limit) ≡ returns (take limit (drop o items))
  unfolding paginate_slice
  paginate-behind o limit h =
      rw (
        drop_all o items h,
        take-nil {A = A} limit,
        le→leb (length items + 0) (o + 0) (omega arith),
      )

  paginate-inside :
      (o limit : ℕ)
      → o < length items
      → o + limit < 2 ^ 63
      → length items ≤ 2 ^ 62
      → paginate_slice items (pos o) (pos limit) ≡ returns (take limit (drop o items))
  unfolding paginate_slice
  paginate-inside o limit h fits short =
      let inside : leb (length items + 0) (o + 0) ≡ false =
        lt→leb_false (length items + 0) (o + 0) (omega arith) in
      rw (inside, pos-pos_add o limit, wrap64-pos (o + limit) fits)
        (elim (Bool-cases (ltb (length items + 0) (o + limit + 0))) [
          | inl cut ↦ rw cut (
              slice-ok o (length items) (omega arith) (omega arith)
              ∙ rw (
                take_all (length items) items (omega arith),
                take_all limit (drop o items) (ground (arith, length-drop o items)),
              ))
          | inr whole ↦ rw whole (
              slice-ok o (o + limit) (omega arith) (ground arith)
              ∙ rw (drop-take o limit (o + limit) items refl))
        ])

  module _ (p limit : ℕ) (page_fits : p < 2 ^ 63) where
    -- Page `p + 1` of `limit` items is the next `limit` items behind the first `p * limit`, as long
    -- as that product is within an `int`, and the list is no longer than 2 ^ 62.
    pub page_lem :
        limit < 2 ^ 63
        → length items ≤ 2 ^ 62
        → p * limit < 2 ^ 63
        → paginate_slice items (calculate_offset (pos (suc p)) (pos limit)) (pos limit)
          ≡ returns (take limit (drop (p * limit) items))
    page_lem limit_fits short fits =
        rw (offset_lem p limit page_fits, wrap64-pos (p * limit) fits)
          (elim (Bool-cases (leb (length items) (p * limit))) [
            | inl behind ↦ paginate-behind (p * limit) limit (ground arith)
            | inr inside ↦
                paginate-inside (p * limit) limit (ground arith)
                  (end_fits p limit (length items) limit_fits short (ground arith)) short
          ])

    -- With a product from 2 ^ 63 up to 2 ^ 64 the offset is negative, and taking the slice panics,
    -- whatever the list holds.
    pub page_overflow :
        2 ^ 63 ≤ p * limit
        → p * limit < 2 ^ 64
        → paginate_slice items (calculate_offset (pos (suc p)) (pos limit)) (pos limit) ≡ panics
    unfolding paginate_slice slice
    page_overflow low high =
        let (m, e) = wrap64-negative (p * limit) low high in
        rw (offset_lem p limit page_fits, e) (ground arith)

  -- The first `k` pages, one behind the other.
  pub collect : ℕ → ℕ → Go (List A)
  collect zero limit = returns []
  collect (suc k) limit = do
    xs ← collect k limit
    ys ← paginate_slice items (calculate_offset (pos (suc k)) (pos limit)) (pos limit)
    returns (xs ++ ys)

  -- For a positive limit, with `k * limit` within an `int` and a list no longer than 2 ^ 62, the
  -- first `k` pages together are the first `k * limit` items: no item is left out, and none comes
  -- twice. So enough pages give the whole list.
  pub collect_lem :
      (k limit : ℕ)
      → 0 < limit
      → limit < 2 ^ 63
      → length items ≤ 2 ^ 62
      → k * limit < 2 ^ 63
      → collect k limit ≡ returns (take (k * limit) items)
  unfolding collect
  collect_lem zero limit h l short fits = let e : 0 * limit ≡ 0 = omega arith in rw e
  collect_lem (suc k) limit h l short fits = rw (
    collect_lem k limit h l short (omega arith),
    page_lem k limit (grind arith) l short (omega arith),
    take-add (k * limit) limit (suc k * limit) items (omega arith),
  )

-- ===== src/Metrics/Pagination.antt =====
-- PaginationParams (internal/metrics/interfaces.go), CalculateOffset and PaginateSlice
-- (internal/metrics/implementations.go). Go's `int` is 64 bits wide.
pub mod Pages
use message_queue.Prelude.{
  ℕ, zero, suc, ◌+◌, ◌-◌, ◌*◌, ◌^◌, ◌≤◌, ◌<◌, ◌≡◌, refl, sym, ◌∙◌, ap, inl, inr, Bool, true, false,
  ◌&&◌, Option, none, some, List, [], ◌∷◌, ◌++◌, length, take, drop, append-nil, take_all, drop_all,
  length-drop, length-take, arith, ltb, leb, Bool-cases, if◌then◌else◌,
}
use message_queue.Prelude.Go.{Go, returns, panics}
use message_queue.Prelude.Int.{
  ℤ, pos, negsuc, pos_part, neg_part, sub_ℕ, ◌+ℤ◌, ◌-ℤ◌, ◌*ℤ◌, ◌≤ℤ◌, leb_ℤ, ltb_ℤ, wrap64,
  wrap64-eq_of_IsInt64, IsInt64,
}

pub record PaginationParams : Type 0 where
  pub limit : ℤ
  pub page : ℤ

-- ErrInvalidLimit, ErrInvalidPage, ErrInvalidGPUID, ErrInvalidTime.
pub data MetricsError : Type 0 where
  invalid_limit invalid_page invalid_gpu_id invalid_time : MetricsError

unfoldable pub validate : PaginationParams → Option MetricsError
validate p =
    if leb_ℤ p.limit (pos 0)
    then some invalid_limit
    else if leb_ℤ p.page (pos 0)
    then some invalid_page
    else none

-- Each of the two operations wraps around.
unfoldable pub calculate_offset : ℤ → ℤ → ℤ
calculate_offset page limit = wrap64 (wrap64 (page -ℤ pos 1) *ℤ limit)

-- `items[lo:hi]`, which panics unless 0 ≤ lo ≤ hi ≤ len. (The capacity of a slice may be larger than
-- its length; here `hi` is at most the length.)
slice {ℓ} : {A : Type ℓ} → List A → ℤ → ℤ → Go (List A)
slice items (pos lo) (pos hi) =
    if leb lo hi && leb hi (length items) then returns (drop lo (take hi items)) else panics
slice items _ _ = panics

module _ {ℓ} {A : Type ℓ} where
  pub paginate_slice : List A → ℤ → ℤ → Go (List A)
  unfolding slice
  paginate_slice items offset limit =
      let n = pos (length items) in
      let end = wrap64 (offset +ℤ limit) in
      if leb_ℤ n offset then returns [] else slice items offset (if ltb_ℤ n end then n else end)

-- ===== src/Metrics/Query/Asked.antt =====
-- What the parameters of a query ask for (DefaultQueryParser, internal/metrics/implementations.go).
use message_queue.Prelude.{
  ℕ, suc, ◌≡◌, refl, ◌≢◌, inl, inr, false, Option, none, some, arith, Bool-cases,
}
use message_queue.Prelude.Int.{ℤ, pos, ltb_ℤ}
use message_queue.Prelude.Text.{Text, codes, text_eq, text_eq_iff, text_eq_refl}
use message_queue.Prelude.Strings.{atoi, to_lower}
use message_queue.Metrics.Sorter.{SortOrder, ascending, descending}
use message_queue.Metrics.Query.{Params, value?, positive_or, parse_int, parse_sort_order}

-- The number that a value asks for: itself if it is positive and fits 64 bits, and else the default.
pub data Number (default : ℤ) : Option Text → ℤ → Type 0 where
  missing : Number default none default
  given : (v : Text) (n : ℕ) → atoi v ≡ some (pos (suc n)) → Number default (some v) (pos (suc n))
  no_number : (v : Text) → atoi v ≡ none → Number default (some v) default
  not_positive :
      (v : Text) (n : ℤ)
      → atoi v ≡ some n
      → ltb_ℤ (pos 0) n ≡ false
      → Number default (some v) default

-- The order that a value asks for: descending for `desc` or `descending` in any case of letters.
pub data Sorting : Option Text → SortOrder → Type 0 where
  missing : Sorting none ascending
  desc : (v : Text) → to_lower v ≡ codes "desc" → Sorting (some v) descending
  in_full : (v : Text) → to_lower v ≡ codes "descending" → Sorting (some v) descending
  any_other :
      (v : Text)
      → to_lower v ≢ codes "desc"
      → to_lower v ≢ codes "descending"
      → Sorting (some v) ascending

positive_or-positive :
    (n : ℕ) (default : ℤ) → positive_or (some (pos (suc n))) default ≡ pos (suc n)
positive_or-positive n default = ground arith

longer : text_eq (codes "descending") (codes "desc") ≡ false
unfolding text_eq
longer = refl

pub parse_int-Number :
    (params : Params) (key : Text) (default n : ℤ) (x : Option Text)
    → value? params key ≡ x
    → Number default x n
    → parse_int params key default ≡ n
unfolding parse_int
parse_int-Number params key default n x at missing = rw (at, parse_int)
parse_int-Number params key default n x at (given v k e) =
    rw (at, parse_int, e) (positive_or-positive k default)
parse_int-Number params key default n x at (no_number v e) = rw (at, parse_int, e)
parse_int-Number params key default n x at (not_positive v k e low) = rw (at, parse_int, e, low)

differs : (s t : Text) → s ≢ t → text_eq s t ≡ false
differs s t h = elim (Bool-cases (text_eq s t)) [
  | inl same ↦ absurd (h ((text_eq_iff s t).0 same))
  | inr other ↦ other
]

pub parse_sort_order-Sorting :
    (params : Params) (key : Text) (o : SortOrder) (x : Option Text)
    → value? params key ≡ x
    → Sorting x o
    → parse_sort_order params key ascending ≡ o
unfolding parse_sort_order
parse_sort_order-Sorting params key o x at missing = rw (at, parse_sort_order)
parse_sort_order-Sorting params key o x at (desc v e) =
    rw (at, parse_sort_order, e, text_eq_refl (codes "desc"))
parse_sort_order-Sorting params key o x at (in_full v e) =
    rw (at, parse_sort_order, e, longer, text_eq_refl (codes "descending"))
parse_sort_order-Sorting params key o x at (any_other v a b) = rw (
  at,
  parse_sort_order,
  differs (to_lower v) (codes "desc") a,
  differs (to_lower v) (codes "descending") b,
)

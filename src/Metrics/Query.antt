-- ===== src/Metrics/Query.antt =====
-- DefaultQueryParser (internal/metrics/implementations.go).
pub mod Asked
use message_queue.Prelude.{◌||◌, Option, none, some, List, [], ◌∷◌, arith, if◌then◌else◌}
use message_queue.Prelude.Int.{ℤ, pos, ltb_ℤ, ◌<ℤ◌}
use message_queue.Prelude.Text.{Text, codes, text_eq}
use message_queue.Prelude.Dict.{Dict, get}
use message_queue.Prelude.Strings.{atoi, to_lower}
use message_queue.Metrics.Sorter.{SortOrder, ascending, descending}

-- `map[string][]string`.
abbrev pub Params : Type 0
Params = Dict (List Text)

-- The first value of a parameter, if it has one.
abbrev first_of_values : Option (List Text) → Option Text
first_of_values none = none
first_of_values (some []) = none
first_of_values (some (v ∷ vs)) = some v

unfoldable pub value? : Params → Text → Option Text
value? params key = first_of_values (get params key)

abbrev pub positive_or : Option ℤ → ℤ → ℤ
positive_or none default = default
positive_or (some n) default = if ltb_ℤ (pos 0) n then n else default

unfoldable pub parse_int : Params → Text → ℤ → ℤ
parse_int params key default = elim (value? params key) [
  | none ↦ default
  | some v ↦ positive_or (atoi v) default
]

unfoldable pub parse_sort_order : Params → Text → SortOrder → SortOrder
parse_sort_order params key default = elim (value? params key) [
  | none ↦ default
  | some v ↦
      if text_eq (to_lower v) (codes "desc") || text_eq (to_lower v) (codes "descending")
      then descending
      else ascending
]

-- Not provided, a time, or ErrInvalidTime.
pub data TimeParam (Time : Type 0) : Type 0 where
  absent : TimeParam Time
  at : Time → TimeParam Time
  invalid : TimeParam Time

abbrev try_formats : {Time : Type 0} → Option Time → Option Time → TimeParam Time
try_formats (some t) second = at t
try_formats none (some t) = at t
try_formats none none = invalid

-- `parse_nano` and `parse_rfc3339` are `time.Parse` with the two layouts.
module _ {Time : Type 0} (parse_nano parse_rfc3339 : Text → Option Time) where
  unfoldable pub parse_time_param : Params → Text → TimeParam Time
  parse_time_param params key = elim (value? params key) [
    | none ↦ absent
    | some v ↦ try_formats (parse_nano v) (parse_rfc3339 v)
  ]

-- A number from the query is positive if the default is: zero, negative numbers, what is no number
-- and what does not fit 64 bits all give the default.
pub parse_int-positive :
    (params : Params) (key : Text) (default : ℤ)
    → pos 0 <ℤ default
    → pos 0 <ℤ parse_int params key default
unfolding parse_int
parse_int-positive params key default h = ground arith

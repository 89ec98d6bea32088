-- ===== src/Producer/Transformer.antt =====
-- RowTransformer and TransformRowWithRaw (internal/producer/transformers.go). `now` is the text of
-- the current time.
pub mod Effect
use message_queue.Prelude.{
  ℕ, suc, ◌+◌, ◌≡◌, refl, ◌∙◌, inl, inr, ◌≢◌, Bool, true, false, not, ◌&&◌, ◌||◌, Option, none,
  some, List, [], ◌∷◌, arith, ◌==◌, Bool-cases, if◌then◌else◌,
}
use message_queue.Prelude.Int.{ℤ, pos, negsuc, leb_ℤ, pos_part, neg_part}
use message_queue.Prelude.Text.{Text, codes, text_eq, text_eq_iff, is_empty}
use message_queue.Prelude.Dict.{Dict, get, put, HasNot, IsDict, get-put, get-HasNot}
use message_queue.Producer.CsvReader.{MetricsCsvReader, find_column_index, field_at}
use message_queue.Producer.Labels.{parse_labels}

-- A value of a payload.
pub data Value : Type 0 where
  text : Text → Value
  labels : Dict Text → Value

abbrev pub Payload : Type 0
Payload = Dict Value

pub record RowTransformer : Type 0 where
  pub ts_column_idx : ℤ
  pub labels_column_idx : ℤ

-- An empty name asks for no transformation.
abbrev index_of : MetricsCsvReader → Text → ℤ
index_of r [] = negsuc 0
index_of r (c ∷ name) = find_column_index r (c ∷ name)

unfoldable pub new_row_transformer : MetricsCsvReader → Text → Text → RowTransformer
new_row_transformer r ts_name labels_name = record {
  ts_column_idx = index_of r ts_name;
  labels_column_idx = index_of r labels_name;
}

-- The code's helper, which knows no names of columns.
pub get_column_name_by_index : Dict Text → ℤ → Text
get_column_name_by_index row idx = []

-- Whether a column is the one with an index.
abbrev is_column : Dict Text → ℤ → Text → Bool
is_column row idx name = leb_ℤ (pos 0) idx && text_eq name (get_column_name_by_index row idx)

-- The value that a column gets, if any. `row` is the whole row.
pub transform_column : RowTransformer → Text → Dict Text → Text → Text → Option Value
transform_column t now row name val =
    if is_empty val && not (text_eq name (codes "timestamp"))
    then none
    else if is_column row t.ts_column_idx name
    then some (text now)
    else if is_column row t.labels_column_idx name
    then some (if is_empty val then labels [] else labels (parse_labels val))
    else some (text val)

abbrev put_some : Payload → Text → Option Value → Payload
put_some p name none = p
put_some p name (some v) = put p name v

-- The loop over the row, in the order of the association list: each name comes once, so another
-- order gives the same map.
pub transform_loop : RowTransformer → Text → Dict Text → Payload → Dict Text → Payload
transform_loop t now row p [] = p
transform_loop t now row p ((name, val) ∷ rest) =
    transform_loop t now row (put_some p name (transform_column t now row name val)) rest

pub transform_row : RowTransformer → Text → Dict Text → Payload
transform_row t now row = transform_loop t now row [] row

-- The value that the column number `i` gets in `TransformRowWithRaw`.
pub raw_column : Text → ℤ → ℤ → ℕ → Text → Option Value
raw_column now ts_idx labels_idx i val =
    if leb_ℤ (pos i) ts_idx && leb_ℤ ts_idx (pos i)
    then some (text now)
    else if leb_ℤ (pos i) labels_idx && leb_ℤ labels_idx (pos i) && not (is_empty val)
    then some (labels (parse_labels val))
    else if not (is_empty val)
    then some (text val)
    else none

pub raw_loop : Text → ℤ → ℤ → ℕ → Payload → List Text → List Text → Payload
raw_loop now ts_idx labels_idx i p [] fields = p
raw_loop now ts_idx labels_idx i p (col ∷ header) [] =
    raw_loop now ts_idx labels_idx (suc i) (put_some p col (raw_column now ts_idx labels_idx i []))
      header []
raw_loop now ts_idx labels_idx i p (col ∷ header) (f ∷ fields) =
    raw_loop now ts_idx labels_idx (suc i) (put_some p col (raw_column now ts_idx labels_idx i f))
      header fields

pub transform_row_with_raw : Text → List Text → List Text → ℤ → ℤ → Payload
transform_row_with_raw now header fields ts_idx labels_idx =
    raw_loop now ts_idx labels_idx 0 [] header fields

-- ===== src/Producer/CsvReader.antt =====
-- MetricsCSVReader (internal/producer/csv_reader.go). What `encoding/csv` answers, call after call,
-- is a list of reads; behind its end comes io.EOF.
use message_queue.Prelude.{
  ℕ, zero, suc, ◌+◌, ◌≡◌, refl, ◌∙◌, Bool, true, false, not, Option, none, some, List, [], ◌∷◌,
  get_elem?, arith, if◌then◌else◌,
}
use message_queue.Prelude.Int.{ℤ, pos, negsuc}
use message_queue.Prelude.Text.{Text, text_eq}
use message_queue.Prelude.Dict.{Dict, get, put, IsDict, get-put, get-put_self, put-IsDict}
use message_queue.Prelude.Strings.{equal_fold}

-- A record, or an error that is not EOF.
pub data CsvRead : Type 0 where
  fields_read : List Text → CsvRead
  csv_error : ℕ → CsvRead

pub record MetricsCsvReader : Type 0 where
  pub reads : List CsvRead
  pub header : List Text
  pub row_num : ℕ
  pub has_error : Bool
  pub last_error : Option ℕ

-- Why there is no reader.
pub data OpenError : Type 0 where
  cannot_open no_header no_columns : OpenError

pub data Opened : Type 0 where
  opened : MetricsCsvReader → Opened
  not_opened : OpenError → Opened

-- `none` is a file that cannot be opened.
unfoldable pub new_metrics_csv_reader : Option (List CsvRead) → Opened
new_metrics_csv_reader none = not_opened cannot_open
new_metrics_csv_reader (some []) = not_opened no_header
new_metrics_csv_reader (some (csv_error e ∷ reads)) = not_opened no_header
new_metrics_csv_reader (some (fields_read [] ∷ reads)) = not_opened no_columns
new_metrics_csv_reader (some (fields_read (h ∷ hs) ∷ reads)) =
    opened
      (record { reads = reads; header = h ∷ hs; row_num = 0; has_error = false; last_error = none })

-- A copy of the header, which a caller can change without changing the reader's.
pub get_header : MetricsCsvReader → List Text
get_header r = r.header

unfoldable pub has_next_row : MetricsCsvReader → Bool
has_next_row r = not r.has_error

-- io.EOF, an error of the CSV library with the number of rows before it, or a reader that has met an
-- error before.
pub data RowError : Type 0 where
  end_of_file : RowError
  read_failed : ℕ → ℕ → RowError
  error_state : Option ℕ → RowError

pub data Row (A : Type 0) : Type 0 where
  row : A → Row A
  no_row : RowError → Row A

-- The reader behind a read of `reads`.
abbrev read_from : List CsvRead → MetricsCsvReader → MetricsCsvReader × Row (List Text)
read_from [] r = (record r { has_error = true }, no_row end_of_file)
read_from (csv_error e ∷ reads) r = (
  record r { reads = reads; has_error = true; last_error = some e },
  no_row (read_failed r.row_num e),
)
read_from (fields_read fields ∷ reads) r =
    (record r { reads = reads; row_num = r.row_num + 1 }, row fields)

unfoldable pub get_raw_row : MetricsCsvReader → MetricsCsvReader × Row (List Text)
get_raw_row r = if r.has_error then (r, no_row (error_state r.last_error)) else read_from r.reads r

-- The map of a record: a missing field is empty, and of two columns with one name the last counts.
pub fill_row : Dict Text → List Text → List Text → Dict Text
fill_row m [] fields = m
fill_row m (col ∷ header) [] = fill_row (put m col []) header []
fill_row m (col ∷ header) (field ∷ fields) = fill_row (put m col field) header fields

abbrev to_map : List Text → MetricsCsvReader × Row (List Text) → MetricsCsvReader × Row (Dict Text)
to_map header (r, row fields) = (r, row (fill_row [] header fields))
to_map header (r, no_row e) = (r, no_row e)

-- The code of GetRawRow, and then the map.
unfoldable pub get_next_row : MetricsCsvReader → MetricsCsvReader × Row (Dict Text)
get_next_row r = to_map r.header (get_raw_row r)

pub row_count : MetricsCsvReader → ℕ
row_count r = r.row_num

-- The file and the reader of a `MetricsCSVReader` are never nil.
pub is_valid : MetricsCsvReader → Bool
is_valid r = not r.has_error

abbrev next_index : Option ℕ → Option ℕ
next_index none = none
next_index (some i) = some (suc i)

-- The index of the first column with a name, up to case.
pub column? : List Text → Text → Option ℕ
column? [] name = none
column? (col ∷ header) name =
    let later = next_index (column? header name) in if equal_fold col name then some 0 else later

abbrev index_or : Option ℕ → ℤ
index_or none = negsuc 0
index_or (some i) = pos i

pub find_column_index : MetricsCsvReader → Text → ℤ
find_column_index r name = index_or (column? r.header name)

-- Once a read has failed, the reader stays in its state: no row is left, and every read is refused.
get_next_row-error_state :
    (r : MetricsCsvReader)
    → r.has_error ≡ true
    → (get_next_row r ≡ (r, no_row (error_state r.last_error)))
      × (has_next_row r ≡ false)
      × (is_valid r ≡ false)
unfolding get_next_row get_raw_row has_next_row is_valid
get_next_row-error_state r h = ground arith

-- The value under a column's index, where the record may be too short.
abbrev pub field_at : List Text → ℕ → Text
field_at [] i = []
field_at (f ∷ fields) zero = f
field_at (f ∷ fields) (suc i) = field_at fields i

abbrev pub NotIn : Text → List Text → Type 0
NotIn name [] = Unit {0}
NotIn name (col ∷ header) = (text_eq col name ≡ false) × NotIn name header

abbrev pub AreDistinct : List Text → Type 0
AreDistinct [] = Unit {0}
AreDistinct (col ∷ header) = NotIn col header × AreDistinct header

get-fill_row_other :
    (m : Dict Text) (header fields : List Text) (name : Text)
    → NotIn name header
    → get (fill_row m header fields) name ≡ get m name
unfolding fill_row
get-fill_row_other m [] fields name h = refl
get-fill_row_other m (col ∷ header) [] name h =
    get-fill_row_other (put m col []) header [] name h.1 ∙ rw (get-put m col name [], h.0)
get-fill_row_other m (col ∷ header) (f ∷ fields) name h =
    get-fill_row_other (put m col f) header fields name h.1 ∙ rw (get-put m col name f, h.0)

-- The row map gives, under the name of the column number `i`, the field number `i` of the record,
-- and the empty text where the record is too short, if the names of the columns differ.
pub get-fill_row :
    (m : Dict Text) (header fields : List Text) (i : ℕ) (name : Text)
    → AreDistinct header
    → get_elem? header i ≡ some name
    → get (fill_row m header fields) name ≡ some (field_at fields i)
unfolding fill_row
get-fill_row m [] fields i name d h = cc
get-fill_row m (col ∷ header) [] zero name d h =
    let e : name ≡ col = cc h in
    rw e (get-fill_row_other (put m col []) header [] col d.0 ∙ get-put_self m col [])
get-fill_row m (col ∷ header) [] (suc i) name d h =
    get-fill_row (put m col []) header [] i name d.1 h
get-fill_row m (col ∷ header) (f ∷ fields) zero name d h =
    let e : name ≡ col = cc h in
    rw e (get-fill_row_other (put m col f) header fields col d.0 ∙ get-put_self m col f)
get-fill_row m (col ∷ header) (f ∷ fields) (suc i) name d h =
    get-fill_row (put m col f) header fields i name d.1 h

fill_row-IsDict :
    (m : Dict Text) (header fields : List Text) → IsDict m → IsDict (fill_row m header fields)
unfolding fill_row
fill_row-IsDict m [] fields d = d
fill_row-IsDict m (col ∷ header) [] d =
    fill_row-IsDict (put m col []) header [] (put-IsDict m col [] d)
fill_row-IsDict m (col ∷ header) (f ∷ fields) d =
    fill_row-IsDict (put m col f) header fields (put-IsDict m col f d)

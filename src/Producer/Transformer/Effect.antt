-- ===== src/Producer/Transformer/Effect.antt =====
-- What the two transformers do to the columns of a row.
use message_queue.Prelude.{
  ℕ, zero, suc, ◌+◌, ◌≡◌, refl, ◌∙◌, inl, inr, Bool, true, false, not, ◌&&◌, Option, none, some,
  List, [], ◌∷◌, get_elem?, arith, Bool-cases, if◌then◌else◌,
}
use message_queue.Prelude.Int.{ℤ, pos, leb_ℤ}
use message_queue.Prelude.Text.{Text, codes, text_eq, text_eq_iff, text_eq_refl, is_empty}
use message_queue.Prelude.Dict.{Dict, get, IsDict, get-put, get-HasNot}
use message_queue.Producer.CsvReader.{field_at, NotIn, AreDistinct}
use message_queue.Producer.Transformer.{
  Value, text, Payload, RowTransformer, is_column, get_column_name_by_index, transform_column,
  put_some, transform_loop, transform_row, raw_column, raw_loop, transform_row_with_raw,
}

-- What `TransformRow` does to a column with a name: nothing, but that empty values are left out.
abbrev pub as_is : Text → Text → Option Value
as_is name val =
    if is_empty val && not (text_eq name (codes "timestamp")) then none else some (text val)

and-false : (b : Bool) → (b && false) ≡ false
and-false true = refl
and-false false = refl

not-is_column :
    (row : Dict Text) (idx : ℤ) (name : Text)
    → is_empty name ≡ false
    → is_column row idx name ≡ false
unfolding get_column_name_by_index text_eq
not-is_column row idx [] h = cc
not-is_column row idx (c ∷ name) h = and-false (leb_ℤ (pos 0) idx)

transform_column-as_is :
    (t : RowTransformer) (now : Text) (row : Dict Text) (name val : Text)
    → is_empty name ≡ false
    → transform_column t now row name val ≡ as_is name val
unfolding transform_column
transform_column-as_is t now row name val h =
    rw (not-is_column row t.ts_column_idx name h, not-is_column row t.labels_column_idx name h)

abbrev or_get : Option Value → Option Value → Option Value
or_get none q = q
or_get (some v) q = some v

get-put_some :
    (p : Payload) (name col : Text) (v : Option Value)
    → get (put_some p name v) col ≡ (if text_eq name col then or_get v (get p col) else get p col)
get-put_some p name col none = ground arith
get-put_some p name col (some v) = get-put p name col v

-- The value of a column that the row has.
abbrev pub and_then_as_is : Text → Option Text → Option Value
and_then_as_is col none = none
and_then_as_is col (some val) = as_is col val

or_get-none : (v : Option Value) → or_get v none ≡ v
or_get-none none = refl
or_get-none (some v) = refl

get-transform_loop :
    (t : RowTransformer) (now : Text) (row : Dict Text) (p : Payload) (rest : Dict Text)
    (col : Text)
    → is_empty col ≡ false
    → IsDict rest
    → get (transform_loop t now row p rest) col
      ≡ or_get (and_then_as_is col (get rest col)) (get p col)
unfolding transform_loop get
get-transform_loop t now row p [] col h d = refl
get-transform_loop t now row p ((name, val) ∷ rest) col h d =
    let v = transform_column t now row name val in
    get-transform_loop t now row (put_some p name v) rest col h d.1
    ∙ elim (Bool-cases (text_eq name col)) [
      | inr other ↦ rw (other, get-put_some p name col v, other)
      | inl same ↦
          let e : name ≡ col = (text_eq_iff name col).0 same in
          let absent : get rest col ≡ none = get-HasNot rest col (rw e at d.0) in
          let here : transform_column t now row name val ≡ as_is col val =
            rw e (transform_column-as_is t now row col val h) in
          rw (same, get-put_some p name col v, same, absent, here)
    ]

-- `TransformRow` transforms nothing. Whatever columns it was made for, and whatever the time, a
-- column whose name is not empty keeps its text, also the timestamp and the labels; only empty
-- values are left out, but for a column named timestamp.
pub get-transform_row :
    (t : RowTransformer) (now : Text) (row : Dict Text) (col : Text)
    → is_empty col ≡ false
    → IsDict row
    → get (transform_row t now row) col ≡ and_then_as_is col (get row col)
unfolding transform_row get
get-transform_row t now row col h d =
    get-transform_loop t now row [] row col h d ∙ or_get-none (and_then_as_is col (get row col))

-- The columns behind the number `i` do not touch a name that is not among them.
get-raw_loop_other :
    (now : Text) (ts ls : ℤ) (i : ℕ) (p : Payload) (header fields : List Text) (name : Text)
    → NotIn name header
    → get (raw_loop now ts ls i p header fields) name ≡ get p name
unfolding raw_loop
get-raw_loop_other now ts ls i p [] fields name h = refl
get-raw_loop_other now ts ls i p (col ∷ header) [] name h =
    let v = raw_column now ts ls i [] in
    get-raw_loop_other now ts ls (suc i) (put_some p col v) header [] name h.1
    ∙ rw (get-put_some p col name v, h.0)
get-raw_loop_other now ts ls i p (col ∷ header) (f ∷ fields) name h =
    let v = raw_column now ts ls i f in
    get-raw_loop_other now ts ls (suc i) (put_some p col v) header fields name h.1
    ∙ rw (get-put_some p col name v, h.0)

put_column :
    (now : Text) (ts ls : ℤ) (k n : ℕ) (p : Payload) (header rest : List Text) (col name f : Text)
    → k ≡ n
    → name ≡ col
    → NotIn col header
    → get (raw_loop now ts ls (suc k) (put_some p col (raw_column now ts ls k f)) header rest) name
      ≡ or_get (raw_column now ts ls n f) (get p name)
put_column now ts ls k n p header rest col name f hk hn d =
    let v = raw_column now ts ls k f in
    rw (hn, ← hk)
      (get-raw_loop_other now ts ls (suc k) (put_some p col v) header rest col d
        ∙ rw (get-put_some p col col v, text_eq_refl col))

next_column :
    (p : Payload) (col name : Text) (v w : Option Value)
    → text_eq col name ≡ false
    → or_get w (get (put_some p col v) name) ≡ or_get w (get p name)
next_column p col name v w h = rw (get-put_some p col name v, h)

get_elem?-NotIn :
    (header : List Text) (i : ℕ) (col name : Text)
    → NotIn col header
    → get_elem? header i ≡ some name
    → text_eq col name ≡ false
get_elem?-NotIn [] i col name d h = cc
get_elem?-NotIn (x ∷ header) zero col name d h =
    let e : x ≡ name = cc h in ground (arith, text_eq_iff x col, text_eq_iff col name)
get_elem?-NotIn (x ∷ header) (suc i) col name d h = get_elem?-NotIn header i col name d.1 h

get-raw_loop :
    (now : Text) (ts ls : ℤ) (k n : ℕ) (p : Payload) (header fields : List Text) (i : ℕ)
    (name : Text)
    → n ≡ k + i
    → AreDistinct header
    → get_elem? header i ≡ some name
    → get (raw_loop now ts ls k p header fields) name
      ≡ or_get (raw_column now ts ls n (field_at fields i)) (get p name)
unfolding raw_loop
get-raw_loop now ts ls k n p [] fields i name hn d h = cc
get-raw_loop now ts ls k n p (col ∷ header) [] zero name hn d h =
    put_column now ts ls k n p header [] col name [] (omega arith) (cc h) d.0
get-raw_loop now ts ls k n p (col ∷ header) (f ∷ fields) zero name hn d h =
    put_column now ts ls k n p header fields col name f (omega arith) (cc h) d.0
get-raw_loop now ts ls k n p (col ∷ header) [] (suc i) name hn d h =
    get-raw_loop now ts ls (suc k) n (put_some p col (raw_column now ts ls k [])) header [] i name
      (omega arith) d.1 h
    ∙ next_column p col name (raw_column now ts ls k []) (raw_column now ts ls n [])
        (get_elem?-NotIn header i col name d.0 h)
get-raw_loop now ts ls k n p (col ∷ header) (f ∷ fields) (suc i) name hn d h =
    get-raw_loop now ts ls (suc k) n (put_some p col (raw_column now ts ls k f)) header fields i
      name (omega arith) d.1 h
    ∙ next_column p col name (raw_column now ts ls k f) (raw_column now ts ls n (field_at fields i))
        (get_elem?-NotIn header i col name d.0 h)

-- `TransformRowWithRaw` decides about each column by its index: the time for the timestamp column,
-- the parsed labels for a labels column that is not empty, and the text of any other that is not
-- empty; other columns are left out. The names of the columns have to differ.
pub get-transform_row_with_raw :
    (now : Text) (ts ls : ℤ) (header fields : List Text) (i : ℕ) (name : Text)
    → AreDistinct header
    → get_elem? header i ≡ some name
    → get (transform_row_with_raw now header fields ts ls) name
      ≡ raw_column now ts ls i (field_at fields i)
unfolding transform_row_with_raw get
get-transform_row_with_raw now ts ls header fields i name d h =
    get-raw_loop now ts ls 0 i [] header fields i name (omega arith) d h
    ∙ or_get-none (raw_column now ts ls i (field_at fields i))

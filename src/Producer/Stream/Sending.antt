-- ===== src/Producer/Stream/Sending.antt =====
-- What the producer sends for a file of good rows.
use message_queue.Prelude.{
  ℕ, zero, suc, ◌+◌, ◌-◌, ◌≤◌, ◌<◌, ◌≡◌, refl, ap, ◌∙◌, true, false, inl, inr, Option, none, some,
  List, [], ◌∷◌, append-nil, length, arith, Option-cases,
}
use message_queue.Prelude.Text.{Text}
use message_queue.Prelude.Dict.{Dict}
use message_queue.Protocol.{Bytes, Sink}
use message_queue.Protocol.RoundTrip.{frame, length-frame, write_frame-ok}
use message_queue.Broker.Producing.{frames}
use message_queue.Broker.Consuming.{after_frames, after_frames-cons, length-frames_cons}
use message_queue.Message.{Json, Message}
use message_queue.Producer.CsvReader.{
  CsvRead, fields_read, end_of_file, no_row, MetricsCsvReader, Row, row, fill_row, has_next_row,
  get_next_row, get_raw_row, new_metrics_csv_reader,
}
use message_queue.Producer.Transformer.{Payload, RowTransformer, transform_row, new_row_transformer}
use message_queue.Producer.Stream.{
  Draw, StreamError, streamed, metric_message, stream, stream_loop, stream_csv_metrics,
}

-- The reads of a file of records.
abbrev pub reads_of : List (List Text) → List CsvRead
reads_of [] = []
reads_of (fields ∷ rows) = fields_read fields ∷ reads_of rows

has_next : (r : MetricsCsvReader) → r.has_error ≡ false → has_next_row r ≡ true
unfolding has_next_row
has_next r h = ground arith

next_row :
    (r : MetricsCsvReader) (fields : List Text) (rest : List CsvRead)
    → r.has_error ≡ false
    → r.reads ≡ fields_read fields ∷ rest
    → get_next_row r
      ≡ (record r { reads = rest; row_num = r.row_num + 1 }, row (fill_row [] r.header fields))
unfolding get_next_row get_raw_row
next_row r fields rest h k = ground arith

last_row :
    (r : MetricsCsvReader)
    → r.has_error ≡ false
    → r.reads ≡ []
    → (get_next_row r).1 ≡ no_row end_of_file
unfolding get_next_row get_raw_row
last_row r h k = ground arith

stream-ok :
    {J Time : Type 0} (marshal_message : Message J Time → Option Bytes) (m : Message J Time)
    (body : Bytes) (w : Sink)
    → marshal_message m ≡ some body
    → 4 + length body ≤ w.room
    → stream marshal_message m w ≡ (none, after_frames w (body ∷ []))
unfolding stream
stream-ok marshal_message m body w h k =
    rw (h, stream, write_frame-ok w body k, append-nil (frame body))

module _ {J Time : Type 0} (marshal_payload : Payload → Option (Json J))
    (marshal_message : Message J Time → Option Bytes) (draw : ℕ → Draw Time) where
  skip_step :
      (fuel i count : ℕ) (t : RowTransformer) (r r' : MetricsCsvReader) (w : Sink)
      (fields : Dict Text)
      → r.has_error ≡ false
      → get_next_row r ≡ (r', row fields)
      → marshal_payload (transform_row t (draw i).time_text fields) ≡ none
      → stream_loop marshal_payload marshal_message draw (suc fuel) i count t r w
        ≡ stream_loop marshal_payload marshal_message draw fuel (suc i) count t r' w
  unfolding stream_loop
  skip_step fuel i count t r r' w fields h k l =
      rw (has_next r h, stream_loop, k, l)
        (ap
          (λ (x : MetricsCsvReader × Row (Dict Text)).
            stream_loop marshal_payload marshal_message draw fuel (suc i) count t x.0 w)
          k)

  sent_step :
      (fuel i count : ℕ) (t : RowTransformer) (r r' : MetricsCsvReader) (w w' : Sink)
      (fields : Dict Text) (j : Json J)
      → r.has_error ≡ false
      → get_next_row r ≡ (r', row fields)
      → marshal_payload (transform_row t (draw i).time_text fields) ≡ some j
      → stream marshal_message (metric_message (draw i) j) w ≡ (none, w')
      → stream_loop marshal_payload marshal_message draw (suc fuel) i count t r w
        ≡ stream_loop marshal_payload marshal_message draw fuel (suc i) (count + 1) t r' w'
  unfolding stream_loop
  sent_step fuel i count t r r' w w' fields j h k l m =
      rw (has_next r h, stream_loop, k, l, m)
        (ap
            (λ (x : MetricsCsvReader × Row (Dict Text)).
              stream_loop marshal_payload marshal_message draw fuel (suc i) (count + 1) t x.0
                (stream marshal_message (metric_message (draw i) j) w).1)
            k
          ∙ ap
              (λ (x : Option StreamError × Sink).
                stream_loop marshal_payload marshal_message draw fuel (suc i) (count + 1) t r' x.1)
              m)

  last_step :
      (fuel i count : ℕ) (t : RowTransformer) (r : MetricsCsvReader) (w : Sink)
      → r.has_error ≡ false
      → r.reads ≡ []
      → stream_loop marshal_payload marshal_message draw (suc fuel) i count t r w ≡ streamed count w
  unfolding stream_loop
  last_step fuel i count t r w h k = rw (has_next r h, stream_loop, last_row r h k)

-- The reader behind the header of such a file.
abbrev pub reader_of : List Text → List (List Text) → MetricsCsvReader
reader_of header rows = record {
  reads = reads_of rows;
  header = header;
  row_num = 0;
  has_error = false;
  last_error = none;
}

module _ {J Time : Type 0} (marshal_payload : Payload → Option (Json J))
    (body : Message J Time → Bytes) (draw : ℕ → Draw Time) where
  -- The bodies of the messages for the records, from round `i`; a record whose payload cannot be
  -- marshalled is left out.
  unfoldable pub bodies : ℕ → RowTransformer → List Text → List (List Text) → List Bytes
  bodies i t header [] = []
  bodies i t header (fields ∷ rows) =
      elim (marshal_payload (transform_row t (draw i).time_text (fill_row [] header fields))) [
        | none ↦ bodies (suc i) t header rows
        | some j ↦ body (metric_message (draw i) j) ∷ bodies (suc i) t header rows
      ]

  bodies-skip :
      (i : ℕ) (t : RowTransformer) (header fields : List Text) (rows : List (List Text))
      → marshal_payload (transform_row t (draw i).time_text (fill_row [] header fields)) ≡ none
      → bodies i t header (fields ∷ rows) ≡ bodies (suc i) t header rows
  unfolding bodies
  bodies-skip i t header fields rows h = ground (arith, h)

  bodies-sent :
      (i : ℕ) (t : RowTransformer) (header fields : List Text) (rows : List (List Text))
      (j : Json J)
      → marshal_payload (transform_row t (draw i).time_text (fill_row [] header fields)) ≡ some j
      → bodies i t header (fields ∷ rows)
        ≡ body (metric_message (draw i) j) ∷ bodies (suc i) t header rows
  unfolding bodies
  bodies-sent i t header fields rows j h = ground (arith, h)

  stream_loop_rows :
      (marshal_message : Message J Time → Option Bytes)
      → ((m : Message J Time) → marshal_message m ≡ some (body m))
      → (rows : List (List Text)) (fuel i count : ℕ) (t : RowTransformer) (r : MetricsCsvReader)
        (w : Sink)
      → length rows < fuel
      → r.has_error ≡ false
      → r.reads ≡ reads_of rows
      → length (frames (bodies i t r.header rows)) ≤ w.room
      → stream_loop marshal_payload marshal_message draw fuel i count t r w
        ≡ streamed
            (count + length (bodies i t r.header rows))
            (after_frames w (bodies i t r.header rows))
  stream_loop_rows marshal_message total rows zero i count t r w h e reads room =
      absurd (omega arith)
  stream_loop_rows marshal_message total [] (suc fuel) i count t r w h e reads room =
      let c : count + 0 ≡ count = omega arith in
      let k : w.room - 0 ≡ w.room = omega arith in
      last_step marshal_payload marshal_message draw fuel i count t r w e reads
      ∙ unfold bodies in rw (append-nil w.written, c, k)
  stream_loop_rows marshal_message total (fields ∷ rows) (suc fuel) i count t r w h e reads room =
      let r' : MetricsCsvReader = record r { reads = reads_of rows; row_num = r.row_num + 1 } in
      elim (Option-cases
        (marshal_payload (transform_row t (draw i).time_text (fill_row [] r.header fields)))) [
          | inl l ↦
              let same = bodies-skip i t r.header fields rows l in
              skip_step marshal_payload marshal_message draw fuel i count t r r' w
                (fill_row [] r.header fields) e (next_row r fields (reads_of rows) e reads) l
              ∙ rw same (
                  stream_loop_rows marshal_message total rows fuel (suc i) count t r' w
                    (omega arith) e refl (rw same at room))
          | inr (j, l) ↦
              let m = metric_message (draw i) j in
              let rest = bodies (suc i) t r.header rows in
              let more = bodies-sent i t r.header fields rows j l in
              let room' : length (frames (body m ∷ rest)) ≤ w.room = rw more at room in
              let c : count + length (body m ∷ rest) ≡ count + 1 + length rest = omega arith in
              sent_step marshal_payload marshal_message draw fuel i count t r r' w
                (after_frames w (body m ∷ [])) (fill_row [] r.header fields) j e
                (next_row r fields (reads_of rows) e reads) l
                (stream-ok marshal_message m (body m) w (total m)
                  (omega (arith, length-frames_cons (body m) rest, length-frame (body m))))
              ∙ stream_loop_rows marshal_message total rows fuel (suc i) (count + 1) t r'
                  (after_frames w (body m ∷ [])) (omega arith) e refl
                  (rw (append-nil (frame (body m)))
                    (omega (arith, length-frames_cons (body m) rest)))
              ∙ rw (after_frames-cons w (body m) rest, more, c)
        ]

  -- The bodies for a whole file.
  abbrev pub csv_bodies : List Text → List (List Text) → Text → Text → List Bytes
  csv_bodies header rows ts_name labels_name =
      bodies 0 (new_row_transformer (reader_of header rows) ts_name labels_name) header rows

  -- For a CSV file with a header whose records are all read well, and messages that can be
  -- marshalled, `StreamCSVMetrics` sends one frame for each record, in their order, with the
  -- marshalled message around the transformed row, if the connection takes them, and answers their
  -- number. A record whose payload cannot be marshalled is left out. More rounds than records are
  -- enough.
  pub stream_csv_metrics_lem :
      (marshal_message : Message J Time → Option Bytes)
      → ((m : Message J Time) → marshal_message m ≡ some (body m))
      → (col : Text) (cols : List Text) (rows : List (List Text)) (fuel : ℕ)
        (ts_name labels_name : Text) (w : Sink)
      → length rows < fuel
      → length (frames (csv_bodies (col ∷ cols) rows ts_name labels_name)) ≤ w.room
      → stream_csv_metrics marshal_payload marshal_message draw fuel
          (some (reads_of ((col ∷ cols) ∷ rows)))
          ts_name
          labels_name
          w
        ≡ streamed
            (length (csv_bodies (col ∷ cols) rows ts_name labels_name))
            (after_frames w (csv_bodies (col ∷ cols) rows ts_name labels_name))
  unfolding stream_csv_metrics new_metrics_csv_reader
  stream_csv_metrics_lem marshal_message total col cols rows fuel ts_name labels_name w h room =
      let c : 0 + length (csv_bodies (col ∷ cols) rows ts_name labels_name)
          ≡ length (csv_bodies (col ∷ cols) rows ts_name labels_name) =
        omega arith in
      rw c at (
        stream_loop_rows marshal_message total rows fuel 0 0
          (new_row_transformer (reader_of (col ∷ cols) rows) ts_name labels_name)
          (reader_of (col ∷ cols) rows) w h refl refl room)

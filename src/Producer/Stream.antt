-- ===== src/Producer/Stream.antt =====
-- Producer (internal/producer/producer.go): the rows of a CSV file, sent to the broker as messages.
pub mod Sending
use message_queue.Prelude.{ℕ, zero, suc, ◌+◌, Bool, true, false, Option, none, some, List, [], ◌∷◌}
use message_queue.Prelude.Text.{Text, codes}
use message_queue.Prelude.Dict.{Dict}
use message_queue.Protocol.{Bytes, IoError, Sink, write, write_frame}
use message_queue.Message.{Json, Message, new}
use message_queue.Producer.CsvReader.{
  CsvRead, MetricsCsvReader, OpenError, Opened, opened, not_opened, RowError, end_of_file,
  read_failed, error_state, Row, row, no_row, new_metrics_csv_reader, has_next_row, get_next_row,
}
use message_queue.Producer.Transformer.{Payload, RowTransformer, new_row_transformer, transform_row}

-- `Start`: the role's line.
unfoldable pub start : Sink → Option IoError × Sink
start w = write w (codes "PRODUCER\n")

-- What a round of the loop draws: a random identifier, and the current time, also as text.
pub record Draw (Time : Type 0) : Type 0 where
  pub id : Text
  pub time : Time
  pub time_text : Text

pub data StreamError : Type 0 where
  marshal_failed : StreamError
  write_failed : IoError → StreamError

pub data StreamCsvError : Type 0 where
  open_failed : OpenError → StreamCsvError
  row_failed : RowError → StreamCsvError
  stream_failed : StreamError → StreamCsvError

-- The number of rows that were sent, and the connection. `out_of_fuel` is no end of the program's.
pub data Streamed : Type 0 where
  streamed : ℕ → Sink → Streamed
  aborted : ℕ → StreamCsvError → Sink → Streamed
  out_of_fuel : Streamed

abbrev write_error : Option IoError → Option StreamError
write_error none = none
write_error (some e) = some (write_failed e)

-- `marshal_payload` and `marshal_message` are `json.Marshal`; none is an error.
pub stream :
    {J Time : Type 0}
    → (Message J Time → Option Bytes)
    → Message J Time
    → Sink
    → Option StreamError × Sink
stream marshal_message msg w = elim (marshal_message msg) [
  | none ↦ (some marshal_failed, w)
  | some body ↦ (write_error (write_frame w body).0, (write_frame w body).1)
]

abbrev pub metric_message : {J Time : Type 0} → Draw Time → Json J → Message J Time
metric_message d j = new d.id d.time (codes "metric") j (codes "csv-producer")

module _ {J Time : Type 0} (marshal_payload : Payload → Option (Json J))
    (marshal_message : Message J Time → Option Bytes) (draw : ℕ → Draw Time) where
  -- The loop, in round `i`, after `count` rows.
  pub stream_loop : ℕ → ℕ → ℕ → RowTransformer → MetricsCsvReader → Sink → Streamed
  stream_loop zero i count t r w = out_of_fuel
  stream_loop (suc fuel) i count t r w = elim (has_next_row r) [
    | false ↦ streamed count w
    | true ↦ elim (get_next_row r).1 [
      | no_row end_of_file ↦ streamed count w
      | no_row (read_failed n e) ↦ aborted count (row_failed (read_failed n e)) w
      | no_row (error_state e) ↦ aborted count (row_failed (error_state e)) w
      | row fields ↦ elim (marshal_payload (transform_row t (draw i).time_text fields)) [
        | none ↦ stream_loop fuel (suc i) count t (get_next_row r).0 w
        | some j ↦ elim (stream marshal_message (metric_message (draw i) j) w).0 [
          | some e ↦
              aborted count (stream_failed e)
                (stream marshal_message (metric_message (draw i) j) w).1
          | none ↦
              stream_loop fuel (suc i) (count + 1) t (get_next_row r).0
                (stream marshal_message (metric_message (draw i) j) w).1
        ]
      ]
    ]
  ]

  abbrev stream_opened : ℕ → Text → Text → Sink → Opened → Streamed
  stream_opened fuel ts_name labels_name w (not_opened e) = aborted 0 (open_failed e) w
  stream_opened fuel ts_name labels_name w (opened r) =
      stream_loop fuel 0 0 (new_row_transformer r ts_name labels_name) r w

  pub stream_csv_metrics : ℕ → Option (List CsvRead) → Text → Text → Sink → Streamed
  stream_csv_metrics fuel file ts_name labels_name w =
      stream_opened fuel ts_name labels_name w (new_metrics_csv_reader file)

-- ===== src/Pipeline/Rows.antt =====
-- The messages that a producer sends for a file (internal/producer), as the consumer reads them
-- (cmd/consumer).
use message_queue.Prelude.{ℕ, suc, ◌≡◌, inl, inr, Option, none, some, List, [], ◌∷◌, Option-cases}
use message_queue.Prelude.Text.{Text, codes}
use message_queue.Prelude.Dict.{Dict}
use message_queue.Protocol.{Bytes}
use message_queue.Message.{Json, Message}
use message_queue.Storage.{object}
use message_queue.Producer.CsvReader.{fill_row}
use message_queue.Producer.Transformer.{Payload, RowTransformer, transform_row, new_row_transformer}
use message_queue.Producer.Stream.{Draw, metric_message}
use message_queue.Producer.Stream.Sending.{bodies, reader_of}
use message_queue.Producer.Process.Run.{sent_bodies}
use message_queue.Consumer.{Received}
use message_queue.Consumer.Documents.{Metric, Reads, no_more, reads}

module _ {J Time V : Type 0} (marshal_payload : Payload → Option (Json J))
    (body : Message J Time → Bytes) (parse : Bytes → Option (Received V Time))
    (members : Payload → Dict V) (stamp : Time → Option Time) where
  -- What encoding/json is relied on for: a message around a payload that was marshalled is unmarshalled
  -- to the values of that payload, which `members` gives, and to its time, none for the zero time.
  abbrev pub ReadsBack : Type 0
  ReadsBack =
      (p : Payload) (j : Json J) (d : Draw Time)
      → marshal_payload p ≡ some j
      → parse (body (metric_message d j))
        ≡ some (record { payload = object (members p); timestamp = stamp d.time })

module _ {J Time V : Type 0} (marshal_payload : Payload → Option (Json J)) (draw : ℕ → Draw Time)
    (members : Payload → Dict V) (stamp : Time → Option Time) where
  -- What is sent for the records, from round `i`: the values and the time of each record whose payload
  -- can be marshalled.
  unfoldable pub metrics : ℕ → RowTransformer → List Text → List (List Text) → List (Metric V Time)
  metrics i t header [] = []
  metrics i t header (fields ∷ rows) =
      let p = transform_row t (draw i).time_text (fill_row [] header fields) in
      let rest = metrics (suc i) t header rows in
      elim (marshal_payload p) [ none ↦ rest | some j ↦ (members p, stamp (draw i).time) ∷ rest ]

  -- The same for a whole file.
  abbrev pub sent_metrics : List Text → List (List Text) → List (Metric V Time)
  sent_metrics header rows =
      metrics 0
        (new_row_transformer (reader_of header rows) (codes "timestamp") (codes "labels_raw"))
        header rows

module _ {J Time V : Type 0} (marshal_payload : Payload → Option (Json J))
    (body : Message J Time → Bytes) (draw : ℕ → Draw Time)
    (parse : Bytes → Option (Received V Time)) (members : Payload → Dict V)
    (stamp : Time → Option Time) (back : ReadsBack marshal_payload body parse members stamp) where
  bodies-Reads :
      (i : ℕ) (t : RowTransformer) (header : List Text) (rows : List (List Text))
      → Reads parse
          (bodies marshal_payload body draw i t header rows)
          (metrics marshal_payload draw members stamp i t header rows)
  unfolding bodies metrics
  bodies-Reads i t header [] = no_more
  bodies-Reads i t header (fields ∷ rows) =
      let p = transform_row t (draw i).time_text (fill_row [] header fields) in
      let rest = bodies-Reads (suc i) t header rows in
      elim (Option-cases (marshal_payload p)) [
        | inl e ↦ rw (e, bodies, metrics) rest
        | inr (j, e) ↦
            rw (e, bodies, metrics)
              (reads (body (metric_message (draw i) j))
                (bodies marshal_payload body draw (suc i) t header rows) (members p)
                (stamp (draw i).time)
                (metrics marshal_payload draw members stamp (suc i) t header rows)
                (back p j (draw i) e) rest)
      ]

  pub sent_bodies-Reads :
      (header : List Text) (rows : List (List Text))
      → Reads parse
          (sent_bodies marshal_payload body draw header rows)
          (sent_metrics marshal_payload draw members stamp header rows)
  sent_bodies-Reads header rows =
      bodies-Reads 0
        (new_row_transformer (reader_of header rows) (codes "timestamp") (codes "labels_raw"))
        header rows

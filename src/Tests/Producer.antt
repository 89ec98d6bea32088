-- ===== src/Tests/Producer.antt =====
-- The producer on a concrete file (internal/producer).
use message_queue.Prelude.{
  ℕ, ◌≤◌, ◌≡◌, refl, false, Option, some, List, [], ◌∷◌, length, ◌==◌, arith,
}
use message_queue.Prelude.Int.{pos, negsuc}
use message_queue.Prelude.Text.{Text, codes, text_eq}
use message_queue.Prelude.Dict.{Dict, get, IsDict}
use message_queue.Prelude.Strings.{is_space}
use message_queue.Protocol.{Bytes, Sink, put_uint32}
use message_queue.Message.{Json, string, Message, new}
use message_queue.Broker.Producing.{frames}
use message_queue.Broker.Consuming.{after_frames}
use message_queue.Producer.Labels.{parse_labels}
use message_queue.Producer.Labels.Printed.{
  Labels, IsKeyChar, IsValueChar, AreLabels, print_labels, put_all, parse_labels-print_labels,
}
use message_queue.Producer.Transformer.{Payload, RowTransformer, transform_row}
use message_queue.Producer.Transformer.Effect.{and_then_as_is, get-transform_row}
use message_queue.Producer.Stream.{Draw, streamed, stream_csv_metrics}
use message_queue.Producer.Stream.Sending.{reads_of, bodies, csv_bodies, stream_csv_metrics_lem}

abbrev labels : Labels
labels = (codes "k", codes "x, y") ∷ (codes "j", []) ∷ []

k-IsKeyChar : IsKeyChar b'k'
unfolding is_space
k-IsKeyChar = record {
  no_backslash = refl;
  no_quote = refl;
  no_comma = refl;
  no_equals = refl;
  no_space = refl;
}

j-IsKeyChar : IsKeyChar b'j'
unfolding is_space
j-IsKeyChar = record {
  no_backslash = refl;
  no_quote = refl;
  no_comma = refl;
  no_equals = refl;
  no_space = refl;
}

char-IsValueChar : (c : ℕ) → (c == 0x5c) ≡ false → (c == b'"') ≡ false → IsValueChar c
char-IsValueChar c h k = record { no_backslash = h; no_quote = k }

labels-AreLabels : AreLabels labels
labels-AreLabels = (
  (
    (k-IsKeyChar, tt),
    (
      char-IsValueChar b'x' refl refl,
      (
        char-IsValueChar b',' refl refl,
        (char-IsValueChar b' ' refl refl, (char-IsValueChar b'y' refl refl, tt)),
      ),
    ),
  ),
  (((j-IsKeyChar, tt), tt), tt),
)

parse_labels-print_labels_example : parse_labels (print_labels labels) ≡ put_all [] labels
parse_labels-print_labels_example = parse_labels-print_labels labels labels-AreLabels

abbrev header : List Text
header = codes "uuid" ∷ codes "value" ∷ []

abbrev row : Dict Text
row = (codes "timestamp", codes "old") ∷ (codes "value", []) ∷ []

row-IsDict : IsDict row
unfolding text_eq
row-IsDict = ((refl, tt), (tt, tt))

abbrev transformer : RowTransformer
transformer = record { ts_column_idx = pos 0; labels_column_idx = negsuc 0 }

get-transform_row_example :
    get (transform_row transformer (codes "now") row) (codes "timestamp")
    ≡ and_then_as_is (codes "timestamp") (get row (codes "timestamp"))
get-transform_row_example =
    get-transform_row transformer (codes "now") row (codes "timestamp") refl row-IsDict

-- Encoders that look at little: JSON values and times are numbers.
abbrev marshal_payload : Payload → Option (Json ℕ)
marshal_payload p = some (string (codes "p"))

abbrev body : Message ℕ ℕ → Bytes
body m = m.id

abbrev draw : ℕ → Draw ℕ
draw i = record { id = codes "id"; time = i; time_text = codes "now" }

abbrev sink : Sink
sink = record { written = []; room = 100 }

abbrev rows : List (List Text)
rows = (codes "g" ∷ codes "7" ∷ []) ∷ (codes "h" ∷ []) ∷ []

two_bodies : csv_bodies marshal_payload body draw header rows [] [] ≡ codes "id" ∷ codes "id" ∷ []
unfolding bodies new
two_bodies = refl

enough_room : length (frames (csv_bodies marshal_payload body draw header rows [] [])) ≤ sink.room
unfolding put_uint32
enough_room = rw two_bodies (omega arith)

stream_csv_metrics_lem_example :
    stream_csv_metrics marshal_payload
      (λ m. some (body m))
      draw
      5
      (some (reads_of (header ∷ rows)))
      []
      []
      sink
    ≡ streamed
        (length (csv_bodies marshal_payload body draw header rows [] []))
        (after_frames sink (csv_bodies marshal_payload body draw header rows [] []))
stream_csv_metrics_lem_example =
    stream_csv_metrics_lem marshal_payload body draw (λ m. some (body m)) (λ m. refl) (codes "uuid")
      (codes "value" ∷ []) rows 5 [] [] sink (omega arith) enough_room

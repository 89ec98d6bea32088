-- ===== src/Producer/Process/Run.antt =====
-- What the producer's process writes to the broker.
use message_queue.Prelude.{
  ℕ, ◌+◌, ◌-◌, ◌≤◌, ◌<◌, ◌≡◌, ap, ◌∙◌, Option, none, some, List, ◌∷◌, ◌++◌, length, arith,
}
use message_queue.Prelude.Text.{Text, codes}
use message_queue.Protocol.{Bytes, Sink}
use message_queue.Protocol.RoundTrip.{write-ok}
use message_queue.Broker.Producing.{frames}
use message_queue.Broker.Consuming.{after_frames}
use message_queue.Broker.Role.{producer_line}
use message_queue.Message.{Json, Message}
use message_queue.Producer.Transformer.{Payload}
use message_queue.Producer.Stream.{Draw, start}
use message_queue.Producer.Stream.Sending.{reads_of, csv_bodies, stream_csv_metrics_lem}
use message_queue.Producer.Process.{
  World, finished, broker_addr, csv_path, close, main, dialled, resolved, started, exit_of,
}

-- The connection behind the role's line.
abbrev pub after_line : Sink → Bytes → Sink
after_line w role = record { written = w.written ++ role; room = w.room - length role }

start-ok : (w : Sink) → 9 ≤ w.room → start w ≡ (none, after_line w producer_line)
unfolding start
start-ok w h = write-ok w producer_line h

module _ {J Time : Type 0} (marshal_payload : Payload → Option (Json J))
    (body : Message J Time → Bytes) (draw : ℕ → Draw Time) where
  -- The bodies that the process sends for a file.
  abbrev pub sent_bodies : List Text → List (List Text) → List Bytes
  sent_bodies header rows =
      csv_bodies marshal_payload body draw header rows (codes "timestamp") (codes "labels_raw")

  pub main-sends :
      (marshal_message : Message J Time → Option Bytes)
      → ((m : Message J Time) → marshal_message m ≡ some (body m))
      → (fuel : ℕ) (world : World) (path col : Text) (cols : List Text) (rows : List (List Text))
        (w : Sink)
      → world.dial (broker_addr world) ≡ some w
      → world.abs (csv_path world) ≡ some path
      → world.read_csv path ≡ some (reads_of ((col ∷ cols) ∷ rows))
      → length rows < fuel
      → 9 + length (frames (sent_bodies (col ∷ cols) rows)) ≤ w.room
      → main marshal_payload marshal_message draw fuel world
        ≡ finished
            (length (sent_bodies (col ∷ cols) rows))
            (close (some world.closing))
            (after_frames (after_line w producer_line) (sent_bodies (col ∷ cols) rows))
  unfolding main
  main-sends marshal_message total fuel world path col cols rows w dials resolves reads h room =
      ap (dialled marshal_payload marshal_message draw fuel world) dials
      ∙ ap (resolved marshal_payload marshal_message draw fuel world w) resolves
      ∙ ap (started marshal_payload marshal_message draw fuel world path) (start-ok w (omega arith))
      ∙ rw reads (
          ap (exit_of world.closing) (
            stream_csv_metrics_lem marshal_payload body draw marshal_message total col cols rows
              fuel (codes "timestamp") (codes "labels_raw") (after_line w producer_line) h
              (omega arith)))

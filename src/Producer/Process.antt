-- ===== src/Producer/Process.antt =====
-- The producer's process (cmd/producer/main.go), with its environment reader
-- (internal/producer/implementations.go) and `Producer.Close`.
pub mod Run
use message_queue.Prelude.{ℕ, Option, none, some, List, if◌then◌else◌}
use message_queue.Prelude.Text.{Text, codes, is_empty}
use message_queue.Protocol.{Bytes, IoError, eof, unexpected_eof, short_buffer, broken, Sink}
use message_queue.Message.{Json, Message}
use message_queue.Config.{Environment}
use message_queue.Producer.CsvReader.{CsvRead}
use message_queue.Producer.Transformer.{Payload}
use message_queue.Producer.Stream.{
  Draw, start, Streamed, streamed, aborted, out_of_fuel, stream_csv_metrics,
}

-- `SimpleEnvironmentReader.Get`.
unfoldable pub get : Environment → Text → Text → Text
get os key default = if is_empty (os key) then default else os key

-- `Close`: none is a producer without a connection, and else what the connection's Close answers. An
-- EOF is no error.
unfoldable pub close : Option (Option IoError) → Option IoError
close none = none
close (some none) = none
close (some (some eof)) = none
close (some (some unexpected_eof)) = some unexpected_eof
close (some (some short_buffer)) = some short_buffer
close (some (some (broken n))) = some (broken n)

-- What the process finds outside: connections, paths and files. None is an error.
pub record World : Type 0 where
  pub os : Environment
  pub dial : Text → Option Sink
  pub abs : Text → Option Text
  pub read_csv : Text → Option (List CsvRead)
  pub closing : Option IoError

-- `unconnected` and `failed` hold the exit code, `finished` the number of rows and what `Close`
-- answered, and `failed` and `finished` what was written to the broker. `unfinished` is no end of
-- the program's.
pub data Exit : Type 0 where
  unconnected : ℕ → Exit
  failed : ℕ → Sink → Exit
  finished : ℕ → Option IoError → Sink → Exit
  unfinished : Exit

abbrev pub exit_of : Option IoError → Streamed → Exit
exit_of closing (streamed n w) = finished n (close (some closing)) w
exit_of closing (aborted n e w) = failed 1 w
exit_of closing out_of_fuel = unfinished

abbrev default_path : Text
default_path = codes "../../internal/data/dcgm_metrics_20250718_134233.csv"

abbrev pub broker_addr : World → Text
broker_addr world = get world.os (codes "BROKER_ADDR") (codes "localhost:9080")

abbrev pub csv_path : World → Text
csv_path world = get world.os (codes "CSV_PATH") default_path

module _ {J Time : Type 0} (marshal_payload : Payload → Option (Json J))
    (marshal_message : Message J Time → Option Bytes) (draw : ℕ → Draw Time) where
  -- Behind `Start`, with its answer.
  abbrev pub started : ℕ → World → Text → Option IoError × Sink → Exit
  started fuel world path (some e, w) = failed 1 w
  started fuel world path (none, w) = exit_of world.closing (
      stream_csv_metrics marshal_payload marshal_message draw fuel (world.read_csv path)
        (codes "timestamp") (codes "labels_raw") w)

  -- Behind the resolved path.
  abbrev pub resolved : ℕ → World → Sink → Option Text → Exit
  resolved fuel world w none = failed 1 w
  resolved fuel world w (some path) = started fuel world path (start w)

  abbrev pub dialled : ℕ → World → Option Sink → Exit
  dialled fuel world none = unconnected 1
  dialled fuel world (some w) = resolved fuel world w (world.abs (csv_path world))

  unfoldable pub main : ℕ → World → Exit
  main fuel world = dialled fuel world (world.dial (broker_addr world))

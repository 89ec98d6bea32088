-- ===== src/Protocol.antt =====
-- internal/protocol/frame.go: frames of a 4-byte big-endian length and a body, written to and read
-- from a connection. Bytes are numbers below 256.
pub mod Header
pub mod Read
pub mod RoundTrip
pub mod Outcomes
use message_queue.Prelude.{
  ℕ, ◌+◌, ◌-◌, ◌*◌, ◌/◌, ◌%◌, ◌^◌, ◌<◌, Option, none, some, List, [], ◌∷◌, ◌++◌, length, take, drop,
  replicate, ltb, leb, ◌==◌, if◌then◌else◌,
}

abbrev pub Bytes : Type 0
Bytes = List ℕ

abbrev pub IsByte : ℕ → Type 0
IsByte b = b < 256

-- `io.EOF`, `io.ErrUnexpectedEOF`, `io.ErrShortBuffer`, and any other failure of a connection.
pub data IoError : Type 0 where
  eof unexpected_eof short_buffer : IoError
  broken : ℕ → IoError

-- What a reader still has to give, and the error that it answers after that.
pub record Source : Type 0 where
  pub pending : Bytes
  pub ending : IoError

-- What a writer has taken, and how many more bytes it takes before the connection breaks.
pub record Sink : Type 0 where
  pub written : Bytes
  pub room : ℕ

abbrev pub max_frame_size : ℕ
max_frame_size = 1024 * 1024

-- `w.Write(b)`: an error means that only a part was written.
unfoldable pub write : Sink → Bytes → Option IoError × Sink
write w b =
    if leb (length b) w.room
    then (none, record { written = w.written ++ b; room = w.room - length b })
    else (some (broken 0), record { written = w.written ++ take w.room b; room = 0 })

-- `binary.BigEndian.PutUint32(h[:], uint32(n))`.
unfoldable pub put_uint32 : ℕ → Bytes
put_uint32 n =
    let v = n % 2 ^ 32 in (v / 2 ^ 24) ∷ (v / 2 ^ 16 % 256) ∷ (v / 2 ^ 8 % 256) ∷ (v % 256) ∷ []

-- `binary.BigEndian.Uint32(h[:])`, on the four bytes that it is given.
unfoldable pub uint32 : Bytes → ℕ
uint32 (a ∷ b ∷ c ∷ d ∷ _) = a * 2 ^ 24 + b * 2 ^ 16 + c * 2 ^ 8 + d
uint32 _ = 0

-- `if err != nil { return err }`, then the next write.
abbrev pub then_write : Option IoError × Sink → Bytes → Option IoError × Sink
then_write (some e, w) b = (some e, w)
then_write (none, w) b = write w b

unfoldable pub write_frame : Sink → Bytes → Option IoError × Sink
write_frame w body = then_write (write w (put_uint32 (length body))) body

-- The error of `io.ReadFull` when the reader ends after `got` bytes, too early.
abbrev pub early_end : ℕ → IoError → IoError
early_end got eof = if got == 0 then eof else unexpected_eof
early_end got e = e

-- `io.ReadFull` on a slice of `n` bytes: the bytes that were read, the error, the reader.
pub record FullRead : Type 0 where
  pub got : Bytes
  pub error : Option IoError
  pub source : Source

unfoldable pub read_full : Source → ℕ → FullRead
read_full r n =
    if leb n (length r.pending)
    then record {
      got = take n r.pending;
      error = none;
      source = record r { pending = drop n r.pending };
    }
    else record {
      got = r.pending;
      error = some (early_end (length r.pending) r.ending);
      source = record r { pending = [] };
    }

-- `ReadFrame` returns a slice and an error. `body` is what the slice shows, and `spare` the cells
-- behind it, up to its capacity. `array` is what the caller's buffer holds afterwards.
pub record FrameRead : Type 0 where
  pub body : Bytes
  pub spare : Bytes
  pub error : Option IoError
  pub array : Bytes
  pub source : Source

-- Reading over the first cells of a slice leaves the others as they were.
abbrev pub overwrite : Bytes → Bytes → Bytes
overwrite got cells = got ++ drop (length got) cells

-- The body goes into the caller's array, or into a fresh one where that is too short.
unfoldable pub read_body : Source → ℕ → Bytes → FrameRead
read_body r n array =
    let full = read_full r n in
    if ltb (length array) n
    then record {
      body = overwrite full.got (replicate n 0);
      spare = [];
      error = full.error;
      array = array;
      source = full.source;
    }
    else record {
      body = overwrite full.got (take n array);
      spare = drop n array;
      error = full.error;
      array = overwrite full.got array;
      source = full.source;
    }

unfoldable pub no_frame : IoError → Bytes → Source → FrameRead
no_frame e array r = record { body = []; spare = []; error = some e; array = array; source = r }

-- What `ReadFrame` does once it has read, or failed to read, the four bytes of the header.
abbrev pub after_header : Bytes → FullRead → FrameRead
after_header array header = elim header.error [
  | some e ↦ no_frame e array header.source
  | none ↦
      if ltb max_frame_size (uint32 header.got)
      then no_frame short_buffer array header.source
      else read_body header.source (uint32 header.got) array
]

-- `array` holds the cells of `buf` up to its capacity.
unfoldable pub read_frame : Source → Bytes → FrameRead
read_frame r array = after_header array (read_full r 4)

-- ===== src/Tests/Frames.antt =====
-- Frames on concrete streams (internal/protocol/frame.go).
use message_queue.Prelude.{
  ℕ, ◌+◌, ◌≡◌, some, [], ◌∷◌, ◌++◌, length, take, replicate, length-replicate, ◌==◌, ◌||◌,
  if◌then◌else◌, arith,
}
use message_queue.Protocol.{
  Bytes, eof, unexpected_eof, short_buffer, Sink, Source, max_frame_size, read_frame,
}
use message_queue.Protocol.Read.{Reads, read_frame-Reads}
use message_queue.Protocol.Outcomes.{read_frame_truncated}
use message_queue.Protocol.RoundTrip.{frame, Delivers, read_frame-frame, read_frame-frame_too_long}

abbrev hello : Bytes
hello = b'h' ∷ b'i' ∷ []

abbrev stream : Source
stream = record { pending = frame hello ++ (7 ∷ []); ending = eof }

abbrev sink : Sink
sink = record { written = []; room = 5 }

read_frame-frame_example :
    Delivers (read_frame stream (1 ∷ 2 ∷ 3 ∷ [])) hello (record { pending = 7 ∷ []; ending = eof })
read_frame-frame_example = read_frame-frame hello (7 ∷ []) (1 ∷ 2 ∷ 3 ∷ []) eof (omega arith)

read_frame-Reads_example : Reads stream (read_frame stream [])
read_frame-Reads_example = read_frame-Reads stream []

-- One byte more than a frame may have.
too_big : Bytes
too_big = replicate (max_frame_size + 1) 0

length-too_big : length too_big ≡ max_frame_size + 1
unfolding too_big
length-too_big = length-replicate {0} {A = ℕ} (max_frame_size + 1) 0

read_frame-frame_too_long_example :
    ((read_frame (record { pending = frame too_big ++ []; ending = eof }) []).error
      ≡ some short_buffer)
    × ((read_frame (record { pending = frame too_big ++ []; ending = eof }) []).source
        ≡ record { pending = too_big ++ []; ending = eof })
read_frame-frame_too_long_example =
    read_frame-frame_too_long too_big [] [] eof (omega (arith, length-too_big))
      (omega (arith, length-too_big))

read_frame_truncated_example :
    (read_frame (record { pending = take 4 (frame hello); ending = eof }) []).error
    ≡ some (if 4 == 0 || 4 == 4 then eof else unexpected_eof)
read_frame_truncated_example = read_frame_truncated hello [] 4 (omega arith) (omega arith)

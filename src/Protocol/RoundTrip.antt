-- ===== src/Protocol/RoundTrip.antt =====
-- `WriteFrame` against `ReadFrame`.
use message_queue.Prelude.{
  ℕ, ◌+◌, ◌-◌, ◌^◌, ◌≤◌, ◌<◌, ◌≡◌, refl, sym, ◌∙◌, inl, inr, none, some, ◌++◌, length, take, drop,
  length-append, append_assoc, append-nil, take-append, take-append_length, drop-append_length,
  take_all, arith, leb, Bool-cases, le→leb, lt→leb_false, if◌then◌else◌,
}
use message_queue.Protocol.{
  Bytes, IoError, short_buffer, broken, Source, Sink, FrameRead, max_frame_size, early_end, write,
  write_frame, put_uint32, read_frame,
}
use message_queue.Protocol.Header.{length-put_uint32, uint32-put_uint32_small}
use message_queue.Protocol.Read.{
  announced, Reads, no_header, too_long, cut_off, whole, read_frame-Reads,
}

-- The bytes of a frame.
abbrev pub frame : Bytes → Bytes
frame body = put_uint32 (length body) ++ body

pub length-frame : (body : Bytes) → length (frame body) ≡ 4 + length body
length-frame body =
    omega (arith, length-append (put_uint32 (length body)) body, length-put_uint32 (length body))

pub write-ok :
    (w : Sink) (b : Bytes)
    → length b ≤ w.room
    → write w b ≡ (none, record { written = w.written ++ b; room = w.room - length b })
unfolding write
write-ok w b h = rw (le→leb (length b) w.room h)

write-broken :
    (w : Sink) (b : Bytes)
    → w.room < length b
    → write w b ≡ (some (broken 0), record { written = w.written ++ take w.room b; room = 0 })
unfolding write
write-broken w b h = rw (lt→leb_false (length b) w.room h)

module _ (w : Sink) (body : Bytes) where
  header_sink : Sink
  header_sink = record {
    written = w.written ++ put_uint32 (length body);
    room = w.room - length (put_uint32 (length body));
  }

  write_frame-header : 4 ≤ w.room → write_frame w body ≡ write header_sink body
  unfolding write_frame header_sink
  write_frame-header h =
      rw (write-ok w (put_uint32 (length body)) (omega (arith, length-put_uint32 (length body))))

  pub write_frame-ok :
      4 + length body ≤ w.room
      → write_frame w body
        ≡ (none, record { written = w.written ++ frame body; room = w.room - length (frame body) })
  unfolding header_sink
  write_frame-ok h =
      let room : w.room - length (put_uint32 (length body)) - length body
          ≡ w.room - length (frame body) =
        omega (arith, length-put_uint32 (length body), length-frame body) in
      write_frame-header (omega arith)
      ∙ write-ok header_sink body (omega (arith, length-put_uint32 (length body)))
      ∙ rw (append_assoc, room)

  write_frame-broken_body :
      4 ≤ w.room
      → w.room < 4 + length body
      → write_frame w body
        ≡ (some (broken 0), record { written = w.written ++ take w.room (frame body); room = 0 })
  unfolding header_sink
  write_frame-broken_body h k =
      write_frame-header h
      ∙ write-broken header_sink body (omega (arith, length-put_uint32 (length body)))
      ∙ rw (
        append_assoc,
        take-append w.room (put_uint32 (length body)) body,
        take_all w.room (put_uint32 (length body)) (omega (arith, length-put_uint32 (length body))),
      )

  write_frame-broken_header :
      w.room < 4
      → write_frame w body
        ≡ (some (broken 0), record { written = w.written ++ take w.room (frame body); room = 0 })
  unfolding write_frame
  write_frame-broken_header h =
      let none_left : w.room - length (put_uint32 (length body)) ≡ 0 =
        omega (arith, length-put_uint32 (length body)) in
      rw (
        write-broken w (put_uint32 (length body)) (omega (arith, length-put_uint32 (length body))),
        take-append w.room (put_uint32 (length body)) body,
        none_left,
        append-nil,
      )

  -- `WriteFrame` writes the whole frame and answers nil if the connection takes it all. If not, it
  -- answers an error, and what was written is the start of the frame that fitted.
  pub write_frame_lem : write_frame w body ≡ (
      if leb (4 + length body) w.room
      then (none, record { written = w.written ++ frame body; room = w.room - length (frame body) })
      else (some (broken 0), record { written = w.written ++ take w.room (frame body); room = 0 }))
  write_frame_lem = elim (Bool-cases (leb (4 + length body) w.room)) [
    | inl fits ↦ rw fits (write_frame-ok (ground arith))
    | inr full ↦ rw full (elim (Bool-cases (leb 4 w.room)) [
      | inl header ↦ write_frame-broken_body (ground arith) (ground arith)
      | inr short ↦ write_frame-broken_header (ground arith)
    ])
  ]

-- A stream that starts with the header for `n`.
abbrev pub headed : ℕ → Bytes → IoError → Source
headed n tail e = record { pending = put_uint32 n ++ tail; ending = e }

drop-header : (n : ℕ) (tail : Bytes) → drop 4 (put_uint32 n ++ tail) ≡ tail
drop-header n tail = drop-append_length 4 (put_uint32 n) tail (sym (length-put_uint32 n))

length-headed : (n : ℕ) (tail : Bytes) → length (put_uint32 n ++ tail) ≡ 4 + length tail
length-headed n tail = omega (arith, length-append (put_uint32 n) tail, length-put_uint32 n)

announced-headed :
    (n : ℕ) (tail : Bytes) (e : IoError) → n < 2 ^ 32 → announced (headed n tail e) ≡ n
announced-headed n tail e h =
    rw (take-append_length 4 (put_uint32 n) tail (sym (length-put_uint32 n)))
      (uint32-put_uint32_small n h)

-- What a whole read gives.
pub record Delivers (f : FrameRead) (body : Bytes) (r : Source) : Type 0 where
  pub error : f.error ≡ none
  pub body_eq : f.body ≡ body
  pub source : f.source ≡ r

module _ (n : ℕ) (tail array : Bytes) (e : IoError) (small : n < 2 ^ 32) where
  -- The outcomes of a read of a stream with a whole header, by what stands behind the header.
  headed-too_long :
      max_frame_size < n
      → Reads (headed n tail e) (read_frame (headed n tail e) array)
      → ((read_frame (headed n tail e) array).error ≡ some short_buffer)
        × ((read_frame (headed n tail e) array).source ≡ record { pending = tail; ending = e })
  headed-too_long big (no_header h _ _ _) = absurd (omega (arith, length-headed n tail))
  headed-too_long big (too_long _ _ err _ src) = (err, src ∙ rw (drop-header n tail))
  headed-too_long big (cut_off _ h _ _ _) = absurd (omega (arith, announced-headed n tail e small))
  headed-too_long big (whole h _ _ _ _) = absurd (omega (arith, announced-headed n tail e small))

  pub headed-cut_off :
      n ≤ max_frame_size
      → length tail < n
      → Reads (headed n tail e) (read_frame (headed n tail e) array)
      → (read_frame (headed n tail e) array).error ≡ some (early_end (length tail) e)
  headed-cut_off fits short (no_header h _ _ _) = absurd (omega (arith, length-headed n tail))
  headed-cut_off fits short (too_long _ h _ _ _) =
      absurd (omega (arith, announced-headed n tail e small))
  headed-cut_off fits short (cut_off _ _ _ err _) =
      let left : length (put_uint32 n ++ tail) - 4 ≡ length tail =
        omega (arith, length-headed n tail) in
      rw left at err
  headed-cut_off fits short (whole _ h _ _ _) =
      absurd (omega (arith, announced-headed n tail e small, length-headed n tail))

  headed-whole :
      n ≤ max_frame_size
      → n ≤ length tail
      → Reads (headed n tail e) (read_frame (headed n tail e) array)
      → Delivers
          (read_frame (headed n tail e) array)
          (take n tail)
          (record { pending = drop n tail; ending = e })
  headed-whole fits enough (no_header h _ _ _) = absurd (omega (arith, length-headed n tail))
  headed-whole fits enough (too_long _ h _ _ _) =
      absurd (omega (arith, announced-headed n tail e small))
  headed-whole fits enough (cut_off _ _ h _ _) =
      absurd (omega (arith, announced-headed n tail e small, length-headed n tail))
  headed-whole fits enough (whole _ _ err body src) = record {
    error = err;
    body_eq = body ∙ rw (announced-headed n tail e small, drop-header n tail);
    source = src ∙ rw (announced-headed n tail e small, drop-header n tail);
  }

-- `ReadFrame` gives back the body that `WriteFrame` framed, up to a megabyte, whatever its buffer
-- held, and leaves the reader at the first byte behind the frame.
pub read_frame-frame :
    (body rest array : Bytes) (e : IoError)
    → length body ≤ max_frame_size
    → Delivers
        (read_frame (record { pending = frame body ++ rest; ending = e }) array)
        body
        (record { pending = rest; ending = e })
read_frame-frame body rest array e h = rw append_assoc (
    rw
      (
        take-append_length (length body) body rest refl,
        drop-append_length (length body) body rest refl,
      )
      at
      (headed-whole (length body) (body ++ rest) array e (omega arith) h
        (omega (arith, length-append body rest)) (read_frame-Reads _ array)))

-- A body of more than a megabyte, and less than 2 ^ 32 bytes, is framed, but its frame is refused:
-- `ReadFrame` answers ErrShortBuffer and leaves the body in the stream, where the next header is
-- expected.
pub read_frame-frame_too_long :
    (body rest array : Bytes) (e : IoError)
    → max_frame_size < length body
    → length body < 2 ^ 32
    → ((read_frame (record { pending = frame body ++ rest; ending = e }) array).error
        ≡ some short_buffer)
      × ((read_frame (record { pending = frame body ++ rest; ending = e }) array).source
          ≡ record { pending = body ++ rest; ending = e })
read_frame-frame_too_long body rest array e big small =
    rw append_assoc
      (headed-too_long (length body) (body ++ rest) array e small big (read_frame-Reads _ array))

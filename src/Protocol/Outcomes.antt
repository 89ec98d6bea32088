-- ===== src/Protocol/Outcomes.antt =====
-- What an outcome of `ReadFrame` says: progress, bounds, and that the buffer does not matter.
use message_queue.Prelude.{
  ℕ, ◌+◌, ◌-◌, ◌≤◌, ◌<◌, ◌≡◌, refl, [], ◌∙◌, ap, ◌++◌, inl, inr, none, some, length, take, drop,
  length-take, length-drop, take-append, take_all, arith, leb, ◌==◌, ◌||◌, Bool-cases,
  if◌then◌else◌,
}
use message_queue.Protocol.{
  Bytes, eof, unexpected_eof, Source, FrameRead, max_frame_size, early_end, read_frame, read_full,
  no_frame, put_uint32,
}
use message_queue.Protocol.Header.{length-put_uint32}
use message_queue.Protocol.Read.{
  Reads, no_header, too_long, cut_off, whole, announced, read_frame-Reads,
}
use message_queue.Protocol.RoundTrip.{frame, length-frame, headed-cut_off}

Reads-unique :
    {r : Source} {f g : FrameRead}
    → Reads r f
    → Reads r g
    → (f.error ≡ g.error) × (f.source ≡ g.source) × (f.error ≡ none → f.body ≡ g.body)
Reads-unique (no_header h0 h1 h2 h3) (no_header k0 k1 k2 k3) = ground arith
Reads-unique (no_header h0 h1 h2 h3) (too_long k0 k1 k2 k3 k4) = absurd (omega arith)
Reads-unique (no_header h0 h1 h2 h3) (cut_off k0 k1 k2 k3 k4) = absurd (omega arith)
Reads-unique (no_header h0 h1 h2 h3) (whole k0 k1 k2 k3 k4) = absurd (omega arith)
Reads-unique (too_long h0 h1 h2 h3 h4) (no_header k0 k1 k2 k3) = absurd (omega arith)
Reads-unique (too_long h0 h1 h2 h3 h4) (too_long k0 k1 k2 k3 k4) = ground arith
Reads-unique (too_long h0 h1 h2 h3 h4) (cut_off k0 k1 k2 k3 k4) = absurd (omega arith)
Reads-unique (too_long h0 h1 h2 h3 h4) (whole k0 k1 k2 k3 k4) = absurd (omega arith)
Reads-unique (cut_off h0 h1 h2 h3 h4) (no_header k0 k1 k2 k3) = absurd (omega arith)
Reads-unique (cut_off h0 h1 h2 h3 h4) (too_long k0 k1 k2 k3 k4) = absurd (omega arith)
Reads-unique (cut_off h0 h1 h2 h3 h4) (cut_off k0 k1 k2 k3 k4) = ground arith
Reads-unique (cut_off h0 h1 h2 h3 h4) (whole k0 k1 k2 k3 k4) = absurd (omega arith)
Reads-unique (whole h0 h1 h2 h3 h4) (no_header k0 k1 k2 k3) = absurd (omega arith)
Reads-unique (whole h0 h1 h2 h3 h4) (too_long k0 k1 k2 k3 k4) = absurd (omega arith)
Reads-unique (whole h0 h1 h2 h3 h4) (cut_off k0 k1 k2 k3 k4) = absurd (omega arith)
Reads-unique (whole h0 h1 h2 h3 h4) (whole k0 k1 k2 k3 k4) = ground arith

-- What a read answers does not depend on the buffer that it is given, nor on what the buffer holds:
-- not the error, not where the stream stands afterwards, and on success not the body.
read_frame-array :
    (r : Source) (a b : Bytes)
    → ((read_frame r a).error ≡ (read_frame r b).error)
      × ((read_frame r a).source ≡ (read_frame r b).source)
      × ((read_frame r a).error ≡ none → (read_frame r a).body ≡ (read_frame r b).body)
read_frame-array r a b = Reads-unique (read_frame-Reads r a) (read_frame-Reads r b)

-- A read that succeeds takes the header at least, and its body is a megabyte at most.
pub record Progress (r : Source) (f : FrameRead) : Type 0 where
  pub shorter : length f.source.pending + length f.body + 4 ≡ length r.pending
  pub bounded : length f.body ≤ max_frame_size
  pub same_ending : f.source.ending ≡ r.ending

Reads-Progress : {r : Source} {f : FrameRead} → Reads r f → f.error ≡ none → Progress r f
Reads-Progress (no_header _ err _ _) h = absurd (ground arith)
Reads-Progress (too_long _ _ err _ _) h = absurd (ground arith)
Reads-Progress (cut_off _ _ _ err _) h = absurd (ground arith)
Reads-Progress {r} {f} (whole small enough err body src) h = record {
  shorter =
      rw (body, src)
        (omega (
          arith,
          length-take (announced r) (drop 4 r.pending),
          length-drop (announced r) (drop 4 r.pending),
          length-drop 4 r.pending,
        ));
  bounded = rw body (omega (arith, length-take (announced r) (drop 4 r.pending)));
  same_ending = ap (λ (s : Source). s.ending) src;
}

-- A read that succeeds takes four bytes more than its body has, and the body is at most a megabyte.
pub read_frame-Progress :
    (r : Source) (array : Bytes)
    → (read_frame r array).error ≡ none
    → Progress r (read_frame r array)
read_frame-Progress r array h = Reads-Progress (read_frame-Reads r array) h

Reads-short :
    {r : Source} {f : FrameRead}
    → length r.pending < 4
    → Reads r f
    → f.error ≡ some (early_end (length r.pending) r.ending)
Reads-short h (no_header _ err _ _) = err
Reads-short h (too_long k _ _ _ _) = absurd (omega arith)
Reads-short h (cut_off k _ _ _ _) = absurd (omega arith)
Reads-short h (whole _ k _ _ _) = absurd (omega arith)

length-take_le : (k : ℕ) (b : Bytes) → k ≤ length b → length (take k b) ≡ k
length-take_le k b h = omega (arith, length-take k b)

cut_frame :
    (body : Bytes) (k : ℕ)
    → 4 ≤ k
    → take k (frame body) ≡ put_uint32 (length body) ++ take (k - 4) body
cut_frame body k h = rw (
  take-append k (put_uint32 (length body)) body,
  length-put_uint32 (length body),
  take_all k (put_uint32 (length body)) (omega (arith, length-put_uint32 (length body))),
)

-- The frame of a body of a megabyte at most that is cut off is never taken for a message. The error
-- is EOF where the cut is before the header or between header and body, and ErrUnexpectedEOF
-- everywhere else.
pub read_frame_truncated :
    (body array : Bytes) (k : ℕ)
    → length body ≤ max_frame_size
    → k < 4 + length body
    → (read_frame (record { pending = take k (frame body); ending = eof }) array).error
      ≡ some (if k == 0 || k == 4 then eof else unexpected_eof)
read_frame_truncated body array k h cut = elim (Bool-cases (leb 4 k)) [
  | inr short ↦
      let len : length (take k (frame body)) ≡ k =
        length-take_le k (frame body) (omega (arith, length-frame body)) in
      rw len at (
        Reads-short (ground arith)
          (read_frame-Reads (record { pending = take k (frame body); ending = eof }) array))
      ∙ ground arith
  | inl long ↦ rw (cut_frame body k (ground arith)) (
      headed-cut_off (length body) (take (k - 4) body) array eof (omega arith) h
        (ground (arith, length-take (k - 4) body)) (read_frame-Reads _ array)
      ∙ rw (length-take_le (k - 4) body (ground arith)) (ground arith))
]

-- At the end of a stream.
pub ends_eof : (a : Bytes) → (read_frame (record { pending = []; ending = eof }) a).error ≡ some eof
unfolding read_frame read_full no_frame
ends_eof a = refl

-- ===== src/Protocol/Read.antt =====
-- Every outcome of `ReadFull` and `ReadFrame`.
use message_queue.Prelude.{
  ℕ, ◌+◌, ◌-◌, ◌≤◌, ◌<◌, ◌≡◌, refl, inl, inr, none, some, [], length, take, drop, replicate,
  length-append, length-take, length-drop, length-replicate, drop_all, append-nil, arith, ltb, leb,
  Bool-cases, lt→leb_false, le→leb, if◌then◌else◌,
}
use message_queue.Protocol.{
  Bytes, short_buffer, Source, FrameRead, max_frame_size, early_end, overwrite, read_full,
  read_body, read_frame, uint32, no_frame,
}

read_full-ok :
    (r : Source) (n : ℕ)
    → n ≤ length r.pending
    → read_full r n ≡ record {
      got = take n r.pending;
      error = none;
      source = record r { pending = drop n r.pending };
    }
unfolding read_full
read_full-ok r n h = rw (le→leb n (length r.pending) h)

read_full-short :
    (r : Source) (n : ℕ)
    → length r.pending < n
    → read_full r n ≡ record {
      got = r.pending;
      error = some (early_end (length r.pending) r.ending);
      source = record r { pending = [] };
    }
unfolding read_full
read_full-short r n h = rw (lt→leb_false n (length r.pending) h)

-- Writing over all the cells leaves nothing of them.
overwrite_all : (got cells : Bytes) → length cells ≤ length got → overwrite got cells ≡ got
overwrite_all got cells h = rw (drop_all (length got) cells h) (append-nil got)

length-overwrite :
    (got cells : Bytes) → length got ≤ length cells → length (overwrite got cells) ≡ length cells
length-overwrite got cells h =
    omega (arith, length-append got (drop (length got) cells), length-drop (length got) cells)

module _ (r : Source) (n : ℕ) (array : Bytes) where
  read_body-ok :
      n ≤ length r.pending
      → ((read_body r n array).body ≡ take n r.pending)
        × ((read_body r n array).error ≡ none)
        × ((read_body r n array).source ≡ record r { pending = drop n r.pending })
  unfolding read_body
  read_body-ok h = elim (Bool-cases (ltb (length array) n)) [
    | inl small ↦
        rw (read_full-ok r n h, small)
          (
            overwrite_all (take n r.pending) (replicate n 0)
                (omega (arith, length-take n r.pending, length-replicate {0} {A = ℕ} n 0)),
            refl,
            refl,
          )
    | inr large ↦
        rw (read_full-ok r n h, large)
          (
            overwrite_all (take n r.pending) (take n array)
                (omega (arith, length-take n r.pending, length-take n array)),
            refl,
            refl,
          )
  ]

  read_body-short :
      length r.pending < n
      → ((read_body r n array).error ≡ some (early_end (length r.pending) r.ending))
        × ((read_body r n array).source ≡ record r { pending = [] })
  unfolding read_body
  read_body-short h = elim (Bool-cases (ltb (length array) n)) [
    | inl small ↦ rw (read_full-short r n h, small) (refl, refl)
    | inr large ↦ rw (read_full-short r n h, large) (refl, refl)
  ]

-- The length that a stream announces.
abbrev pub announced : Source → ℕ
announced r = uint32 (take 4 r.pending)

-- The four ways in which a read can end, in terms of the stream alone.
pub data Reads (r : Source) (f : FrameRead) : Type 0 where
  no_header :
      length r.pending < 4
      → f.error ≡ some (early_end (length r.pending) r.ending)
      → f.body ≡ []
      → f.source ≡ record r { pending = [] }
      → Reads r f
  too_long :
      4 ≤ length r.pending
      → max_frame_size < announced r
      → f.error ≡ some short_buffer
      → f.body ≡ []
      → f.source ≡ record r { pending = drop 4 r.pending }
      → Reads r f
  cut_off :
      4 ≤ length r.pending
      → announced r ≤ max_frame_size
      → length r.pending < 4 + announced r
      → f.error ≡ some (early_end (length r.pending - 4) r.ending)
      → f.source ≡ record r { pending = [] }
      → Reads r f
  whole :
      announced r ≤ max_frame_size
      → 4 + announced r ≤ length r.pending
      → f.error ≡ none
      → f.body ≡ take (announced r) (drop 4 r.pending)
      → f.source ≡ record r { pending = drop (announced r) (drop 4 r.pending) }
      → Reads r f

abbrev pub behind_header : Source → Source
behind_header r = record r { pending = drop 4 r.pending }

-- With a whole header, the announced length decides.
read_frame-header :
    (r : Source) (array : Bytes)
    → 4 ≤ length r.pending
    → read_frame r array ≡ (
        if ltb max_frame_size (announced r)
        then no_frame short_buffer array (behind_header r)
        else read_body (behind_header r) (announced r) array)
unfolding read_frame
read_frame-header r array h = rw (read_full-ok r 4 h)

body-Reads :
    (r : Source) (array : Bytes)
    → 4 ≤ length r.pending
    → announced r ≤ max_frame_size
    → Reads r (read_body (behind_header r) (announced r) array)
body-Reads r array h small = elim (Bool-cases (leb (announced r) (length (drop 4 r.pending)))) [
  | inl enough ↦
      let (body, error, source) =
        read_body-ok (behind_header r) (announced r) array (ground arith) in
      whole small (ground (arith, length-drop 4 r.pending)) error body source
  | inr few ↦
      let (error, source) = read_body-short (behind_header r) (announced r) array (ground arith) in
      cut_off h small (ground (arith, length-drop 4 r.pending))
        (rw (length-drop 4 r.pending) at error) source
]

-- Whatever the stream and the buffer, `ReadFrame` ends in one of four ways. With fewer than four
-- bytes it answers the error of the reader, or ErrUnexpectedEOF where EOF comes after the first
-- byte. A length of more than a megabyte gives ErrShortBuffer, and only the header is taken. With
-- fewer bytes than announced it answers the reader's error again, in the same way. Otherwise the
-- body is the announced number of bytes, and the reader is left behind them.
pub read_frame-Reads : (r : Source) (array : Bytes) → Reads r (read_frame r array)
unfolding no_frame
read_frame-Reads r array = elim (Bool-cases (leb 4 (length r.pending))) [
  | inr short ↦
      unfold read_frame in
      rw (read_full-short r 4 (ground arith)) (no_header (ground arith) refl refl refl)
  | inl long ↦
      rw (read_frame-header r array (ground arith))
        (elim (Bool-cases (ltb max_frame_size (announced r))) [
          | inl big ↦ rw big (too_long (ground arith) (ground arith) refl refl refl)
          | inr fits ↦ rw fits (body-Reads r array (ground arith) (ground arith))
        ])
]

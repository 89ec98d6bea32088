-- ===== src/Broker/Fanout/Safety.antt =====
-- What holds at every moment of a run in mode `broadcast`.
use message_queue.Prelude.{
  ℕ, ◌+◌, ◌<◌, ◌≡◌, refl, sym, ap, ◌∙◌, inl, inr, List, [], ◌∷◌, ◌++◌, append_assoc, append-nil,
  length, take, All, arith, leb, Bool-cases, true, false,
}
use message_queue.Prelude.Family.{of, all_of}
use message_queue.Prelude.Sub.{Sub, Sub-skip}
use message_queue.Protocol.{Bytes, eof, Source, Sink, read_frame, write_frame}
use message_queue.Protocol.RoundTrip.{frame, length-frame, write_frame_lem, read_frame-frame}
use message_queue.Protocol.Outcomes.{ends_eof}
use message_queue.Broker.Registry.{Ref}
use message_queue.Broker.Registry.Broadcast.{elem, IsDistinct}
use message_queue.Broker.Producing.{frames, Fits}
use message_queue.Broker.System.Invariant.{frames-snoc}
use message_queue.Broker.System.Sent.{stream_of, All-rest}
use message_queue.Broker.Fanout.{
  Producing, reads, sends, stops, Consuming, waits, writes, leaves, breaks, System, after_read,
  after_write,
}

-- What a consumer's connection was written, against the messages that it took.
abbrev pub Written : Consuming → List Bytes → Type 0
Written (waits w) ms = w.written ≡ frames ms
Written (leaves w) ms = w.written ≡ frames ms
Written (writes m w) ms =
    (before : List Bytes) × (ms ≡ before ++ (m ∷ [])) × (w.written ≡ frames before)
Written (breaks e w) ms =
    (before : List Bytes) × (m : Bytes) × (k : ℕ) × (k < length (frame m))
    × (ms ≡ before ++ (m ∷ []))
    × (w.written ≡ frames before ++ take k (frame m))

-- A list that the channel is still to be sent to has it only while nothing of the message arrived.
abbrev pub Fresh : List Ref → (Ref → List Bytes) → List Bytes → Type 0
Fresh [] acc heard = Unit {0}
Fresh (ch ∷ todo) acc heard = Sub (acc ch) heard × Fresh todo acc heard

-- A producer that sends `ms`, over channels among `chans`; `acc` is what it has sent to each.
abbrev pub Sends : List Ref → List Bytes → Producing → (Ref → List Bytes) → Type 0
Sends chans ms (reads r array) acc =
    (heard rest : List Bytes) × (ms ≡ heard ++ rest)
    × (r ≡ stream_of rest)
    × ((ch : Ref) → Sub (acc ch) heard)
Sends chans ms (sends m todo r array) acc =
    (heard rest : List Bytes) × (ms ≡ heard ++ (m ∷ rest))
    × (r ≡ stream_of rest)
    × ((ch : Ref) → Sub (acc ch) (heard ++ (m ∷ [])))
    × Fresh todo acc heard
    × IsDistinct todo
    × All (λ x. elem x chans ≡ true) todo
Sends chans ms (stops e) acc = (e ≡ eof) × ((ch : Ref) → Sub (acc ch) ms)

pub record Ok (chans : List Ref) (ms : ℕ → List Bytes) (s : System) : Type 0 where
  pub live : (ch : Ref) → elem ch chans ≡ true → (s.store ch).closed ≡ false
  pub balance : (ch : Ref) → all_of (s.sent ch) ≡ s.taken ch ++ (s.store ch).buffer
  pub written : (ch : Ref) → Written (s.consumers ch) (s.taken ch)
  pub order : (p : ℕ) → Sends chans (ms p) (s.producers p) (λ ch. of p (s.sent ch))

pub Written-write :
    (m : Bytes) (w : Sink) (ms : List Bytes)
    → Written (writes m w) ms
    → Written (after_write (write_frame w m)) ms
Written-write m w ms (before, e, h) =
    rw (write_frame_lem w m) (elim (Bool-cases (leb (4 + length m) w.room)) [
      | inl fits ↦ rw (fits, e, h) (sym (frames-snoc before m))
      | inr full ↦ rw full (before, m, w.room, ground (arith, length-frame m), e, rw h)
    ])

pub Fresh-same :
    (todo : List Ref) (acc : Ref → List Bytes) (heard : List Bytes)
    → ((ch : Ref) → Sub (acc ch) heard)
    → Fresh todo acc heard
Fresh-same [] acc heard h = tt
Fresh-same (ch ∷ todo) acc heard h = (h ch, Fresh-same todo acc heard h)

-- A read starts a broadcast to `order`.
pub Sends-read :
    (chans order : List Ref) (ms : List Bytes) (r : Source) (array : Bytes) (acc : Ref → List Bytes)
    → All Fits ms
    → IsDistinct order
    → All (λ x. elem x chans ≡ true) order
    → Sends chans ms (reads r array) acc
    → Sends chans ms (after_read order (read_frame r array)) acc
Sends-read chans order ms r array acc fits d among (heard, [], split, at, sub) =
    rw (at, ends_eof array) (refl, rw (split, append-nil heard) sub)
Sends-read chans order ms r array acc fits d among (heard, m ∷ rest, split, at, sub) =
    let f =
      read_frame-frame m (frames rest) array eof (All-rest heard (m ∷ rest) ms split fits).0 in
    rw (at, f.error)
      (
        heard,
        rest,
        split ∙ ap (λ b. heard ++ (b ∷ rest)) (sym f.body_eq),
        f.source,
        λ ch. Sub-skip (acc ch) heard _ (sub ch),
        Fresh-same order acc heard sub,
        d,
        among,
      )

-- The broadcast is over.
pub Sends-over :
    (chans todo : List Ref) (ms : List Bytes) (m : Bytes) (r : Source) (array : Bytes)
    (acc : Ref → List Bytes)
    → Sends chans ms (sends m todo r array) acc
    → Sends chans ms (reads r array) acc
Sends-over chans todo ms m r array acc (heard, rest, split, at, sub, _, _, _) =
    (heard ++ (m ∷ []), rest, split ∙ sym (append_assoc heard (m ∷ []) rest), at, sub)

-- ===== src/Broker/System/Invariant.antt =====
-- What holds at every moment, whatever the order of the turns.
use message_queue.Prelude.{
  ℕ, ◌+◌, ◌<◌, ◌≡◌, sym, ap, ◌∙◌, inl, inr, Option, List, [], ◌∷◌, ◌++◌, append_assoc, append-nil,
  length, take, arith, leb, ltb, Bool-cases,
}
use message_queue.Prelude.Family.{set, set_all, of, all_of, of-snoc_self, of-snoc_other}
use message_queue.Protocol.{Bytes, Sink, write_frame}
use message_queue.Protocol.RoundTrip.{frame, length-frame, write_frame_lem}
use message_queue.Broker.Queue.{MemoryMessageQueue, QueueError}
use message_queue.Broker.Queue.Fifo.{holds, view, IsValid, spec_enqueue}
use message_queue.Broker.Producing.{frames}
use message_queue.Broker.System.{
  Consuming, asks, writes, finds_none, breaks, System, accepts, after_write,
}

-- What a consumer's connection was written, against the messages that it took: their frames; but a
-- message that is about to be written is missing, and one whose write failed is there in part only.
abbrev pub Written : Consuming → List Bytes → Type 0
Written (asks w) ms = w.written ≡ frames ms
Written (finds_none e w) ms = w.written ≡ frames ms
Written (writes m w) ms = (sent : List Bytes) × (ms ≡ sent ++ (m ∷ [])) × (w.written ≡ frames sent)
Written (breaks e w) ms =
    (sent : List Bytes) × (m : Bytes) × (k : ℕ) × (k < length (frame m))
    × (ms ≡ sent ++ (m ∷ []))
    × (w.written ≡ frames sent ++ take k (frame m))

pub record Ok (s : System) : Type 0 where
  pub valid : IsValid s.queue
  pub waiting : List Bytes
  pub contents : view s.queue ≡ holds waiting
  pub in_order : all_of s.accepted ≡ all_of s.taken ++ waiting
  pub written : (c : ℕ) → Written (s.consumers c) (of c s.taken)

pub frames-snoc : (ms : List Bytes) (m : Bytes) → frames (ms ++ (m ∷ [])) ≡ frames ms ++ frame m
frames-snoc [] m = append-nil (frame m)
frames-snoc (n ∷ ms) m = rw (frames-snoc ms m) (sym (append_assoc (frame n) (frames ms) (frame m)))

-- A call of `Enqueue` that is accepted waits behind the others.
pub enqueue_waits :
    (q q' : MemoryMessageQueue) (ms : List Bytes) (p : ℕ) (m : Bytes) (e : Option QueueError)
    → view q ≡ holds ms
    → view q' ≡ (spec_enqueue q.size (view q) m).0
    → e ≡ (spec_enqueue q.size (view q) m).1
    → view q' ≡ holds (ms ++ all_of (accepts p m e))
enqueue_waits q q' ms p m e h hv he = elim (Bool-cases (ltb (length ms) q.size)) [
  | inl room ↦ hv ∙ rw (he, h, room)
  | inr full ↦ hv ∙ rw (he, h, full) (ap holds (sym (append-nil ms)))
]

pub Written-write :
    (m : Bytes) (w : Sink) (ms : List Bytes)
    → Written (writes m w) ms
    → Written (after_write (write_frame w m)) ms
Written-write m w ms (sent, e, h) =
    rw (write_frame_lem w m) (elim (Bool-cases (leb (4 + length m) w.room)) [
      | inl fits ↦ rw (fits, e, h) (sym (frames-snoc sent m))
      | inr full ↦ rw full (sent, m, w.room, ground (arith, length-frame m), e, rw h)
    ])

-- A consumer that takes the next message holds it; nothing changes for the others.
pub Written-take :
    (s : System) (c : ℕ) (w : Sink) (m : Bytes)
    → s.consumers c ≡ asks w
    → ((d : ℕ) → Written (s.consumers d) (of d s.taken))
    → (d : ℕ) → Written (set s.consumers c (writes m w) d) (of d (s.taken ++ ((c, m) ∷ [])))
Written-take s c w m at h =
    set_all (λ d x. Written x (of d (s.taken ++ ((c, m) ∷ [])))) s.consumers c (writes m w)
      (of c s.taken, of-snoc_self c s.taken m, rw at at (h c))
      (λ d other. rw (of-snoc_other d c s.taken m other) (h d))

pub Written-set :
    (s : System) (c : ℕ) (x : Consuming)
    → ((d : ℕ) → Written (s.consumers d) (of d s.taken))
    → Written x (of c s.taken)
    → (d : ℕ) → Written (set s.consumers c x d) (of d s.taken)
Written-set s c x h new =
    set_all (λ d y. Written y (of d s.taken)) s.consumers c x new (λ d other. h d)

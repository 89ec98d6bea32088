-- ===== src/Broker/System/Sent.antt =====
-- What the producers sent, against what the queue accepted and the consumers took.
use message_queue.Prelude.{
  ℕ, ◌≡◌, refl, sym, ap, subst, ◌∙◌, inl, inr, Option, none, some, List, [], ◌∷◌, ◌++◌,
  append_assoc, append-nil, All, ◌==◌, false,
}
use message_queue.Prelude.Go.{Go-cases, returns}
use message_queue.Prelude.Family.{set, set_all, of, of-snoc_self, of-snoc_other}
use message_queue.Prelude.Sub.{Sub, Sub-skip, Sub-keep, Sub-append}
use message_queue.Protocol.{Bytes, eof, Source, Sink, read_frame}
use message_queue.Protocol.RoundTrip.{read_frame-frame}
use message_queue.Protocol.Outcomes.{ends_eof}
use message_queue.Broker.Producing.{frames, Fits}
use message_queue.Broker.Queue.{
  MemoryMessageQueue, QueueError, Dequeued, got, failed, enqueue, dequeue,
}
use message_queue.Broker.System.{
  Producing, reads, delivers, stops, Consuming, asks, writes, finds_none, breaks, System, Turn,
  producer, consumer, accepts, after_read, after_enqueue, after_dequeue, produce, consume, turn,
  run,
}
use message_queue.Broker.System.Invariant.{Ok}
use message_queue.Broker.System.Turns.{turn-Goes}

-- A stream of the frames of messages, and nothing behind them.
abbrev pub stream_of : List Bytes → Source
stream_of ms = record { pending = frames ms; ending = eof }

-- A producer that sends `ms`: what it has still to send, and what was accepted from it.
abbrev pub Sends : List Bytes → Producing → List Bytes → Type 0
Sends ms (reads r array) acc =
    (heard rest : List Bytes) × (ms ≡ heard ++ rest) × (r ≡ stream_of rest) × Sub acc heard
Sends ms (delivers m r array) acc =
    (heard rest : List Bytes) × (ms ≡ heard ++ (m ∷ rest)) × (r ≡ stream_of rest) × Sub acc heard
Sends ms (stops e) acc = (e ≡ eof) × Sub acc ms

pub All-rest : (heard rest ms : List Bytes) → ms ≡ heard ++ rest → All Fits ms → All Fits rest
All-rest [] rest ms h fits = subst (All Fits) h fits
All-rest (m ∷ heard) rest ms h fits =
    All-rest heard rest (heard ++ rest) refl (subst (All Fits) h fits).1

Sends-read :
    (ms : List Bytes) (r : Source) (array : Bytes) (acc : List Bytes)
    → All Fits ms
    → Sends ms (reads r array) acc
    → Sends ms (after_read (read_frame r array)) acc
Sends-read ms r array acc fits (heard, [], split, at, sub) =
    rw (at, ends_eof array) (refl, rw (split, append-nil heard) sub)
Sends-read ms r array acc fits (heard, m ∷ rest, split, at, sub) =
    let d =
      read_frame-frame m (frames rest) array eof (All-rest heard (m ∷ rest) ms split fits).0 in
    rw (at, d.error)
      (heard, rest, split ∙ ap (λ b. heard ++ (b ∷ rest)) (sym d.body_eq), d.source, sub)

-- A body that is accepted is the next of the accepted; one that is refused is left out.
Sends-enqueue :
    (ms : List Bytes) (m : Bytes) (r : Source) (array : Bytes) (acc : List (ℕ × Bytes)) (p : ℕ)
    (e : Option QueueError)
    → Sends ms (delivers m r array) (of p acc)
    → Sends ms (reads r array) (of p (acc ++ accepts p m e))
Sends-enqueue ms m r array acc p none (heard, rest, split, at, sub) = rw (of-snoc_self p acc m) (
  heard ++ (m ∷ []),
  rest,
  split ∙ sym (append_assoc heard (m ∷ []) rest),
  at,
  Sub-keep (of p acc) heard m sub,
)
Sends-enqueue ms m r array acc p (some e) (heard, rest, split, at, sub) = rw (append-nil acc) (
  heard ++ (m ∷ []),
  rest,
  split ∙ sym (append_assoc heard (m ∷ []) rest),
  at,
  Sub-skip (of p acc) heard m sub,
)

of-accepts_other :
    (p i : ℕ) (acc : List (ℕ × Bytes)) (m : Bytes) (e : Option QueueError)
    → (p == i) ≡ false
    → of p (acc ++ accepts i m e) ≡ of p acc
of-accepts_other p i acc m none h = of-snoc_other p i acc m h
of-accepts_other p i acc m (some e) h = rw (append-nil acc)

-- Every producer `p` sends `sent p`.
abbrev pub AllSend : (ℕ → List Bytes) → System → Type 0
AllSend sent s = (p : ℕ) → Sends (sent p) (s.producers p) (of p s.accepted)

produce-AllSend :
    (sent : ℕ → List Bytes) (s t : System) (i : ℕ) (x : Producing)
    → All Fits (sent i)
    → s.producers i ≡ x
    → AllSend sent s
    → produce s i x ≡ returns t
    → AllSend sent t
produce-AllSend sent s t i (reads r array) fits at all h =
    let next = after_read (read_frame r array) in
    let e : record s { producers = set s.producers i next } ≡ t = cc h in
    rw (← e) (
      set_all (λ p y. Sends (sent p) y (of p s.accepted)) s.producers i next
        (Sends-read (sent i) r array (of i s.accepted) fits (rw at at (all i))) (λ p other. all p))
produce-AllSend sent s t i (delivers m r array) fits at all h =
    elim (Go-cases (enqueue s.queue m)) [
      | inr k ↦ let stuck = rw k at h in absurd (cc stuck)
      | inl ((q, e), k) ↦
          let same : after_enqueue s i m (reads r array) (q, e) ≡ t = cc (rw k at h) in
          rw (← same) (
            set_all (λ p y. Sends (sent p) y (of p (s.accepted ++ accepts i m e))) s.producers i
              (reads r array) (Sends-enqueue (sent i) m r array s.accepted i e (rw at at (all i)))
              (λ p other. rw (of-accepts_other p i s.accepted m e other) (all p)))
    ]
produce-AllSend sent s t i (stops e) fits at all h = let same : s ≡ t = cc h in rw (← same) all

after_dequeue-AllSend :
    (sent : ℕ → List Bytes) (s : System) (c : ℕ) (w : Sink) (q : MemoryMessageQueue) (d : Dequeued)
    → AllSend sent s
    → AllSend sent (after_dequeue s c w (q, d))
after_dequeue-AllSend sent s c w q (got m) all = all
after_dequeue-AllSend sent s c w q (failed e) all = all

consume-AllSend :
    (sent : ℕ → List Bytes) (s : System) (c : ℕ) (x : Consuming)
    → AllSend sent s
    → AllSend sent (consume s c x)
consume-AllSend sent s c (asks w) all =
    after_dequeue-AllSend sent s c w (dequeue s.queue).0 (dequeue s.queue).1 all
consume-AllSend sent s c (writes m w) all = all
consume-AllSend sent s c (finds_none e w) all = all
consume-AllSend sent s c (breaks e w) all = all

turn-AllSend :
    (sent : ℕ → List Bytes) (s t : System) (u : Turn)
    → ((p : ℕ) → All Fits (sent p))
    → AllSend sent s
    → turn s u ≡ returns t
    → AllSend sent t
unfolding turn
turn-AllSend sent s t (producer p) fits all h =
    produce-AllSend sent s t p (s.producers p) (fits p) refl all h
turn-AllSend sent s t (consumer c) fits all h =
    let e : consume s c (s.consumers c) ≡ t = cc h in
    rw (← e) (consume-AllSend sent s c (s.consumers c) all)

pub run-AllSend :
    (sent : ℕ → List Bytes) (s t : System) (ts : List Turn)
    → ((p : ℕ) → All Fits (sent p))
    → Ok s
    → AllSend sent s
    → run s ts ≡ returns t
    → AllSend sent t
unfolding run
run-AllSend sent s t [] fits ok all h = let e : s ≡ t = cc h in rw (← e) all
run-AllSend sent s t (u ∷ ts) fits ok all h =
    let first = turn-Goes s u ok in
    run-AllSend sent first.after t ts fits first.ok
      (turn-AllSend sent s first.after u fits all first.answer) (rw first.answer at h)

pub Sends-Sub : (ms : List Bytes) (x : Producing) (acc : List Bytes) → Sends ms x acc → Sub acc ms
Sends-Sub ms (reads r array) acc (heard, rest, split, at, sub) =
    rw split (Sub-append acc heard rest sub)
Sends-Sub ms (delivers m r array) acc (heard, rest, split, at, sub) =
    rw split (Sub-append acc heard (m ∷ rest) sub)
Sends-Sub ms (stops e) acc (at_end, sub) = sub

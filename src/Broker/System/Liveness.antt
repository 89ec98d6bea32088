-- ===== src/Broker/System/Liveness.antt =====
-- A producer's handler returns once it has had its turns, whatever the others do in between.
use message_queue.Prelude.{
  ℕ, ◌+◌, ◌-◌, ◌*◌, ◌≤◌, ◌≡◌, refl, inl, inr, List, [], ◌∷◌, length, arith, ◌==◌, false, Bool-cases,
  Option-cases, if◌then◌else◌,
}
use message_queue.Prelude.Go.{Go-cases, returns}
use message_queue.Prelude.Family.{set, set_self}
use message_queue.Protocol.{Bytes, IoError, Source, Sink, read_frame}
use message_queue.Protocol.Outcomes.{read_frame-Progress}
use message_queue.Broker.Queue.{MemoryMessageQueue, Dequeued, got, failed, enqueue, dequeue}
use message_queue.Broker.System.{
  Producing, reads, delivers, stops, Consuming, asks, writes, finds_none, breaks, System, Turn,
  producer, consumer, after_read, after_enqueue, produce, after_dequeue, consume, turn, run,
}
use message_queue.Broker.System.Invariant.{Ok}
use message_queue.Broker.System.Turns.{turn-Goes, run-Goes}

-- How many turns a handler can need: two for each byte that is left to read, at most.
abbrev pub needs : Producing → ℕ
needs (reads r array) = 2 * length r.pending + 1
needs (delivers m r array) = 2 * length r.pending + 2
needs (stops e) = 0

-- How many turns of a list are the producer's.
abbrev pub share : ℕ → List Turn → ℕ
share p [] = 0
share p (producer i ∷ ts) = if p == i then 1 + share p ts else share p ts
share p (consumer c ∷ ts) = share p ts

needs-read :
    (r : Source) (array : Bytes) → needs (after_read (read_frame r array)) ≤ 2 * length r.pending
needs-read r array = elim (Option-cases (read_frame r array).error) [
  | inr (e, h) ↦ rw h (omega arith)
  | inl h ↦ rw h (omega (arith, (read_frame-Progress r array h).shorter))
]

-- A turn of the producer brings it nearer to its end.
own_turn :
    (s t : System) (p : ℕ) (x : Producing)
    → s.producers p ≡ x
    → produce s p x ≡ returns t
    → needs (t.producers p) ≤ needs x - 1
own_turn s t p (reads r array) at h =
    let e : record s { producers = set s.producers p (after_read (read_frame r array)) } ≡ t =
      cc h in
    rw (← e, set_self s.producers p (after_read (read_frame r array)))
      (omega (arith, needs-read r array))
own_turn s t p (delivers m r array) at h = elim (Go-cases (enqueue s.queue m)) [
  | inl (a, k) ↦
      let e : after_enqueue s p m (reads r array) a ≡ t = cc (rw k at h) in
      rw (← e, set_self s.producers p (reads r array)) (omega arith)
  | inr k ↦ let stuck = rw k at h in absurd (cc stuck)
]
own_turn s t p (stops error) at h = let e : s ≡ t = cc h in rw (← e, at) (omega arith)

-- A turn of another handler does not change where it stands.
other_turn :
    (s t : System) (p i : ℕ) (x : Producing)
    → (p == i) ≡ false
    → produce s i x ≡ returns t
    → t.producers p ≡ s.producers p
other_turn s t p i (reads r array) other h =
    let e : record s { producers = set s.producers i (after_read (read_frame r array)) } ≡ t =
      cc h in
    rw (← e, other)
other_turn s t p i (delivers m r array) other h = elim (Go-cases (enqueue s.queue m)) [
  | inl (a, k) ↦
      let e : after_enqueue s i m (reads r array) a ≡ t = cc (rw k at h) in rw (← e, other)
  | inr k ↦ let stuck = rw k at h in absurd (cc stuck)
]
other_turn s t p i (stops error) other h = let e : s ≡ t = cc h in rw (← e)

after_dequeue-producers :
    (s : System) (c : ℕ) (w : Sink) (q : MemoryMessageQueue) (d : Dequeued)
    → (after_dequeue s c w (q, d)).producers ≡ s.producers
after_dequeue-producers s c w q (got m) = refl
after_dequeue-producers s c w q (failed e) = refl

consumer_turn : (s : System) (c : ℕ) (x : Consuming) → (consume s c x).producers ≡ s.producers
consumer_turn s c (asks w) = after_dequeue-producers s c w (dequeue s.queue).0 (dequeue s.queue).1
consumer_turn s c (writes m w) = refl
consumer_turn s c (finds_none e w) = refl
consumer_turn s c (breaks e w) = refl

-- A turn takes off what it is the producer's share of.
turn-share :
    (s t : System) (p : ℕ) (u : Turn)
    → turn s u ≡ returns t
    → needs (t.producers p) ≤ needs (s.producers p) - share p (u ∷ [])
unfolding turn
turn-share s t p (producer i) h = elim (Bool-cases (p == i)) [
  | inl same ↦
      let e : p ≡ i = ground arith in rw same (own_turn s t p (s.producers p) refl (rw (← e) at h))
  | inr other ↦ rw (other, other_turn s t p i (s.producers i) other h) (omega arith)
]
turn-share s t p (consumer c) h =
    let e : consume s c (s.consumers c) ≡ t = cc h in
    rw (← e, consumer_turn s c (s.consumers c)) (omega arith)

share-cons : (p : ℕ) (u : Turn) (ts : List Turn) → share p (u ∷ ts) ≡ share p (u ∷ []) + share p ts
share-cons p (producer i) ts = ground arith
share-cons p (consumer c) ts = omega arith

run-share :
    (s t : System) (p : ℕ) (ts : List Turn)
    → Ok s
    → run s ts ≡ returns t
    → needs (t.producers p) ≤ needs (s.producers p) - share p ts
unfolding run
run-share s t p [] ok h = let e : s ≡ t = cc h in rw (← e) (omega arith)
run-share s t p (u ∷ ts) ok h =
    let first = turn-Goes s u ok in
    let one = turn-share s first.after p u first.answer in
    let rest = run-share first.after t p ts first.ok (rw first.answer at h) in
    omega (arith, share-cons p u ts)

needs-zero : (x : Producing) → needs x ≡ 0 → (e : IoError) × (x ≡ stops e)
needs-zero (reads r array) h = absurd (omega arith)
needs-zero (delivers m r array) h = absurd (omega arith)
needs-zero (stops e) h = (e, refl)

-- With many connections at once and turns in any order, from a good state: a producer's handler has
-- returned as soon as it has had two turns for each byte of its stream, and one more, or two where it
-- already holds a message. Nothing that the others do can hold it up.
pub run-stops :
    (s : System) (p : ℕ) (ts : List Turn)
    → Ok s
    → needs (s.producers p) ≤ share p ts
    → (t : System) × (e : IoError) × (run s ts ≡ returns t) × (t.producers p ≡ stops e)
run-stops s p ts ok enough =
    let all = run-Goes s ts ok in
    let (e, stopped) =
      needs-zero (all.after.producers p)
        (omega (arith, run-share s all.after p ts ok all.answer)) in
    (all.after, e, all.answer, stopped)

-- ===== src/Broker/Fanout/Alone.antt =====
-- The producer's handler of internal/broker/broker.go in delivery mode `broadcast`, run from start to
-- end, is a run of turns.
use message_queue.Prelude.{
  ℕ, zero, suc, ◌+◌, ◌<◌, ◌≡◌, refl, ap, ◌∙◌, inl, inr, Option, none, some, List, [], ◌∷◌, length,
  replicate, arith, sym, subst, Option-cases,
}
use message_queue.Prelude.Go.{Go, returns, panics, ◌>>=◌, Go-cases}
use message_queue.Prelude.Family.{set, set_self}
use message_queue.Protocol.{Bytes, IoError, Source, read_frame}
use message_queue.Protocol.Outcomes.{read_frame-Progress}
use message_queue.Broker.Channel.{offer}
use message_queue.Broker.Mode.{broadcast}
use message_queue.Broker.Registry.{
  Ref, Store, RegistryError, channel_full, send_all, broadcast_message,
}
use message_queue.Broker.Handlers.{Broker, Order, Served, closed, crashed, deliver, handle_producer}
use message_queue.Broker.Fanout.{
  Producing, reads, sends, stops, System, producer, after_send, produce, turn, run,
}

-- A producer's turn, by where its handler stands.
turn_at :
    (s : System) (p : ℕ) (order : List Ref) (x : Producing)
    → s.producers p ≡ x
    → turn s (producer p order) ≡ produce s p order x
unfolding turn
turn_at s p order x at = ap (produce s p order) at

-- What the loop of `BroadcastMessage` answers.
abbrev Broadcast : Type 0
Broadcast = Go (Store × Option RegistryError)

module _ (p : ℕ) (order : List Ref) where
  -- The handler of `p` alone has `n` turns.
  abbrev alone : System → ℕ → Go System
  alone s n = run s (replicate n (producer p order))

  alone_first :
      (s : System) (n : ℕ) (x : Producing)
      → s.producers p ≡ x
      → alone s (suc n) ≡ (produce s p order x >>= λ t. alone t n)
  unfolding run
  alone_first s n x at = rw (turn_at s p order x at)

  alone_split : (s : System) (m n : ℕ) → alone s (m + n) ≡ (alone s m >>= λ t. alone t n)
  unfolding run
  alone_split s zero n = let e : 0 + n ≡ n = omega arith in ap (alone s) e
  alone_split s (suc m) n =
      let e : suc m + n ≡ suc (m + n) = omega arith in
      rw e (elim (Go-cases (turn s (producer p order))) [
        | inl (t, e) ↦ rw e (alone_split t m n)
        | inr e ↦ rw e
      ])

  -- Turns that do the rest of a broadcast, and leave the handler before its next read.
  data Broadcasts (s : System) (r : Source) (array : Bytes) : Broadcast → Type 0 where
    sent :
        (n : ℕ) (t : System) (e : Option RegistryError)
        → alone s n ≡ returns t
        → t.producers p ≡ reads r array
        → Broadcasts s r array (returns (t.store, e))
    panicked : (n : ℕ) → alone s n ≡ panics → Broadcasts s r array panics

  -- Turns behind a first one that leads from `s` to `t`.
  Broadcasts-first :
      (s t : System) (x : Producing) (r : Source) (array : Bytes) (g : Broadcast)
      → s.producers p ≡ x
      → produce s p order x ≡ returns t
      → Broadcasts t r array g
      → Broadcasts s r array g
  Broadcasts-first s t x r array g at first (sent n u e run_is ready) =
      sent (suc n) u e (rw (alone_first s n x at, first) run_is) ready
  Broadcasts-first s t x r array g at first (panicked n run_is) =
      panicked (suc n) (rw (alone_first s n x at, first) run_is)

  send_all-Broadcasts :
      (s : System) (m : Bytes) (todo : List Ref) (r : Source) (array : Bytes)
      → s.producers p ≡ sends m todo r array
      → Broadcasts s r array (send_all s.store todo m)
  unfolding send_all run
  send_all-Broadcasts s m [] r array at =
      sent 1 (record s { producers = set s.producers p (reads r array) }) none
        (rw (turn_at s p order (sends m [] r array) at)) (set_self s.producers p (reads r array))
  send_all-Broadcasts s m (ch ∷ todo) r array at = elim (Go-cases (offer (s.store ch) m)) [
    | inr e ↦ rw e (panicked 1 (rw (turn_at s p order (sends m (ch ∷ todo) r array) at, e)))
    | inl (none, e) ↦ rw e (
        sent 1 (after_send s p ch m todo r array none) (some channel_full)
          (rw (turn_at s p order (sends m (ch ∷ todo) r array) at, e))
          (set_self s.producers p (reads r array)))
    | inl (some c, e) ↦
        let t = after_send s p ch m todo r array (some c) in
        rw e (
          Broadcasts-first s t (sends m (ch ∷ todo) r array) r array (send_all t.store todo m) at
            (rw e)
            (send_all-Broadcasts t m todo r array (set_self s.producers p (sends m todo r array))))
  ]

  -- The handler of producer `p`, when it alone has turns.
  pub data Alone (s : System) (b : Broker) : Served → Type 0 where
    stopped :
        (n : ℕ) (t : System) (e : IoError)
        → run s (replicate n (producer p order)) ≡ returns t
        → t.producers p ≡ stops e
        → Alone s b (closed e (record b { store = t.store }))
    panicked_too : (n : ℕ) → run s (replicate n (producer p order)) ≡ panics → Alone s b crashed

  -- Turns behind those that lead from `s` to `t`.
  Alone-later :
      (s t : System) (b : Broker) (n : ℕ) (served : Served)
      → alone s n ≡ returns t
      → Alone t b served
      → Alone s b served
  Alone-later s t b n served before (stopped k u e run_is at) =
      stopped (n + k) u e (alone_split s n k ∙ rw before run_is) at
  Alone-later s t b n served before (panicked_too k run_is) =
      panicked_too (n + k) (alone_split s n k ∙ rw before run_is)

  -- The store of `b` does not matter.
  Alone-keep :
      (s t : System) (b : Broker) (served : Served)
      → Alone s (record b { store = t.store }) served
      → Alone s b served
  Alone-keep s t b served (stopped n u e run_is at) = stopped n u e run_is at
  Alone-keep s t b served (panicked_too n run_is) = panicked_too n run_is

  -- A read of a frame, and the broadcast of its body.
  handle_producer-step :
      (ord : Order) (fuel : ℕ) (b : Broker) (r : Source) (array : Bytes) (s : System)
      (g : Broadcast)
      → Broadcasts s r array g
      → ((t : System)
          → t.producers p ≡ reads r array
          → Alone t
              (record b { store = t.store })
              (handle_producer ord fuel (record b { store = t.store }) r array))
      → Alone s b (elim (g >>= λ x. returns (record b { store = x.0 })) [
        | panics ↦ crashed
        | returns b' ↦ handle_producer ord fuel b' r array
      ])
  handle_producer-step ord fuel b r array s g (sent n t e run_is at) next =
      Alone-later s t b n (handle_producer ord fuel (record b { store = t.store }) r array) run_is (
        Alone-keep t t b (handle_producer ord fuel (record b { store = t.store }) r array)
          (next t at))
  handle_producer-step ord fuel b r array s g (panicked n run_is) next = panicked_too n run_is

deliver-broadcast :
    (ord : Order) (b : Broker) (m : Bytes) (store : Store)
    → b.mode ≡ broadcast
    → b.store ≡ store
    → deliver ord b m
      ≡ (send_all store (ord b.registry) m >>= λ x. returns (record b { store = x.0 }))
unfolding deliver broadcast_message
deliver-broadcast ord b m store mode same = rw (mode, same)

-- In delivery mode `broadcast`, the producer's handler of the broker, run from start to end, does what
-- its turns do when it alone has them: it returns with the same error, and leaves the same channels,
-- or panics as they do. The registry stays as it is. More rounds than the stream has bytes are enough.
pub handle_producer-Alone_broadcast :
    (ord : Order) (fuel : ℕ) (b : Broker) (r : Source) (array : Bytes) (s : System) (p : ℕ)
    → b.mode ≡ broadcast
    → b.store ≡ s.store
    → s.producers p ≡ reads r array
    → length r.pending < fuel
    → Alone p (ord b.registry) s b (handle_producer ord fuel b r array)
unfolding handle_producer run
handle_producer-Alone_broadcast ord zero b r array s p mode same at h = absurd (omega arith)
handle_producer-Alone_broadcast ord (suc fuel) b r array s p mode same at h =
    elim (Option-cases (read_frame r array).error) [
      | inr (e, k) ↦
          let t : System = record s { producers = set s.producers p (stops e) } in
          rw (k, handle_producer)
            (subst (λ x. Alone p (ord b.registry) s b (closed e (record b { store = x })))
              (sym same)
              (stopped 1 t e (rw (turn_at s p (ord b.registry) (reads r array) at, k))
                (set_self s.producers p (stops e))))
      | inl k ↦
          let f = read_frame r array in
          let order = ord b.registry in
          let x = sends f.body order f.source f.array in
          let t : System = record s { producers = set s.producers p x } in
          rw (k, handle_producer, deliver-broadcast ord b f.body s.store mode same)
            (handle_producer-step p order ord fuel b f.source f.array s
              (send_all s.store order f.body)
              (Broadcasts-first p order s t (reads r array) f.source f.array
                (send_all s.store order f.body) at (rw k)
                (send_all-Broadcasts p order t f.body order f.source f.array
                  (set_self s.producers p x)))
              (λ u ready.
                handle_producer-Alone_broadcast ord fuel (record b { store = u.store }) f.source
                  f.array u p mode refl ready
                  (omega (arith, (read_frame-Progress r array k).shorter))))
    ]

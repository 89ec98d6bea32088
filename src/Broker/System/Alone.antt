-- ===== src/Broker/System/Alone.antt =====
-- The handlers of internal/broker/broker.go, run from start to end, are runs of turns.
use message_queue.Prelude.{
  ℕ, zero, suc, ◌<◌, ◌≡◌, refl, ap, inl, inr, length, replicate, arith, Option-cases,
}
use message_queue.Prelude.Go.{returns}
use message_queue.Prelude.Family.{set, set_self}
use message_queue.Protocol.{Bytes, IoError, Source, read_frame}
use message_queue.Protocol.Outcomes.{read_frame-Progress}
use message_queue.Broker.Mode.{queue}
use message_queue.Broker.Queue.Fifo.{IsValid, enqueue_total, enqueue-IsValid}
use message_queue.Broker.Handlers.{Broker, Order, Served, closed, handle_producer}
use message_queue.Broker.Queueing.{deliver-queue}
use message_queue.Broker.System.{
  Producing, reads, delivers, stops, System, producer, after_enqueue, produce, turn, run,
}

-- A producer's turn, by where its handler stands.
turn_at :
    (s : System) (p : ℕ) (x : Producing) → s.producers p ≡ x → turn s (producer p) ≡ produce s p x
unfolding turn
turn_at s p x at = ap (produce s p) at

-- The handler of producer `p`, when it alone has turns.
pub record Alone (s : System) (p : ℕ) (served : Served) (b : Broker) : Type 0 where
  pub turns : ℕ
  pub after : System
  pub error : IoError
  pub answer : run s (replicate turns (producer p)) ≡ returns after
  pub stopped : after.producers p ≡ stops error
  pub same : served ≡ closed error (record b { messages = after.queue })

-- In delivery mode `queue`, with a valid queue, the producer's handler of the broker, run from start to
-- end, does what its turns do when it alone has them: it returns with the same error, and leaves the
-- same queue. More rounds than the stream has bytes are enough.
pub handle_producer-Alone :
    (order : Order) (fuel : ℕ) (b : Broker) (r : Source) (array : Bytes) (s : System) (p : ℕ)
    → b.mode ≡ queue
    → IsValid s.queue
    → b.messages ≡ s.queue
    → s.producers p ≡ reads r array
    → length r.pending < fuel
    → Alone s p (handle_producer order fuel b r array) b
unfolding handle_producer run
handle_producer-Alone order zero b r array s p mode v same at h = absurd (omega arith)
handle_producer-Alone order (suc fuel) b r array s p mode v same at h =
    elim (Option-cases (read_frame r array).error) [
      | inr (e, k) ↦
          let s₁ : System = record s { producers = set s.producers p (stops e) } in
          record {
            turns = 1;
            after = s₁;
            error = e;
            answer = rw (turn_at s p (reads r array) at, k);
            stopped = set_self s.producers p (stops e);
            same = rw (k, handle_producer, ← same);
          }
      | inl k ↦
          let f = read_frame r array in
          let s₁ : System = record s {
            producers = set s.producers p (delivers f.body f.source f.array);
          } in
          let (q, e, accepts_it, _, _) = enqueue_total s.queue v f.body in
          let s₂ = after_enqueue s₁ p f.body (reads f.source f.array) (q, e) in
          let ih =
            handle_producer-Alone order fuel (record b { messages = q }) f.source f.array s₂ p mode
              (enqueue-IsValid s.queue v f.body q e accepts_it).0 refl
              (set_self s₁.producers p (reads f.source f.array))
              (omega (arith, (read_frame-Progress r array k).shorter)) in
          record {
            turns = suc (suc ih.turns);
            after = ih.after;
            error = ih.error;
            answer =
                rw
                  (
                    turn_at s p (reads r array) at,
                    k,
                    turn_at s₁ p (delivers f.body f.source f.array)
                        (set_self s.producers p (delivers f.body f.source f.array)),
                    accepts_it,
                  )
                  ih.answer;
            stopped = ih.stopped;
            same =
                rw (k, handle_producer, deliver-queue order b f.body q e mode (rw same accepts_it))
                  ih.same;
          }
    ]

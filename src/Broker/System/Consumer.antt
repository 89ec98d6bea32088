-- ===== src/Broker/System/Consumer.antt =====
-- A consumer's handler, run from start to end, is a run of turns.
use message_queue.Prelude.{
  ℕ, zero, suc, ◌≡◌, refl, ap, ◌∙◌, inl, inr, Option, none, some, replicate, Option-cases, ◌⊎◌,
}
use message_queue.Prelude.Go.{returns}
use message_queue.Prelude.Family.{set_self}
use message_queue.Protocol.{Bytes, IoError, Sink, write_frame}
use message_queue.Broker.Queue.{QueueError, Dequeued, got, failed, dequeue}
use message_queue.Broker.Handlers.{
  Broker, Drained, no_more, write_failed, out_of_fuel, handle_consumer_queue,
}
use message_queue.Broker.Consuming.{failed_step, sent_step, broken_step}
use message_queue.Broker.System.{
  Consuming, asks, writes, finds_none, breaks, System, consumer, after_dequeue, after_write,
  consume, turn, run,
}

turn_at :
    (s : System) (c : ℕ) (x : Consuming)
    → s.consumers c ≡ x
    → turn s (consumer c) ≡ returns (consume s c x)
unfolding turn
turn_at s c x at = ap (λ y. returns (consume s c y)) at

-- The same end, with the same queue and the same connection.
abbrev pub Agrees : Broker → System → Drained → Consuming → Type 0
Agrees b t (no_more e b' w) x = (x ≡ finds_none e w) × (b' ≡ record b { messages = t.queue })
Agrees b t (write_failed e b' w) x = (x ≡ breaks e w) × (b' ≡ record b { messages = t.queue })
Agrees b t out_of_fuel x = (w : Sink) × (x ≡ asks w)

-- The handler of consumer `c`, when it alone has turns.
pub record Alone (s : System) (c : ℕ) (b : Broker) (drained : Drained) : Type 0 where
  pub turns : ℕ
  pub after : System
  pub answer : run s (replicate turns (consumer c)) ≡ returns after
  pub agrees : Agrees b after drained (after.consumers c)

answers : (d : Dequeued) → ((e : QueueError) × (d ≡ failed e)) ⊎ ((m : Bytes) × (d ≡ got m))
answers (failed e) = inl (e, refl)
answers (got m) = inr (m, refl)

dequeue_eq :
    (b : Broker) (s : System) (d : Dequeued)
    → b.messages ≡ s.queue
    → (dequeue s.queue).1 ≡ d
    → (dequeue s.queue ≡ ((dequeue s.queue).0, d)) × (dequeue b.messages ≡ ((dequeue s.queue).0, d))
dequeue_eq b s d same h =
    let e : dequeue s.queue ≡ ((dequeue s.queue).0, d) = ap (λ x. ((dequeue s.queue).0, x)) h in
    (e, rw same e)

write_eq :
    (w : Sink) (m : Bytes) (e : Option IoError)
    → (write_frame w m).0 ≡ e
    → write_frame w m ≡ (e, (write_frame w m).1)
write_eq w m e h = ap (λ x. (x, (write_frame w m).1)) h

-- In delivery mode `queue`, the consumer's handler of the broker, run from start to end, does what
-- its turns do when it alone has them: it ends in the same way, with the same queue and the same
-- written to its connection, or both still go on.
pub handle_consumer_queue-Alone :
    (fuel : ℕ) (b : Broker) (w : Sink) (s : System) (c : ℕ)
    → b.messages ≡ s.queue
    → s.consumers c ≡ asks w
    → Alone s c b (handle_consumer_queue fuel b w)
unfolding run
handle_consumer_queue-Alone zero b w s c same at =
    unfold handle_consumer_queue in record { turns = 0; after = s; answer = refl; agrees = (w, at) }
handle_consumer_queue-Alone (suc fuel) b w s c same at =
    let q = (dequeue s.queue).0 in
    elim (answers (dequeue s.queue).1) [
      | inl (e, k) ↦
          let (found, found_too) = dequeue_eq b s (failed e) same k in
          record {
            turns = 1;
            after = after_dequeue s c w (q, failed e);
            answer = rw (turn_at s c (asks w) at, found);
            agrees =
                rw (failed_step fuel b w q e found_too, set_self s.consumers c (finds_none e w))
                  (refl, refl);
          }
      | inr (m, k) ↦
          let (found, found_too) = dequeue_eq b s (got m) same k in
          let s₁ = after_dequeue s c w (q, got m) in
          let s₂ = consume s₁ c (writes m w) in
          let second = turn_at s₁ c (writes m w) (set_self s.consumers c (writes m w)) in
          let w' = (write_frame w m).1 in
          let at' : s₂.consumers c ≡ after_write (write_frame w m) =
            set_self s₁.consumers c (after_write (write_frame w m)) in
          elim (Option-cases (write_frame w m).0) [
            | inr (e, l) ↦ record {
              turns = 2;
              after = s₂;
              answer = rw (turn_at s c (asks w) at, found, second);
              agrees =
                  rw (broken_step fuel b w w' m q e found_too (write_eq w m (some e) l))
                    (at' ∙ ap after_write (write_eq w m (some e) l), refl);
            }
            | inl l ↦
                let ih =
                  handle_consumer_queue-Alone fuel (record b { messages = q }) w' s₂ c refl
                    (at' ∙ ap after_write (write_eq w m none l)) in
                record {
                  turns = suc (suc ih.turns);
                  after = ih.after;
                  answer = rw (turn_at s c (asks w) at, found, second) ih.answer;
                  agrees = rw (sent_step fuel b w w' m q found_too (write_eq w m none l)) ih.agrees;
                }
          ]
    ]

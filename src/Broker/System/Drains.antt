-- ===== src/Broker/System/Drains.antt =====
-- A consumer that alone has turns empties the queue.
use message_queue.Prelude.{
  ℕ, suc, ◌≤◌, ◌≡◌, refl, sym, ap, ◌∙◌, [], length, replicate, append-nil, arith,
}
use message_queue.Prelude.Go.{returns}
use message_queue.Prelude.Family.{all_of}
use message_queue.Protocol.{Sink}
use message_queue.Broker.Mode.{queue}
use message_queue.Broker.Channel.{make_chan}
use message_queue.Broker.Queue.{queue_empty}
use message_queue.Broker.Queue.Fifo.{holds, view}
use message_queue.Broker.Handlers.{Broker, no_more}
use message_queue.Broker.Producing.{frames}
use message_queue.Broker.Consuming.{after_frames, handle_consumer_queue_drains}
use message_queue.Broker.System.{asks, finds_none, System, consumer, run}
use message_queue.Broker.System.Invariant.{Ok}
use message_queue.Broker.System.Turns.{run-Goes}
use message_queue.Broker.System.Consumer.{Agrees, handle_consumer_queue-Alone}

abbrev broker_of : System → Broker
broker_of s = record { mode = queue; store = λ _. make_chan 0; registry = []; messages = s.queue }

all_taken : (t : System) → Ok t → view t.queue ≡ holds [] → all_of t.accepted ≡ all_of t.taken
all_taken t ok h =
    let none_waits : ok.waiting ≡ [] = cc (sym ok.contents ∙ h) in
    ok.in_order ∙ rw none_waits (append-nil (all_of t.taken))

-- From any good state: a consumer that is about to ask, and whose connection takes the frames of all
-- messages that wait, empties the queue when it alone has turns. It is written these frames in their
-- order, its handler returns, and each message that was accepted has been taken by one consumer.
pub run-drains :
    (s : System) (c : ℕ) (w : Sink) (ok : Ok s)
    → s.consumers c ≡ asks w
    → length (frames ok.waiting) ≤ w.room
    → (turns : ℕ) × (t : System) × (run s (replicate turns (consumer c)) ≡ returns t)
      × (t.consumers c ≡ finds_none queue_empty (after_frames w ok.waiting))
      × (view t.queue ≡ holds [])
      × (all_of t.accepted ≡ all_of t.taken)
run-drains s c w ok at room =
    let fuel = suc (length ok.waiting) in
    let (q, nothing_left, drains) =
      handle_consumer_queue_drains fuel (broker_of s) w ok.waiting (omega arith) ok.valid
        ok.contents room in
    let alone = handle_consumer_queue-Alone fuel (broker_of s) w s c refl at in
    let agrees : Agrees (broker_of s) alone.after
        (no_more queue_empty (record (broker_of s) { messages = q }) (after_frames w ok.waiting))
        (alone.after.consumers c) =
      rw drains at alone.agrees in
    let same : q ≡ alone.after.queue = ap (λ (b : Broker). b.messages) agrees.1 in
    let empty : view alone.after.queue ≡ holds [] = rw same at nothing_left in
    let end = run-Goes s (replicate alone.turns (consumer c)) ok in
    let reached : end.after ≡ alone.after = cc (sym end.answer ∙ alone.answer) in
    (
      alone.turns,
      alone.after,
      alone.answer,
      agrees.0,
      empty,
      all_taken alone.after (rw reached at end.ok) empty,
    )

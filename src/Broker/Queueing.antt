-- ===== src/Broker/Queueing.antt =====
-- A producer's messages in delivery mode `queue`.
use message_queue.Prelude.{
  ℕ, ◌≤◌, ◌≡◌, refl, sym, ap, ◌∙◌, inl, inr, Option, List, [], ◌∷◌, ◌++◌, append_assoc, append-nil,
  length, length-snoc, take, take_all, take-append_length, arith, ltb, Bool-cases, if◌then◌else◌,
}
use message_queue.Prelude.Go.{returns}
use message_queue.Protocol.{Bytes}
use message_queue.Broker.Mode.{queue}
use message_queue.Broker.Queue.{MemoryMessageQueue, QueueError, enqueue}
use message_queue.Broker.Queue.Fifo.{
  holds, view, IsValid, spec_enqueue, enqueue_total, enqueue-IsValid,
}
use message_queue.Broker.Handlers.{Broker, Order, deliver}
use message_queue.Broker.Producing.{deliver_all}

-- What `deliver_all` leaves in the queue: the messages up to its size, the oldest first.
pub record Queued (order : Order) (b : Broker) (waiting ms : List Bytes) : Type 0 where
  pub messages : MemoryMessageQueue
  pub eq : deliver_all order b ms ≡ returns (record b { messages = messages })
  pub valid : IsValid messages
  pub contents : view messages ≡ holds (take b.messages.size (waiting ++ ms))
  pub same_size : messages.size ≡ b.messages.size

pub deliver-queue :
    (order : Order) (b : Broker) (m : Bytes) (q : MemoryMessageQueue) (e : Option QueueError)
    → b.mode ≡ queue
    → enqueue b.messages m ≡ returns (q, e)
    → deliver order b m ≡ returns (record b { messages = q })
unfolding deliver
deliver-queue order b m q e mode h = ground arith

take-full : (n : ℕ) (ws zs : List Bytes) → length ws ≡ n → take n (ws ++ zs) ≡ ws
take-full n ws zs h = take-append_length n ws zs (sym h)

-- One more message, into a queue that holds `ws`.
abbrev room_for : ℕ → List Bytes → Bytes → List Bytes
room_for n ws m = if ltb (length ws) n then ws ++ (m ∷ []) else ws

spec_enqueue-holds :
    (n : ℕ) (ws : List Bytes) (m : Bytes)
    → (spec_enqueue n (holds ws) m).0 ≡ holds (room_for n ws m)
spec_enqueue-holds n ws m = ground arith

take-room_for :
    (n : ℕ) (ws ms : List Bytes) (m : Bytes)
    → length ws ≤ n
    → take n (room_for n ws m ++ ms) ≡ take n (ws ++ (m ∷ ms))
take-room_for n ws ms m h = elim (Bool-cases (ltb (length ws) n)) [
  | inl room ↦ rw (room, append_assoc ws (m ∷ []) ms)
  | inr full ↦
      let e : length ws ≡ n = ground arith in
      rw full (take-full n ws ms e ∙ sym (take-full n ws (m ∷ ms) e))
]

length-room_for :
    (n : ℕ) (ws : List Bytes) (m : Bytes) → length ws ≤ n → length (room_for n ws m) ≤ n
length-room_for n ws m h = ground (arith, length-snoc ws m)

-- In queue mode, with a valid queue, messages are queued behind those that wait, in their order, as
-- long as there is room; those that find the queue full are dropped. Nothing else of the broker
-- changes.
pub deliver_all-Queued :
    (order : Order) (b : Broker) (waiting ms : List Bytes)
    → b.mode ≡ queue
    → IsValid b.messages
    → view b.messages ≡ holds waiting
    → length waiting ≤ b.messages.size
    → Queued order b waiting ms
unfolding deliver_all
deliver_all-Queued order b ws [] mode v h fit = record {
  messages = b.messages;
  eq = refl;
  valid = v;
  contents = h ∙ ap holds (sym (rw (append-nil ws) (take_all b.messages.size ws fit)));
  same_size = refl;
}
deliver_all-Queued order b ws (m ∷ ms) mode v h fit =
    let (q, e, eq, vq, _) = enqueue_total b.messages v m in
    let (valid, size) = enqueue-IsValid b.messages v m q e eq in
    let vq' : view q ≡ holds (room_for b.messages.size ws m) =
      vq ∙ rw h (spec_enqueue-holds b.messages.size ws m) in
    let ih =
      deliver_all-Queued order (record b { messages = q }) (room_for b.messages.size ws m) ms mode
        valid vq' (rw size (length-room_for b.messages.size ws m fit)) in
    record {
      messages = ih.messages;
      eq = rw (deliver-queue order b m q e mode eq) ih.eq;
      valid = ih.valid;
      contents = ih.contents ∙ rw size (ap holds (take-room_for b.messages.size ws ms m fit));
      same_size = ih.same_size ∙ size;
    }

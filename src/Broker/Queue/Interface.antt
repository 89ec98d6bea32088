-- ===== src/Broker/Queue/Interface.antt =====
-- MessageQueue of internal/broker/interfaces.go: what the broker asks of a queue, what a queue
-- promises, and that MemoryMessageQueue keeps it.
use message_queue.Prelude.{ℕ, ◌≡◌, Bool, Option, leb}
use message_queue.Prelude.Go.{Go, returns}
use message_queue.Protocol.{Bytes}
use message_queue.Broker.Queue.{
  MemoryMessageQueue, QueueError, Dequeued, enqueue, dequeue, is_full, len, close,
}
use message_queue.Broker.Queue.Fifo.{
  View, shut, view, IsValid, spec_enqueue, spec_dequeue, spec_len, enqueue_total, enqueue-IsValid,
  dequeue_refines, dequeue-IsValid, len_refines, close_refines,
}

-- A queue of type `Q`. A call that changes the queue gives the queue after it.
pub record MessageQueue (Q : Type 0) : Type 0 where
  pub enqueue : Q → Bytes → Go (Q × Option QueueError)
  pub dequeue : Q → Q × Dequeued
  pub is_full : Q → Bool
  pub len : Q → ℕ
  pub close : Q → Go Q

-- The contract: on a valid queue no call panics, each does to the waiting messages what the
-- specification says, and leaves a valid queue of the same size.
pub record Laws {Q : Type 0} (ops : MessageQueue Q) : Type 1 where
  pub viewed : Q → View
  pub size_of : Q → ℕ
  pub Valid : Q → Type 0
  pub enqueues :
      (q : Q) (m : Bytes)
      → Valid q
      → (q' : Q) × (e : Option QueueError) × (ops.enqueue q m ≡ returns (q', e))
        × (viewed q' ≡ (spec_enqueue (size_of q) (viewed q) m).0)
        × (e ≡ (spec_enqueue (size_of q) (viewed q) m).1)
        × Valid q'
        × (size_of q' ≡ size_of q)
  pub dequeues :
      (q : Q)
      → Valid q
      → (viewed (ops.dequeue q).0 ≡ (spec_dequeue (viewed q)).0)
        × ((ops.dequeue q).1 ≡ (spec_dequeue (viewed q)).1)
        × Valid (ops.dequeue q).0
        × (size_of (ops.dequeue q).0 ≡ size_of q)
  pub counts :
      (q : Q)
      → Valid q
      → (ops.len q ≡ spec_len (viewed q)) × (ops.is_full q ≡ leb (size_of q) (spec_len (viewed q)))
  pub closes :
      (q : Q)
      → Valid q
      → (q' : Q) × (ops.close q ≡ returns q')
        × (viewed q' ≡ shut)
        × Valid q'
        × (size_of q' ≡ size_of q)

abbrev pub memory : MessageQueue MemoryMessageQueue
memory = record {
  enqueue = enqueue;
  dequeue = dequeue;
  is_full = is_full;
  len = len;
  close = close;
}

-- MemoryMessageQueue keeps the contract of MessageQueue.
abbrev pub memory_laws : Laws memory
memory_laws = record {
  viewed = view;
  size_of = λ q. q.size;
  Valid = IsValid;
  enqueues = λ q m v.
      let (q', e, h, hv, he) = enqueue_total q v m in
      let (valid, same) = enqueue-IsValid q v m q' e h in (q', e, h, hv, he, valid, same);
  dequeues = λ q v. (
    (dequeue_refines q v).0,
    (dequeue_refines q v).1,
    (dequeue-IsValid q v).0,
    (dequeue-IsValid q v).1,
  );
  counts = λ q v. len_refines q v;
  closes = λ q v. close_refines q v;
}

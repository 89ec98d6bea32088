-- ===== src/Broker/Queue/Fifo.antt =====
-- The queue refines a bounded first-in first-out list.
use message_queue.Prelude.{
  inl, inr, ℕ, ◌≤◌, ◌<◌, ◌≡◌, false, Option, none, some, List, [], ◌∷◌, ◌++◌, length, length-snoc,
  arith, ltb, leb, if◌then◌else◌,
}
use message_queue.Prelude.Go.{Go-cases, Go, returns, panics}
use message_queue.Prelude.Int.{ℤ, pos, negsuc}
use message_queue.Protocol.{Bytes}
use message_queue.Broker.Channel.{Chan, try_send, try_receive, close_chan}
use message_queue.Broker.Queue.{
  MemoryMessageQueue, QueueError, queue_closed, queue_full, queue_empty, Dequeued, got, failed,
  new_memory_message_queue, enqueue, dequeue, len, is_full, close,
}

-- The abstract queue: closed, or the waiting messages, oldest first.
pub data View : Type 0 where
  shut : View
  holds : List Bytes → View

abbrev pub view : MemoryMessageQueue → View
view q = elim q.queue [ none ↦ shut | some c ↦ holds c.buffer ]

-- An open queue has a live channel of the stated size, within its capacity.
abbrev ChanIsValid : ℕ → Option Chan → Type 0
ChanIsValid n none = Unit {0}
ChanIsValid n (some c) = (c.closed ≡ false) × (c.cap ≡ n) × (length c.buffer ≤ n)

pub record IsValid (q : MemoryMessageQueue) : Type 0 where
  pub positive : 0 < q.size
  pub chan : ChanIsValid q.size q.queue

-- The specification of one call: the view after it, and its answer.
abbrev pub spec_enqueue : ℕ → View → Bytes → View × Option QueueError
spec_enqueue n shut msg = (shut, some queue_closed)
spec_enqueue n (holds ms) msg =
    if ltb (length ms) n then (holds (ms ++ (msg ∷ [])), none) else (holds ms, some queue_full)

abbrev pub spec_dequeue : View → View × Dequeued
spec_dequeue shut = (shut, failed queue_closed)
spec_dequeue (holds []) = (holds [], failed queue_empty)
spec_dequeue (holds (m ∷ ms)) = (holds ms, got m)

abbrev pub spec_len : View → ℕ
spec_len shut = 0
spec_len (holds ms) = length ms

abbrev pub view_result {ℓ} : {A : Type ℓ} → Go (MemoryMessageQueue × A) → Go (View × A)
view_result (returns (q, a)) = returns (view q, a)
view_result panics = panics

-- A new queue is valid and empty, whatever size it is given.
new-IsValid :
    (n : ℤ) → IsValid (new_memory_message_queue n) × (view (new_memory_message_queue n) ≡ holds [])
unfolding new_memory_message_queue
new-IsValid (pos n) = ground arith
new-IsValid (negsuc n) = ground arith

module _ (q : MemoryMessageQueue) (v : IsValid q) where
  -- `Enqueue` on a valid queue does not panic, and does to the list of waiting messages what the
  -- specification says: appended at the end if there is room, else refused.
  pub enqueue_refines :
      (msg : Bytes) → view_result (enqueue q msg) ≡ returns (spec_enqueue q.size (view q) msg)
  unfolding enqueue try_send
  enqueue_refines msg = ground arith

  pub enqueue_total :
      (msg : Bytes)
      → (q' : MemoryMessageQueue) × (e : Option QueueError) × (enqueue q msg ≡ returns (q', e))
        × (view q' ≡ (spec_enqueue q.size (view q) msg).0)
        × (e ≡ (spec_enqueue q.size (view q) msg).1)
  enqueue_total msg = elim (Go-cases (enqueue q msg)) [
    | inl ((q', e), h) ↦
        let r : view_result (returns (q', e)) ≡ returns (spec_enqueue q.size (view q) msg) =
          rw h at (enqueue_refines msg) in
        (q', e, h, cc r, cc r)
    | inr h ↦ let r = rw h at (enqueue_refines msg) in absurd (cc r)
  ]

  pub enqueue-IsValid :
      (msg : Bytes) (q' : MemoryMessageQueue) (e : Option QueueError)
      → enqueue q msg ≡ returns (q', e)
      → IsValid q' × (q'.size ≡ q.size)
  unfolding enqueue try_send
  enqueue-IsValid msg q' e h = grind (arith, length-snoc)

  -- `Dequeue` on a valid queue does what the specification says: it takes the oldest waiting message
  -- and answers it, or answers an error and leaves the list alone, one error if the queue is empty and
  -- another if it is closed.
  pub dequeue_refines :
      (view (dequeue q).0 ≡ (spec_dequeue (view q)).0) × ((dequeue q).1 ≡ (spec_dequeue (view q)).1)
  unfolding dequeue try_receive
  dequeue_refines = ground arith

  pub dequeue-IsValid : IsValid (dequeue q).0 × ((dequeue q).0.size ≡ q.size)
  unfolding dequeue try_receive
  dequeue-IsValid = ground arith

  -- `Len` counts the waiting messages, and `IsFull` tells when `Enqueue` would refuse one.
  pub len_refines : (len q ≡ spec_len (view q)) × (is_full q ≡ leb q.size (spec_len (view q)))
  unfolding len is_full
  len_refines = ground arith

  pub close-none : close q ≡ returns (record q { queue = none })
  unfolding close close_chan
  close-none = ground arith

  -- `Close` does not panic, and leaves a closed queue, also when it is called again.
  pub close_refines :
      (q' : MemoryMessageQueue) × (close q ≡ returns q')
      × (view q' ≡ shut)
      × IsValid q'
      × (q'.size ≡ q.size)
  unfolding close close_chan
  close_refines = (record q { queue = none }, close-none, ground arith, ground arith, ground arith)

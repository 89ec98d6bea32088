-- ===== src/Broker/Queue/Race.antt =====
-- `Enqueue` against `Close`: nothing locks the queue, so `Close` can run between the nil check of
-- `Enqueue` and its send, as a whole or up to the assignment of nil.
use message_queue.Prelude.{◌≡◌, refl, true, false, Option, none, some, arith}
use message_queue.Prelude.Go.{Go, returns, panics, ◌>>=◌}
use message_queue.Protocol.{Bytes}
use message_queue.Broker.Channel.{Chan, try_send, close_chan}
use message_queue.Broker.Queue.{
  MemoryMessageQueue, QueueError, queue_full, after_send, enqueue, close,
}
use message_queue.Broker.Queue.Fifo.{IsValid}

-- `Enqueue` behind its nil check: a send to a nil channel is never ready, and the default is taken.
unfoldable pub send : MemoryMessageQueue → Bytes → Go (MemoryMessageQueue × Option QueueError)
send q msg = elim q.queue [
  | none ↦ returns (q, some queue_full)
  | some c ↦ try_send c msg >>= λ sent. returns (after_send q sent)
]

-- The two statements of `Close` behind its own nil check.
unfoldable pub close_only : MemoryMessageQueue → Go MemoryMessageQueue
close_only q = elim q.queue [
  | none ↦ panics
  | some c ↦ close_chan c >>= λ c'. returns (record q { queue = some c' })
]

abbrev pub forget : MemoryMessageQueue → MemoryMessageQueue
forget q = record q { queue = none }

-- Without anything in between, the pieces are the whole.
pub enqueue-send :
    (q : MemoryMessageQueue) (c : Chan) (msg : Bytes)
    → q.queue ≡ some c
    → enqueue q msg ≡ send q msg
unfolding enqueue send
enqueue-send q c msg h = rw h

close-close_only :
    (q : MemoryMessageQueue) (c : Chan)
    → q.queue ≡ some c
    → close q ≡ (close_only q >>= λ q'. returns (forget q'))
unfolding close close_only close_chan
close-close_only q c h = ground arith

-- The race of `Enqueue` and `Close` on a valid queue that is open. Where `Close` has closed the
-- channel and not yet set it to nil, the send of an `Enqueue` that is past its nil check panics, for
-- any message. Where `Close` is through, that send answers that the queue is full.
pub send_race :
    (q : MemoryMessageQueue) (c : Chan) (msg : Bytes)
    → IsValid q
    → q.queue ≡ some c
    → (q' : MemoryMessageQueue) × (close_only q ≡ returns q')
      × (send q' msg ≡ panics)
      × (close q ≡ returns (forget q'))
      × (send (forget q') msg ≡ returns (forget q', some queue_full))
unfolding close_only send close_chan try_send close
send_race q c msg v h =
    let open_now : c.closed ≡ false = ground arith in
    (
      record q { queue = some (record c { closed = true }) },
      rw (h, open_now),
      refl,
      rw (h, open_now),
      refl,
    )

-- ===== src/Broker/System/Start.antt =====
-- Many connections at once in delivery mode `queue`, from their start on.
use message_queue.Prelude.{ℕ, ◌≡◌, refl, List, [], ◌++◌, All}
use message_queue.Prelude.Go.{returns}
use message_queue.Prelude.Family.{of, all_of}
use message_queue.Prelude.Sub.{Sub, Sub-nil}
use message_queue.Protocol.{Bytes}
use message_queue.Broker.Producing.{Fits}
use message_queue.Broker.Queue.{MemoryMessageQueue}
use message_queue.Broker.Queue.Fifo.{holds, view, IsValid}
use message_queue.Broker.System.{reads, asks, System, Turn, run}
use message_queue.Broker.System.Invariant.{Written, Ok}
use message_queue.Broker.System.Turns.{run-Goes}
use message_queue.Broker.System.Sent.{stream_of, run-AllSend, Sends-Sub}

-- All connections at their start, on a queue: the producers' handlers have a buffer `array`, producer
-- `p` will send `sent p`, and consumer `c` has
-- a connection that takes `room c` bytes.
abbrev pub start : MemoryMessageQueue → Bytes → (ℕ → List Bytes) → (ℕ → ℕ) → System
start q array sent room = record {
  queue = q;
  producers = λ p. reads (stream_of (sent p)) array;
  consumers = λ c. asks (record { written = []; room = room c });
  accepted = [];
  taken = [];
}

start-Ok :
    (q : MemoryMessageQueue) (array : Bytes) (sent : ℕ → List Bytes) (room : ℕ → ℕ)
    → IsValid q
    → view q ≡ holds []
    → Ok (start q array sent room)
start-Ok q array sent room v h = record {
  valid = v;
  waiting = [];
  contents = h;
  in_order = refl;
  written = λ c. refl;
}

-- Delivery mode `queue`, with any number of producers and consumers. From an empty valid queue, where
-- each producer sends frames of messages of a megabyte at most, and after any turns in any order: no
-- turn has panicked; of each producer the queue has accepted a subsequence of what it sent; what was
-- accepted of all is, in order, what the consumers took, each message once, and then what waits; and
-- each consumer's connection was written the frames of what it took, in order, up to the last, which
-- may still be missing or be cut by a failed write.
pub run-start :
    (q : MemoryMessageQueue) (array : Bytes) (sent : ℕ → List Bytes) (room : ℕ → ℕ) (ts : List Turn)
    → IsValid q
    → view q ≡ holds []
    → ((p : ℕ) → All Fits (sent p))
    → (t : System) × (waiting : List Bytes) × (run (start q array sent room) ts ≡ returns t)
      × ((p : ℕ) → Sub (of p t.accepted) (sent p))
      × (view t.queue ≡ holds waiting)
      × (all_of t.accepted ≡ all_of t.taken ++ waiting)
      × ((c : ℕ) → Written (t.consumers c) (of c t.taken))
run-start q array sent room ts v h fits =
    let s = start q array sent room in
    let ok = start-Ok q array sent room v h in
    let end = run-Goes s ts ok in
    let all =
      run-AllSend sent s end.after ts fits ok (λ p. ([], sent p, refl, refl, Sub-nil []))
        end.answer in
    (
      end.after,
      end.ok.waiting,
      end.answer,
      λ p. Sends-Sub (sent p) (end.after.producers p) (of p end.after.accepted) (all p),
      end.ok.contents,
      end.ok.in_order,
      end.ok.written,
    )

-- ===== src/Broker/Fanout/Start.antt =====
-- Many connections at once in mode `broadcast`, from their start on.
use message_queue.Prelude.{ℕ, ◌≡◌, refl, sym, ◌∙◌, List, [], ◌∷◌, ◌++◌, append_assoc, All}
use message_queue.Prelude.Go.{returns}
use message_queue.Prelude.Family.{of, all_of}
use message_queue.Prelude.Sub.{Sub, Sub-nil, Sub-append}
use message_queue.Protocol.{Bytes}
use message_queue.Broker.Registry.{Ref, Store}
use message_queue.Broker.Registry.Broadcast.{AreOpen}
use message_queue.Broker.Registry.Lifecycle.{AreOpen-elem}
use message_queue.Broker.Producing.{Fits}
use message_queue.Broker.System.Sent.{stream_of}
use message_queue.Broker.Fanout.{Producing, reads, sends, stops, waits, System, Turn, run}
use message_queue.Broker.Fanout.Safety.{Written, Sends, Ok}
use message_queue.Broker.Fanout.Runs.{IsTurn, run-Goes}

-- All connections at their start: producer `p` will send `ms p`, with a buffer `array` in its
-- handler, and the consumer of channel `ch` has a connection that takes `room ch` bytes.
abbrev pub start : Store → Bytes → (ℕ → List Bytes) → (Ref → ℕ) → System
start store array ms room = record {
  store = store;
  producers = λ p. reads (stream_of (ms p)) array;
  consumers = λ ch. waits (record { written = []; room = room ch });
  sent = λ ch. [];
  taken = λ ch. [];
}

start-Ok :
    (chans : List Ref) (store : Store) (array : Bytes) (ms : ℕ → List Bytes) (room : Ref → ℕ)
    → AreOpen store chans
    → ((ch : Ref) → (store ch).buffer ≡ [])
    → Ok chans ms (start store array ms room)
start-Ok chans store array ms room o empty = record {
  live = λ ch among. AreOpen-elem store chans ch among o;
  balance = λ ch. sym (empty ch);
  written = λ ch. refl;
  order = λ p. ([], ms p, refl, refl, λ ch. Sub-nil []);
}

Sends-Sub :
    (chans : List Ref) (ms : List Bytes) (x : Producing) (acc : Ref → List Bytes)
    → Sends chans ms x acc
    → (ch : Ref) → Sub (acc ch) ms
Sends-Sub chans ms (reads r array) acc (heard, rest, split, at, sub) ch =
    rw split (Sub-append (acc ch) heard rest (sub ch))
Sends-Sub chans ms (sends m todo r array) acc (heard, rest, split, at, sub, _, _, _) ch =
    let e : ms ≡ (heard ++ (m ∷ [])) ++ rest = split ∙ sym (append_assoc heard (m ∷ []) rest) in
    rw e (Sub-append (acc ch) (heard ++ (m ∷ [])) rest (sub ch))
Sends-Sub chans ms (stops e) acc (at_end, sub) ch = sub ch

-- Delivery mode `broadcast`, with any number of producers and of registered consumers, while none of
-- these leaves: the channels are open and empty at the start, each producer sends frames of messages
-- of a megabyte at most, and the turns come in any order, so broadcasts interrupt each other; each
-- reads the map in some order, a channel once at most. No turn has panicked; each channel was sent,
-- of each producer, a subsequence of what that producer sent; what was sent to a channel is, in
-- order, what its consumer took and then what waits in it; and a consumer's connection was written
-- the frames of what it took, in order, up to the last, which may still be missing or be cut by a
-- failed write.
pub run-Sub :
    (chans : List Ref) (store : Store) (array : Bytes) (ms : ℕ → List Bytes) (room : Ref → ℕ)
    (ts : List Turn)
    → AreOpen store chans
    → ((ch : Ref) → (store ch).buffer ≡ [])
    → ((p : ℕ) → All Fits (ms p))
    → All (IsTurn chans) ts
    → (t : System) × (run (start store array ms room) ts ≡ returns t)
      × ((p : ℕ) (ch : Ref) → Sub (of p (t.sent ch)) (ms p))
      × ((ch : Ref) → all_of (t.sent ch) ≡ t.taken ch ++ (t.store ch).buffer)
      × ((ch : Ref) → Written (t.consumers ch) (t.taken ch))
run-Sub chans store array ms room ts o empty fits turns =
    let s = start store array ms room in
    let end = run-Goes chans ms fits s ts turns (start-Ok chans store array ms room o empty) in
    (
      end.after,
      end.answer,
      λ p ch.
          Sends-Sub chans (ms p) (end.after.producers p) (λ x. of p (end.after.sent x))
            (end.ok.order p) ch,
      end.ok.balance,
      end.ok.written,
    )

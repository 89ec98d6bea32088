-- ===== src/Broker/System/Turns.antt =====
-- A turn keeps what `Ok` says, and a run of turns does.
use message_queue.Prelude.{ℕ, ◌≡◌, refl, ◌∙◌, List, [], ◌∷◌, ◌++◌, append_assoc}
use message_queue.Prelude.Go.{Go, returns}
use message_queue.Prelude.Family.{set, of, all_of, all_of-append}
use message_queue.Protocol.{Bytes, Sink, read_frame, write_frame}
use message_queue.Broker.Queue.{MemoryMessageQueue, Dequeued, queue_empty, dequeue}
use message_queue.Broker.Queue.Fifo.{
  holds, view, spec_dequeue, enqueue_total, enqueue-IsValid, dequeue_refines, dequeue-IsValid,
}
use message_queue.Broker.System.{
  Producing, reads, delivers, stops, Consuming, asks, writes, finds_none, breaks, System, Turn,
  producer, consumer, accepts, after_read, after_enqueue, produce, after_dequeue, after_write,
  consume, turn, run,
}
use message_queue.Broker.System.Invariant.{
  Ok, enqueue_waits, Written-write, Written-take, Written-set,
}

-- A turn or a run that does not panic and leads to a good state.
pub record Goes (g : Go System) : Type 0 where
  pub after : System
  pub answer : g ≡ returns after
  pub ok : Ok after

produce-Goes :
    (s : System) (p : ℕ) (x : Producing) → s.producers p ≡ x → Ok s → Goes (produce s p x)
produce-Goes s p (reads r array) at ok = record {
  after = record s { producers = set s.producers p (after_read (read_frame r array)) };
  answer = refl;
  ok = record {
    valid = ok.valid;
    waiting = ok.waiting;
    contents = ok.contents;
    in_order = ok.in_order;
    written = ok.written;
  };
}
produce-Goes s p (delivers m r array) at ok =
    let (q, e, h, hv, he) = enqueue_total s.queue ok.valid m in
    record {
      after = after_enqueue s p m (reads r array) (q, e);
      answer = rw h;
      ok = record {
        valid = (enqueue-IsValid s.queue ok.valid m q e h).0;
        waiting = ok.waiting ++ all_of (accepts p m e);
        contents = enqueue_waits s.queue q ok.waiting p m e ok.contents hv he;
        in_order =
            all_of-append s.accepted (accepts p m e)
            ∙ rw (ok.in_order, append_assoc (all_of s.taken) ok.waiting (all_of (accepts p m e)));
        written = ok.written;
      };
    }
produce-Goes s p (stops e) at ok = record { after = s; answer = refl; ok = ok }

-- What a consumer finds in the queue.
ask-Ok :
    (s : System) (c : ℕ) (w : Sink) (ms : List Bytes) (q : MemoryMessageQueue) (d : Dequeued)
    → s.consumers c ≡ asks w
    → (ok : Ok s) → ok.waiting ≡ ms
    → dequeue s.queue ≡ (q, d)
    → view q ≡ (spec_dequeue (holds ms)).0
    → d ≡ (spec_dequeue (holds ms)).1
    → Ok (after_dequeue s c w (q, d))
ask-Ok s c w [] q d at ok e h hv hd = rw hd (record {
  valid = rw h at (dequeue-IsValid s.queue ok.valid).0;
  waiting = [];
  contents = hv;
  in_order = ok.in_order ∙ rw e;
  written = Written-set s c (finds_none queue_empty w) ok.written (rw at at (ok.written c));
})
ask-Ok s c w (m ∷ ms) q d at ok e h hv hd = rw hd (record {
  valid = rw h at (dequeue-IsValid s.queue ok.valid).0;
  waiting = ms;
  contents = hv;
  in_order =
      ok.in_order
      ∙ rw (e, all_of-append s.taken ((c, m) ∷ []), append_assoc (all_of s.taken) (m ∷ []) ms);
  written = Written-take s c w m at ok.written;
})

consume-Ok : (s : System) (c : ℕ) (x : Consuming) → s.consumers c ≡ x → Ok s → Ok (consume s c x)
consume-Ok s c (asks w) at ok =
    let (hv, hd) = dequeue_refines s.queue ok.valid in
    ask-Ok s c w ok.waiting (dequeue s.queue).0 (dequeue s.queue).1 at ok refl refl
      (hv ∙ rw ok.contents) (hd ∙ rw ok.contents)
consume-Ok s c (writes m w) at ok = record {
  valid = ok.valid;
  waiting = ok.waiting;
  contents = ok.contents;
  in_order = ok.in_order;
  written =
      Written-set s c (after_write (write_frame w m)) ok.written
        (Written-write m w (of c s.taken) (rw at at (ok.written c)));
}
consume-Ok s c (finds_none e w) at ok = ok
consume-Ok s c (breaks e w) at ok = ok

pub turn-Goes : (s : System) (t : Turn) → Ok s → Goes (turn s t)
unfolding turn
turn-Goes s (producer p) ok = produce-Goes s p (s.producers p) refl ok
turn-Goes s (consumer c) ok = record {
  after = consume s c (s.consumers c);
  answer = refl;
  ok = consume-Ok s c (s.consumers c) refl ok;
}

-- Any number of producers and consumers on one queue, in delivery mode `queue` and until the queue is
-- closed, with their turns in any order, from a good state: no turn panics, the queue stays valid,
-- and the messages that it accepted are, in order, those that consumers took, each by one consumer,
-- and then those that wait. Each connection was written the frames of the messages that its handler
-- took, in their order, but for one that is still to be written, or of which a failed write has left
-- the end out.
pub run-Goes : (s : System) (ts : List Turn) → Ok s → Goes (run s ts)
unfolding run
run-Goes s [] ok = record { after = s; answer = refl; ok = ok }
run-Goes s (t ∷ ts) ok =
    let first = turn-Goes s t ok in
    let rest = run-Goes first.after ts first.ok in
    record { after = rest.after; answer = rw first.answer rest.answer; ok = rest.ok }

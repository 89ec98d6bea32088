-- ===== src/Broker/Queue/History.antt =====
-- A queue that keeps the contract of MessageQueue (internal/broker/interfaces.go), over any sequence
-- of calls.
use message_queue.Prelude.{
  ℕ, ◌≡◌, refl, sym, ◌∙◌, Option, none, some, List, [], ◌∷◌, ◌++◌, append_assoc, append-nil, arith,
}
use message_queue.Prelude.Go.{Go, returns, ◌>>=◌}
use message_queue.Protocol.{Bytes}
use message_queue.Broker.Queue.{MemoryMessageQueue, QueueError, Dequeued, got, failed}
use message_queue.Broker.Queue.Fifo.{IsValid, View, shut, holds, spec_enqueue, spec_dequeue}
use message_queue.Broker.Queue.Interface.{MessageQueue, Laws, memory, memory_laws}

pub data Call : Type 0 where
  enqueues : Bytes → Call
  dequeues closes : Call

-- The queue, what it accepted and what it gave out.
pub record Trace (Q : Type 0) : Type 0 where
  pub queue : Q
  pub accepted : List Bytes
  pub delivered : List Bytes

abbrev accepts : Bytes → Option QueueError → List Bytes
accepts m none = m ∷ []
accepts m (some e) = []

abbrev delivers : Dequeued → List Bytes
delivers (got m) = m ∷ []
delivers (failed e) = []

module _ {Q : Type 0} (ops : MessageQueue Q) where
  call : Q → Call → Go (Trace Q)
  call q (enqueues m) = ops.enqueue q m >>= λ r.
      returns (record { queue = r.0; accepted = accepts m r.1; delivered = [] })
  call q dequeues =
      returns (record {
        queue = (ops.dequeue q).0;
        accepted = [];
        delivered = delivers (ops.dequeue q).1;
      })
  call q closes =
      ops.close q >>= λ q'. returns (record { queue = q'; accepted = []; delivered = [] })

  pub run : Q → List Call → Go (Trace Q)
  run q [] = returns (record { queue = q; accepted = []; delivered = [] })
  run q (c ∷ cs) = do
    t ← call q c
    u ← run t.queue cs
    returns (record {
      queue = u.queue;
      accepted = t.accepted ++ u.accepted;
      delivered = t.delivered ++ u.delivered;
    })

abbrev pub waiting : View → List Bytes
waiting shut = []
waiting (holds ms) = ms

-- What is left waiting; a closed queue has thrown it away.
abbrev pub Leaves : View → List Bytes → Type 0
Leaves shut rest = Unit {0}
Leaves (holds ms) rest = rest ≡ ms

pub record Runs {Q : Type 0} {ops : MessageQueue Q} (laws : Laws ops) (q : Q) (g : Go (Trace Q))
    : Type 0 where
  pub trace : Trace Q
  pub eq : g ≡ returns trace
  pub valid : laws.Valid trace.queue
  pub rest : List Bytes
  pub in_order : waiting (laws.viewed q) ++ trace.accepted ≡ trace.delivered ++ rest
  pub leaves : Leaves (laws.viewed trace.queue) rest

Leaves-waiting : (w : View) → Leaves w (waiting w)
Leaves-waiting shut = tt
Leaves-waiting (holds ms) = refl

waiting-enqueue :
    (n : ℕ) (w : View) (m : Bytes)
    → waiting w ++ accepts m (spec_enqueue n w m).1 ≡ waiting (spec_enqueue n w m).0
waiting-enqueue n shut m = refl
waiting-enqueue n (holds ms) m = ground (arith, append-nil ms)

waiting-dequeue : (w : View) → waiting w ≡ delivers (spec_dequeue w).1 ++ waiting (spec_dequeue w).0
waiting-dequeue shut = refl
waiting-dequeue (holds []) = refl
waiting-dequeue (holds (m ∷ ms)) = refl

join : {Q : Type 0} → Trace Q → Trace Q → Trace Q
join t u = record {
  queue = u.queue;
  accepted = t.accepted ++ u.accepted;
  delivered = t.delivered ++ u.delivered;
}

-- A balance of a first stage, and of a second one that starts from what the first left.
two_stages :
    (w a d w' a' d' r : List Bytes)
    → w ++ a ≡ d ++ w'
    → w' ++ a' ≡ d' ++ r
    → w ++ (a ++ a') ≡ (d ++ d') ++ r
two_stages w a d w' a' d' r p q =
    rw (← append_assoc w a a', p, append_assoc d w' a', q) (sym (append_assoc d d' r))

module _ {Q : Type 0} {ops : MessageQueue Q} (laws : Laws ops) where
  call-Runs : (q : Q) (c : Call) → laws.Valid q → Runs laws q (call ops q c)
  unfolding call
  call-Runs q (enqueues m) v =
      let (q', e, h, hv, he, valid, size) = laws.enqueues q m v in
      record {
        trace = record { queue = q'; accepted = accepts m e; delivered = [] };
        eq = rw h;
        valid = valid;
        rest = waiting (laws.viewed q');
        in_order = rw (hv, he) (waiting-enqueue (laws.size_of q) (laws.viewed q) m);
        leaves = Leaves-waiting (laws.viewed q');
      }
  call-Runs q dequeues v =
      let (hv, hd, valid, size) = laws.dequeues q v in
      record {
        trace = record {
          queue = (ops.dequeue q).0;
          accepted = [];
          delivered = delivers (ops.dequeue q).1;
        };
        eq = refl;
        valid = valid;
        rest = waiting (laws.viewed (ops.dequeue q).0);
        in_order = rw (append-nil, hv, hd) (waiting-dequeue (laws.viewed q));
        leaves = Leaves-waiting (laws.viewed (ops.dequeue q).0);
      }
  call-Runs q closes v =
      let (q', h, hv, valid, _) = laws.closes q v in
      record {
        trace = record { queue = q'; accepted = []; delivered = [] };
        eq = rw h;
        valid = valid;
        rest = waiting (laws.viewed q);
        in_order = append-nil (waiting (laws.viewed q));
        leaves = rw hv tt;
      }

  -- Once it is closed, a queue accepts and gives out nothing.
  run_shut :
      (q : Q) (cs : List Call)
      → laws.Valid q
      → laws.viewed q ≡ shut
      → (q' : Q) × (run ops q cs ≡ returns (record { queue = q'; accepted = []; delivered = [] }))
        × (laws.viewed q' ≡ shut)
        × laws.Valid q'
  unfolding run call
  run_shut q [] v s = (q, refl, s, v)
  run_shut q (enqueues m ∷ cs) v s =
      let (q', e, h, hv, he, valid, size) = laws.enqueues q m v in
      let s' : laws.viewed q' ≡ shut = hv ∙ rw s in
      let (p, r, t, w) = run_shut q' cs valid s' in (p, rw (h, he, s, r), t, w)
  run_shut q (dequeues ∷ cs) v s =
      let (hv, hd, valid, size) = laws.dequeues q v in
      let s' : laws.viewed (ops.dequeue q).0 ≡ shut = hv ∙ rw s in
      let (p, r, t, w) = run_shut (ops.dequeue q).0 cs valid s' in (p, rw (hd, s, r), t, w)
  run_shut q (closes ∷ cs) v s =
      let (q', h, hv, valid, _) = laws.closes q v in
      let (p, r, t, w) = run_shut q' cs valid hv in (p, rw (h, r), t, w)

  run-join :
      (q : Q) (c : Call) (cs : List Call) (w : View) (f : Runs laws q (call ops q c))
      → laws.viewed f.trace.queue ≡ w
      → Runs laws f.trace.queue (run ops f.trace.queue cs)
      → Runs laws q (run ops q (c ∷ cs))
  unfolding run join
  run-join q c cs shut f s g =
      let (q', r, t, v) = run_shut f.trace.queue cs f.valid s in
      record {
        trace = join f.trace (record { queue = q'; accepted = []; delivered = [] });
        eq = rw (f.eq, r);
        valid = v;
        rest = f.rest;
        in_order = rw (append-nil, append-nil) f.in_order;
        leaves = rw t tt;
      }
  run-join q c cs (holds ms) f s g =
      let left : f.rest ≡ waiting (laws.viewed f.trace.queue) = rw s at f.leaves ∙ rw s in
      let first : waiting (laws.viewed q) ++ f.trace.accepted
          ≡ f.trace.delivered ++ waiting (laws.viewed f.trace.queue) =
        rw left at f.in_order in
      record {
        trace = join f.trace g.trace;
        eq = rw (f.eq, g.eq);
        valid = g.valid;
        rest = g.rest;
        in_order =
            two_stages (waiting (laws.viewed q)) f.trace.accepted f.trace.delivered
              (waiting (laws.viewed f.trace.queue)) g.trace.accepted g.trace.delivered g.rest first
              g.in_order;
        leaves = g.leaves;
      }

  -- No call panics, the queue stays valid, and what waited at the start and was accepted since is, in
  -- order, what was given out, followed by what is left.
  run-Runs : (q : Q) (cs : List Call) → laws.Valid q → Runs laws q (run ops q cs)
  unfolding run
  run-Runs q [] v = record {
    trace = record { queue = q; accepted = []; delivered = [] };
    eq = refl;
    valid = v;
    rest = waiting (laws.viewed q);
    in_order = append-nil (waiting (laws.viewed q));
    leaves = Leaves-waiting (laws.viewed q);
  }
  run-Runs q (c ∷ cs) v =
      let f = call-Runs q c v in
      run-join q c cs (laws.viewed f.trace.queue) f refl (run-Runs f.trace.queue cs f.valid)

-- First in, first out, over any sequence of calls on a valid MemoryMessageQueue. No call panics, the
-- queue stays valid, and what waited at the start and was accepted since is, in order, what was given
-- out, followed by what is left; while the queue is open, what is left are the messages that it
-- holds.
pub memory-Runs :
    (q : MemoryMessageQueue) (cs : List Call) → IsValid q → Runs memory_laws q (run memory q cs)
memory-Runs q cs v = run-Runs memory_laws q cs v

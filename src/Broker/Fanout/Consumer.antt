-- ===== src/Broker/Fanout/Consumer.antt =====
-- `handleConsumerBroadcast` of internal/broker/broker.go, over what its channel holds, is a run of
-- turns.
use message_queue.Prelude.{
  ℕ, suc, ◌≡◌, refl, ap, sym, ◌∙◌, inl, inr, Option, none, some, List, [], ◌∷◌, replicate, Bool,
  true, false, Bool-cases, Option-cases, ◌==◌, ==_self, if◌then◌else◌,
}
use message_queue.Prelude.Go.{returns}
use message_queue.Prelude.Text.{Text}
use message_queue.Prelude.Family.{set_self}
use message_queue.Protocol.{Bytes, IoError, Sink, write_frame}
use message_queue.Broker.Channel.{Chan, Received, message, ended, nothing, await, with_waited}
use message_queue.Broker.Registry.{Ref, Store, update}
use message_queue.Broker.Handlers as Handlers
use message_queue.Broker.Handlers.{
  Broker, Subscribed, Pumped, pump, leave, goes_on, after_pump, drain_channel,
}
use message_queue.Broker.Fanout.{
  Consuming, waits, writes, leaves, breaks, System, consumer, after_take, after_write, consume,
  turn, run,
}

turn_at :
    (s : System) (ch : Ref) (x : Consuming)
    → s.consumers ch ≡ x
    → turn s (consumer ch) ≡ returns (consume s ch x)
unfolding turn
turn_at s ch x at = ap (λ y. returns (consume s ch y)) at

-- Where the handler stands once its channel is empty or a write has failed.
abbrev stand : Option IoError → Bool → Sink → Consuming
stand (some e) closed w = breaks e w
stand none true w = leaves w
stand none false w = waits w

-- The channel `ch` holds `left`, with a receiver blocked or not, and is the same otherwise.
abbrev with_left : Store → Ref → List Bytes → Bool → Store
with_left store ch left b = update store ch (record (store ch) { buffer = left; waited = b })

with_left_waited :
    (store : Store) (ch : Ref) (ms : List Bytes) (b : Bool)
    → (store ch).buffer ≡ ms
    → (x : Ref) → update store ch (with_waited b (store ch)) x ≡ with_left store ch ms b x
with_left_waited store ch ms b h x = elim (Bool-cases (x == ch)) [
  | inl same ↦ rw (same, ← h)
  | inr other ↦ rw other
]

with_left_again :
    (store : Store) (ch : Ref) (ms left : List Bytes) (b b' : Bool)
    → (x : Ref) → with_left (with_left store ch ms b) ch left b' x ≡ with_left store ch left b' x
with_left_again store ch ms left b b' x = elim (Bool-cases (x == ch)) [
  | inl same ↦ rw (same, ==_self ch)
  | inr other ↦ rw other
]

-- The handler of channel `ch`, when it alone has turns.
record Pumps (s : System) (ch : Ref) (p : Pumped) : Type 0 where
  turns : ℕ
  after : System
  answer : run s (replicate turns (consumer ch)) ≡ returns after
  store :
      (x : Ref)
      → after.store x ≡ with_left s.store ch p.left (goes_on p.error (s.store ch).closed) x
  stands : after.consumers ch ≡ stand p.error (s.store ch).closed p.sink

update_self : (store : Store) (ch : Ref) (c : Chan) → update store ch c ch ≡ c
update_self store ch c = rw (==_self ch)

write_eq :
    (w : Sink) (m : Bytes) (e : Option IoError)
    → (write_frame w m).0 ≡ e
    → write_frame w m ≡ (e, (write_frame w m).1)
write_eq w m e h = ap (λ x. (x, (write_frame w m).1)) h

take_none :
    (store : Store) (ch : Ref) (x : Received)
    → (store ch).buffer ≡ []
    → (if (store ch).closed then ended else nothing) ≡ x
    → await (store ch) ≡ x
unfolding await
take_none store ch x holds h = rw holds h

take_first :
    (store : Store) (ch : Ref) (m : Bytes) (ms : List Bytes)
    → (store ch).buffer ≡ m ∷ ms
    → await (store ch) ≡ message m (record (store ch) { buffer = ms; waited = false })
unfolding await
take_first store ch m ms holds = rw holds

pump-Pumps :
    (ms : List Bytes) (s : System) (ch : Ref) (w : Sink)
    → s.consumers ch ≡ waits w
    → (s.store ch).buffer ≡ ms
    → Pumps s ch (pump ms w)
unfolding pump run
pump-Pumps [] s ch w at holds = elim (Bool-cases (s.store ch).closed) [
  | inl shut ↦ record {
    turns = 1;
    after = after_take s ch w ended;
    answer = rw (turn_at s ch (waits w) at, take_none s.store ch ended holds (rw shut));
    store = λ x.
        let e : goes_on none (s.store ch).closed ≡ false = rw shut in
        with_left_waited s.store ch [] false holds x
        ∙ ap (λ b. with_left s.store ch [] b x) (sym e);
    stands = rw shut (set_self s.consumers ch (leaves w));
  }
  | inr live ↦ record {
    turns = 1;
    after = after_take s ch w nothing;
    answer = rw (turn_at s ch (waits w) at, take_none s.store ch nothing holds (rw live));
    store = λ x.
        let e : goes_on none (s.store ch).closed ≡ true = rw live in
        with_left_waited s.store ch [] true holds x ∙ ap (λ b. with_left s.store ch [] b x) (sym e);
    stands = rw live at;
  }
]
pump-Pumps (m ∷ ms) s ch w at holds =
    let c : Chan = record (s.store ch) { buffer = ms; waited = false } in
    let s₁ = after_take s ch w (message m c) in
    let s₂ = consume s₁ ch (writes m w) in
    let w' = (write_frame w m).1 in
    let first = turn_at s ch (waits w) at in
    let second = turn_at s₁ ch (writes m w) (set_self s.consumers ch (writes m w)) in
    let at' : s₂.consumers ch ≡ after_write (write_frame w m) =
      set_self s₁.consumers ch (after_write (write_frame w m)) in
    let found = take_first s.store ch m ms holds in
    elim (Option-cases (write_frame w m).0) [
      | inr (e, k) ↦
          rw (k, pump)
            (record {
              turns = 2;
              after = s₂;
              answer = rw (first, found, second);
              store = λ x. refl;
              stands = at' ∙ ap after_write (write_eq w m (some e) k);
            })
      | inl k ↦
          let ih =
            pump-Pumps ms s₂ ch w' (at' ∙ ap after_write (write_eq w m none k))
              (ap (λ y. y.buffer) (update_self s.store ch c)) in
          rw (k, pump)
            (record {
              turns = suc (suc ih.turns);
              after = ih.after;
              answer = rw (first, found, second) ih.answer;
              store = λ x.
                  ih.store x
                  ∙ ap
                      (λ y.
                        with_left s₂.store ch (pump ms w').left
                          (goes_on (pump ms w').error y.closed) x)
                      (update_self s.store ch c)
                  ∙ with_left_again s.store ch ms (pump ms w').left false
                      (goes_on (pump ms w').error (s.store ch).closed) x;
              stands =
                  ih.stands
                  ∙ ap (λ y. stand (pump ms w').error y.closed (pump ms w').sink)
                      (update_self s.store ch c);
            })
    ]

-- What the handler does next, where it stands, with the broker `b`: it waits on, or it returns behind
-- its deferred call of `UnregisterConsumer`.
pub data Ends (b : Broker) (id : Text) : Consuming → Subscribed → Type 0 where
  still : (w : Sink) → Ends b id (waits w) (Handlers.waits b w)
  at_close : (w : Sink) → Ends b id (leaves w) (leave b id w)
  at_error : (e : IoError) (w : Sink) → Ends b id (breaks e w) (leave b id w)

-- The handler of channel `ch`, when it alone has turns.
pub record Alone (s : System) (ch : Ref) (b : Broker) (id : Text) (x : Subscribed) : Type 0 where
  pub turns : ℕ
  pub after : System
  pub answer : run s (replicate turns (consumer ch)) ≡ returns after
  pub ends : Ends (record b { store = after.store }) id (after.consumers ch) x

after_pump-Ends :
    (b : Broker) (id : Text) (ch : Ref) (p : Pumped)
    → Ends
        (record b { store = with_left b.store ch p.left (goes_on p.error (b.store ch).closed) })
        id
        (stand p.error (b.store ch).closed p.sink)
        (after_pump b id ch p)
after_pump-Ends b id ch p = elim (Option-cases p.error) [
  | inr (e, k) ↦ rw k (at_error e p.sink)
  | inl k ↦ elim (Bool-cases (b.store ch).closed) [
    | inl shut ↦ rw (k, shut) (at_close p.sink)
    | inr live ↦ rw (k, live) (still p.sink)
  ]
]

-- In delivery mode `broadcast`, the handler of a consumer that waits at its channel, run over all that
-- the channel holds, does what its turns do when it alone has them. It then waits on, with the same
-- channels and the same written to its connection; or, behind a closed channel or a failed write, it
-- is about to unregister.
pub drain_channel-Alone :
    (b : Broker) (id : Text) (ch : Ref) (w : Sink) (s : System)
    → b.store ≡ s.store
    → s.consumers ch ≡ waits w
    → Alone s ch b id (drain_channel b id ch w)
unfolding drain_channel
drain_channel-Alone b id ch w s same at =
    let p = pump (b.store ch).buffer w in
    let pumps = pump-Pumps (b.store ch).buffer s ch w at (ap (λ x. (x ch).buffer) (sym same)) in
    let store : pumps.after.store
        ≡ with_left b.store ch p.left (goes_on p.error (b.store ch).closed) =
      (λ i x. pumps.store x i)
      ∙ ap (λ x. with_left x ch p.left (goes_on p.error (x ch).closed)) (sym same) in
    record {
      turns = pumps.turns;
      after = pumps.after;
      answer = pumps.answer;
      ends = rw (store, pumps.stands, ← same) (after_pump-Ends b id ch p);
    }

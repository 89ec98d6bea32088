-- ===== src/Broker/Fanout/Taking.antt =====
-- A consumer's turn keeps what holds.
use message_queue.Prelude.{
  ℕ, ◌≡◌, refl, ◌∙◌, inl, inr, List, [], ◌∷◌, ◌++◌, append_assoc, Bool, Bool-cases, ◌==◌, true,
  false, ==_iff, ==_self,
}
use message_queue.Prelude.Family.{set, set_all, all_of}
use message_queue.Protocol.{Bytes, Sink, write_frame}
use message_queue.Broker.Channel.{Chan, message, with_waited}
use message_queue.Broker.Registry.{Ref, update}
use message_queue.Broker.Registry.Broadcast.{elem}
use message_queue.Broker.Registry.Subscribers.Safety.{Took, finds, closed-waited, buffer-waited}
use message_queue.Broker.Fanout.{
  Consuming, waits, writes, leaves, breaks, System, after_take, after_write, consume,
}
use message_queue.Broker.Fanout.Safety.{Written, Written-write, Ok}

-- The handler goes on to `x`, with nothing new taken.
set-Ok :
    (chans : List Ref) (ms : ℕ → List Bytes) (s : System) (ch : Ref) (x : Consuming)
    → Ok chans ms s
    → Written x (s.taken ch)
    → Ok chans ms (record s { consumers = set s.consumers ch x })
set-Ok chans ms s ch x ok new = record {
  live = ok.live;
  balance = ok.balance;
  written = set_all (λ y z. Written z (s.taken y)) s.consumers ch x new (λ y other. ok.written y);
  order = ok.order;
}

-- Whether a receiver is blocked does not matter to a good state.
waited-Ok :
    (chans : List Ref) (ms : ℕ → List Bytes) (s : System) (ch : Ref) (b : Bool)
    → Ok chans ms s
    → Ok chans ms (record s { store = update s.store ch (with_waited b (s.store ch)) })
waited-Ok chans ms s ch b ok = record {
  live = λ x among. closed-waited s.store ch b x ∙ ok.live x among;
  balance = λ x. rw (buffer-waited s.store ch b x) (ok.balance x);
  written = ok.written;
  order = ok.order;
}

module _ (chans : List Ref) (ms : ℕ → List Bytes) (s : System) (ch : Ref) (ok : Ok chans ms s) where
  module _ (w : Sink) (m : Bytes) (c : Chan) (at : s.consumers ch ≡ waits w)
      (took : Took (s.store ch) m c) where
    balance_taken :
        (x : Ref)
        → all_of (s.sent x)
          ≡ set s.taken ch (s.taken ch ++ (m ∷ [])) x ++ (update s.store ch c x).buffer
    balance_taken x = elim (Bool-cases (x == ch)) [
      | inr other ↦ rw other (ok.balance x)
      | inl same ↦
          let e : x ≡ ch = (==_iff x ch).0 same in
          rw (e, ==_self ch)
            (ok.balance ch ∙ rw (took.first, append_assoc (s.taken ch) (m ∷ []) c.buffer))
    ]

    open_taken : (x : Ref) → elem x chans ≡ true → (update s.store ch c x).closed ≡ false
    open_taken x among = elim (Bool-cases (x == ch)) [
      | inr other ↦ rw other (ok.live x among)
      | inl same ↦
          let e : x ≡ ch = (==_iff x ch).0 same in
          rw (e, ==_self ch) (took.same_closed ∙ ok.live ch (rw e at among))
    ]

    written_taken :
        (x : Ref)
        → Written (set s.consumers ch (writes m w) x) (set s.taken ch (s.taken ch ++ (m ∷ [])) x)
    written_taken x = elim (Bool-cases (x == ch)) [
      | inr other ↦ rw other (ok.written x)
      | inl same ↦ rw same (s.taken ch, refl, rw at at (ok.written ch))
    ]

    take-Ok : Ok chans ms (after_take s ch w (message m c))
    take-Ok = record {
      live = open_taken;
      balance = balance_taken;
      written = written_taken;
      order = ok.order;
    }

  pub consume-Ok : (x : Consuming) → s.consumers ch ≡ x → Ok chans ms (consume s ch x)
  consume-Ok (waits w) at = elim (finds (s.store ch) (s.store ch).buffer refl) [
    | inl (m, c, took) ↦ rw (took.answer) (take-Ok w m c at took)
    | inr (inl e) ↦ rw e (
        set-Ok chans ms (record s { store = update s.store ch (with_waited false (s.store ch)) }) ch
          (leaves w) (waited-Ok chans ms s ch false ok) (rw at at (ok.written ch)))
    | inr (inr e) ↦ rw e (waited-Ok chans ms s ch true ok)
  ]
  consume-Ok (writes m w) at =
      set-Ok chans ms s ch (after_write (write_frame w m)) ok
        (Written-write m w (s.taken ch) (rw at at (ok.written ch)))
  consume-Ok (leaves w) at = ok
  consume-Ok (breaks e w) at = ok

-- ===== src/Broker/Fanout/Sending.antt =====
-- A send of a broadcast keeps what holds.
use message_queue.Prelude.{
  ℕ, ◌≡◌, refl, sym, subst, ◌∙◌, inl, inr, none, some, List, [], ◌∷◌, ◌++◌, append_assoc, arith,
  Bool-cases, ◌==◌, true, false, ==_iff, ==_self,
}
use message_queue.Prelude.Family.{
  set, set_all, of, all_of, all_of-append, of-snoc_self, of-snoc_other,
}
use message_queue.Prelude.Sub.{Sub, Sub-keep}
use message_queue.Protocol.{Bytes, Source}
use message_queue.Broker.Registry.{Ref, update}
use message_queue.Broker.Registry.Broadcast.{elem, appended}
use message_queue.Broker.Fanout.{reads, sends, System, after_send}
use message_queue.Broker.Fanout.Safety.{Sends, Fresh, Sends-over, Ok}

-- What each channel was sent by one producer.
abbrev pub sent_by : (Ref → List (ℕ × Bytes)) → ℕ → Ref → List Bytes
sent_by sent p ch = of p (sent ch)

module _ (s : System) (ch : Ref) (p : ℕ) (m : Bytes) where
  -- What is sent to each channel after the send.
  abbrev pub sent_too : Ref → List (ℕ × Bytes)
  sent_too = set s.sent ch (s.sent ch ++ ((p, m) ∷ []))

  pub sent_by_other : (q : ℕ) → (q == p) ≡ false → sent_by s.sent q ≡ sent_by sent_too q
  sent_by_other q other =
      let same : (x : Ref) → of q (sent_too x) ≡ of q (s.sent x) =
        set_all (λ x y. of q y ≡ of q (s.sent x)) s.sent ch (s.sent ch ++ ((p, m) ∷ []))
          (of-snoc_other q p (s.sent ch) m other) (λ x h. refl) in
      λ i x. sym (same x) i

  pub Sub-sent :
      (heard : List Bytes)
      → Sub (of p (s.sent ch)) heard
      → ((x : Ref) → Sub (of p (s.sent x)) (heard ++ (m ∷ [])))
      → (x : Ref) → Sub (of p (sent_too x)) (heard ++ (m ∷ []))
  Sub-sent heard first all =
      set_all (λ x y. Sub (of p y) (heard ++ (m ∷ []))) s.sent ch (s.sent ch ++ ((p, m) ∷ []))
        (rw (of-snoc_self p (s.sent ch) m) (Sub-keep (of p (s.sent ch)) heard m first))
        (λ x other. all x)

  pub Fresh-sent :
      (todo : List Ref) (heard : List Bytes)
      → elem ch todo ≡ false
      → Fresh todo (λ x. of p (s.sent x)) heard
      → Fresh todo (λ x. of p (sent_too x)) heard
  Fresh-sent [] heard h f = tt
  Fresh-sent (y ∷ todo) heard h f =
      let other : (y == ch) ≡ false = ground arith in
      (rw other f.0, Fresh-sent todo heard (ground arith) f.1)

  pub balance_sent :
      ((x : Ref) → all_of (s.sent x) ≡ s.taken x ++ (s.store x).buffer)
      → (x : Ref)
      → all_of (sent_too x) ≡ s.taken x ++ (update s.store ch (appended (s.store ch) m) x).buffer
  balance_sent h x = elim (Bool-cases (x == ch)) [
    | inr other ↦ rw other (h x)
    | inl same ↦
        let e : x ≡ ch = (==_iff x ch).0 same in
        rw (e, ==_self ch)
          (all_of-append (s.sent ch) ((p, m) ∷ [])
            ∙ rw (h ch, append_assoc (s.taken ch) (s.store ch).buffer (m ∷ [])))
  ]

  pub open_sent :
      (chans : List Ref)
      → ((x : Ref) → elem x chans ≡ true → (s.store x).closed ≡ false)
      → (x : Ref) → elem x chans ≡ true
      → (update s.store ch (appended (s.store ch) m) x).closed ≡ false
  open_sent chans h x among = elim (Bool-cases (x == ch)) [
    | inr other ↦ rw other (h x among)
    | inl same ↦ let e : x ≡ ch = (==_iff x ch).0 same in rw (e, ==_self ch) (h ch (rw e at among))
  ]

-- What a producer has sent after one more send.
Sends-sent :
    (chans : List Ref) (ms : List Bytes) (s : System) (ch : Ref) (p : ℕ) (m : Bytes)
    (todo : List Ref) (r : Source) (array : Bytes)
    → Sends chans ms (sends m (ch ∷ todo) r array) (sent_by s.sent p)
    → Sends chans ms (sends m todo r array) (sent_by (sent_too s ch p m) p)
Sends-sent chans ms s ch p m todo r array
      (heard, rest, split, at, sub, (first, fresh), (new, distinct), (known, among)) =
    (
      heard,
      rest,
      split,
      at,
      Sub-sent s ch p m heard first sub,
      Fresh-sent s ch p m todo heard new fresh,
      distinct,
      among,
    )

-- A send leads to a good state.
pub after_send-Ok :
    (chans : List Ref) (ms : ℕ → List Bytes) (s : System) (ch : Ref) (p : ℕ) (m : Bytes)
    (todo : List Ref) (r : Source) (array : Bytes)
    → s.producers p ≡ sends m (ch ∷ todo) r array
    → Ok chans ms s
    → Ok chans ms (after_send s p ch m todo r array (some (appended (s.store ch) m)))
after_send-Ok chans ms s ch p m todo r array at ok = record {
  live = open_sent s ch p m chans ok.live;
  balance = balance_sent s ch p m ok.balance;
  written = ok.written;
  order =
      set_all (λ q x. Sends chans (ms q) x (sent_by (sent_too s ch p m) q)) s.producers p
        (sends m todo r array)
        (Sends-sent chans (ms p) s ch p m todo r array (rw at at (ok.order p)))
        (λ q other.
          subst (Sends chans (ms q) (s.producers q)) (sent_by_other s ch p m q other) (ok.order q));
}

-- A full channel ends the broadcast.
pub after_full-Ok :
    (chans : List Ref) (ms : ℕ → List Bytes) (s : System) (ch : Ref) (p : ℕ) (m : Bytes)
    (todo : List Ref) (r : Source) (array : Bytes)
    → s.producers p ≡ sends m (ch ∷ todo) r array
    → Ok chans ms s
    → Ok chans ms (after_send s p ch m todo r array none)
after_full-Ok chans ms s ch p m todo r array at ok = record {
  live = ok.live;
  balance = ok.balance;
  written = ok.written;
  order =
      set_all (λ q x. Sends chans (ms q) x (sent_by s.sent q)) s.producers p (reads r array)
        (Sends-over chans (ch ∷ todo) (ms p) m r array (sent_by s.sent p) (rw at at (ok.order p)))
        (λ q other. ok.order q);
}

-- ===== src/Broker/Registry/Subscribers/Safety.antt =====
-- Every state that the broadcast registry reaches is good, and no step panics.
use message_queue.Prelude.{
  ℕ, ◌≡◌, refl, sym, ap, ◌∙◌, inl, inr, Bool, true, false, none, List, [], ◌∷◌, ◌++◌, append_assoc,
  All, arith, ◌==◌, ◌⊎◌, ==_iff, ==_self, Bool-cases, Option-cases, if◌then◌else◌,
}
use message_queue.Prelude.Go.{returns}
use message_queue.Prelude.Dict.{get, delete}
use message_queue.Prelude.Sub.{Sub-nil, Sub-skip, Sub-keep}
use message_queue.Prelude.Text.{Text}
use message_queue.Protocol.{Bytes}
use message_queue.Broker.Channel.{Chan, make_chan, message, ended, nothing, await, with_waited}
use message_queue.Broker.Registry.{
  Ref, Store, update, Registry, channels, register_consumer, unregister_consumer,
}
use message_queue.Broker.Registry.Broadcast.{
  elem, AreOpen, reached, appended, send_all-Broadcasts, AreOpen-update,
}
use message_queue.Broker.Registry.Lifecycle.{
  IsValid, AreOpen-elem, shut_chan, register_consumer-IsValid, unregister_consumer-IsValid,
}
use message_queue.Broker.Registry.Subscribers.{
  System, Event, registers, unregisters, broadcasts, takes, set, after_take, apply, Enabled,
  Reaches, here, step, Ok, Steps,
}

AreOpen-among :
    (s : Store) (rs order : List Ref)
    → AreOpen s rs
    → All (λ x. elem x rs ≡ true) order
    → AreOpen s order
AreOpen-among s rs [] o a = tt
AreOpen-among s rs (x ∷ order) o a = (AreOpen-elem s rs x a.0 o, AreOpen-among s rs order o a.1)

AreOpen-same :
    (s t : Store) (rs : List Ref)
    → ((x : Ref) → (t x).closed ≡ (s x).closed)
    → AreOpen s rs
    → AreOpen t rs
AreOpen-same s t [] h o = tt
AreOpen-same s t (x ∷ rs) h o = (h x ∙ o.0, AreOpen-same s t rs h o.1)

pub closed-waited :
    (s : Store) (ch : Ref) (b : Bool) (x : Ref)
    → (update s ch (with_waited b (s ch)) x).closed ≡ (s x).closed
closed-waited s ch b x = elim (Bool-cases (x == ch)) [
  | inl same ↦ let e : x ≡ ch = (==_iff x ch).0 same in rw (e, ==_self ch)
  | inr other ↦ rw other
]

pub buffer-waited :
    (s : Store) (ch : Ref) (b : Bool) (x : Ref)
    → (update s ch (with_waited b (s ch)) x).buffer ≡ (s x).buffer
buffer-waited s ch b x = elim (Bool-cases (x == ch)) [
  | inl same ↦ let e : x ≡ ch = (==_iff x ch).0 same in rw (e, ==_self ch)
  | inr other ↦ rw other
]

-- What a receive finds.
pub record Took (c : Chan) (m : Bytes) (c' : Chan) : Type 0 where
  pub answer : await c ≡ message m c'
  pub first : c.buffer ≡ m ∷ c'.buffer
  pub same_closed : c'.closed ≡ c.closed

abbrev pub Finds : Chan → Type 0
Finds c = ((m : Bytes) × (c' : Chan) × Took c m c') ⊎ ((await c ≡ ended) ⊎ (await c ≡ nothing))

pub finds : (c : Chan) (ms : List Bytes) → c.buffer ≡ ms → Finds c
unfolding await
finds c (m ∷ ms) h = inl (
  m,
  record c { buffer = ms; waited = false },
  record { answer = ground arith; first = h; same_closed = refl },
)
finds c [] h = elim (Bool-cases c.closed) [
  | inl shut ↦ inr (inl (ground arith))
  | inr live ↦ inr (inr (ground arith))
]

unregister_absent :
    (s : Store) (reg : Registry) (id : Text)
    → get reg id ≡ none
    → unregister_consumer s reg id ≡ returns (s, reg)
unfolding unregister_consumer
unregister_absent s reg id h = rw (h, unregister_consumer)

closed-appended :
    (b : Bool) (c : Chan) (msg : Bytes) → (if b then appended c msg else c).closed ≡ c.closed
closed-appended true c msg = refl
closed-appended false c msg = refl

registers-Ok :
    (s : System) (id : Text) (ch : Ref) (n : ℕ)
    → Ok s
    → Enabled s (registers id ch n)
    → Steps s (registers id ch n)
unfolding apply
registers-Ok s id ch n o h =
    let v = o.valid in
    let st : Store = update s.store ch (make_chan n) in
    let live : (st ch).closed ≡ false = rw (==_self ch) in
    let before : IsValid st s.registry = record {
      keys = v.keys;
      distinct = v.distinct;
      live = AreOpen-update s.store ch (make_chan n) (channels s.registry) h.1 v.live;
    } in
    record {
      after = record s {
        store = update s.store ch (make_chan n);
        registry = register_consumer s.registry id ch;
        taken = set s.taken ch [];
      };
      answer = refl;
      ok = record {
        valid = (register_consumer-IsValid st s.registry id ch before h.0 h.1 live).0;
        in_order = λ x. elim (Bool-cases (x == ch)) [
          | inl same ↦ rw same (Sub-nil s.log)
          | inr other ↦ rw other (o.in_order x)
        ];
      };
    }

unregisters-Ok : (s : System) (id : Text) → Ok s → Steps s (unregisters id)
unfolding apply
unregisters-Ok s id o = elim (Option-cases (get s.registry id)) [
  | inl absent ↦ record {
    after = s;
    answer = rw (unregister_absent s.store s.registry id absent);
    ok = o;
  }
  | inr (ch, found) ↦
      let (eq, valid, _) = unregister_consumer-IsValid s.store s.registry id ch o.valid found in
      record {
        after = record s {
          store = update s.store ch (shut_chan (s.store ch));
          registry = delete s.registry id;
        };
        answer = rw eq;
        ok = record {
          valid = valid;
          in_order = λ x. elim (Bool-cases (x == ch)) [
            | inl same ↦ let e : x ≡ ch = (==_iff x ch).0 same in rw (e, ==_self ch) (o.in_order ch)
            | inr other ↦ rw other (o.in_order x)
          ];
        };
      }
]

broadcasts-Ok :
    (s : System) (order : List Ref) (msg : Bytes)
    → Ok s
    → Enabled s (broadcasts order msg)
    → Steps s (broadcasts order msg)
unfolding apply
broadcasts-Ok s order msg o h =
    let v = o.valid in
    let b =
      send_all-Broadcasts s.store order msg h.0
        (AreOpen-among s.store (channels s.registry) order v.live h.1) in
    record {
      after = record s { store = b.after; log = s.log ++ (msg ∷ []) };
      answer = rw b.eq;
      ok = record {
        valid = record {
          keys = v.keys;
          distinct = v.distinct;
          live =
              AreOpen-same s.store b.after (channels s.registry)
                (λ x.
                  ap (λ (c : Chan). c.closed) (b.effect x)
                  ∙ closed-appended (elem x (reached s.store order)) (s.store x) msg)
                v.live;
        };
        in_order = λ x. elim (Bool-cases (elem x (reached s.store order))) [
          | inl has ↦
              let e : b.after x ≡ appended (s.store x) msg = b.effect x ∙ rw has in
              rw e (
                rw (append_assoc (s.taken x) (s.store x).buffer (msg ∷ [])) at
                  (Sub-keep (s.taken x ++ (s.store x).buffer) s.log msg (o.in_order x)))
          | inr misses ↦
              let e : b.after x ≡ s.store x = b.effect x ∙ rw misses in
              rw e (Sub-skip (s.taken x ++ (s.store x).buffer) s.log msg (o.in_order x))
        ];
      };
    }

-- Whether a receiver is blocked does not matter to a good state.
waited-Ok :
    (s : System) (ch : Ref) (b : Bool)
    → Ok s
    → Ok (record s { store = update s.store ch (with_waited b (s.store ch)) })
waited-Ok s ch b o =
    let v = o.valid in
    record {
      valid = record {
        keys = v.keys;
        distinct = v.distinct;
        live =
            AreOpen-same s.store (update s.store ch (with_waited b (s.store ch)))
              (channels s.registry) (closed-waited s.store ch b) v.live;
      };
      in_order = λ x. rw (buffer-waited s.store ch b x) (o.in_order x);
    }

takes-Ok : (s : System) (ch : Ref) → Ok s → Steps s (takes ch)
unfolding apply
takes-Ok s ch o = elim (finds (s.store ch) (s.store ch).buffer refl) [
  | inl (m, c, t) ↦
      let v = o.valid in
      record {
        after = after_take s ch (message m c);
        answer = rw t.answer;
        ok = record {
          valid = record {
            keys = v.keys;
            distinct = v.distinct;
            live =
                AreOpen-same s.store (update s.store ch c) (channels s.registry)
                  (λ x. elim (Bool-cases (x == ch)) [
                    | inl same ↦
                        let e : x ≡ ch = (==_iff x ch).0 same in rw (e, ==_self ch) t.same_closed
                    | inr other ↦ rw other
                  ])
                  v.live;
          };
          in_order = λ x. elim (Bool-cases (x == ch)) [
            | inl same ↦
                let e : x ≡ ch = (==_iff x ch).0 same in
                rw (e, ==_self ch, append_assoc (s.taken ch) (m ∷ []) c.buffer)
                  (rw t.first at (o.in_order ch))
            | inr other ↦ rw other (o.in_order x)
          ];
        };
      }
  | inr (inl t) ↦ record {
    after = after_take s ch ended;
    answer = rw t;
    ok = waited-Ok s ch false o;
  }
  | inr (inr t) ↦ record {
    after = after_take s ch nothing;
    answer = rw t;
    ok = waited-Ok s ch true o;
  }
]

apply-Ok : (s : System) (e : Event) → Ok s → Enabled s e → Steps s e
apply-Ok s (registers id ch n) o h = registers-Ok s id ch n o h
apply-Ok s (unregisters id) o h = unregisters-Ok s id o
apply-Ok s (broadcasts order msg) o h = broadcasts-Ok s order msg o h
apply-Ok s (takes ch) o h = takes-Ok s ch o

Reaches-Ok : {s t : System} → Ok s → Reaches s t → Ok t
Reaches-Ok o here = o
Reaches-Ok o (step t u e r h a) =
    let w = apply-Ok t e (Reaches-Ok o r) h in
    let q : returns w.after ≡ returns u = sym w.answer ∙ a in
    let same : w.after ≡ u = cc q in rw same at w.ok

-- As long as broadcasts are not interrupted, no step panics, whatever the order in which consumers
-- register, unregister and receive and messages are broadcast. In every state that is reached from a
-- good one, the registry is valid, and what a consumer has received and still has in its channel is a
-- subsequence of what was broadcast: in order, and nothing more often than it was broadcast.
pub Reaches-Steps : {s t : System} (e : Event) → Ok s → Reaches s t → Enabled t e → Ok t × Steps t e
Reaches-Steps {s} {t} e o r h = let k = Reaches-Ok o r in (k, apply-Ok t e k h)

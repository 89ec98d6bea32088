-- ===== src/Broker/Fanout/Runs.antt =====
-- Any run in mode `broadcast`, from its start on.
use message_queue.Prelude.{
  ℕ, ◌≡◌, refl, inl, inr, none, some, List, [], ◌∷◌, All, Bool-cases, true, false,
}
use message_queue.Prelude.Go.{Go, returns}
use message_queue.Prelude.Family.{set, set_all, of}
use message_queue.Protocol.{Bytes, Source, read_frame}
use message_queue.Broker.Channel.{has_room}
use message_queue.Broker.Registry.{Ref}
use message_queue.Broker.Registry.Broadcast.{elem, IsDistinct, appended, offer-room, offer-full}
use message_queue.Broker.Producing.{Fits}
use message_queue.Broker.Fanout.{
  Producing, reads, sends, stops, System, Turn, producer, consumer, after_read, after_send, produce,
  consume, turn, run,
}
use message_queue.Broker.Fanout.Safety.{Sends, Sends-read, Sends-over, Ok}
use message_queue.Broker.Fanout.Sending.{after_send-Ok, after_full-Ok}
use message_queue.Broker.Fanout.Taking.{consume-Ok}

-- The map is read in some order, each of its channels once at most.
abbrev pub IsTurn : List Ref → Turn → Type 0
IsTurn chans (producer p order) = IsDistinct order × All (λ x. elem x chans ≡ true) order
IsTurn chans (consumer ch) = Unit {0}

pub record Goes (chans : List Ref) (ms : ℕ → List Bytes) (g : Go System) : Type 0 where
  pub after : System
  pub answer : g ≡ returns after
  pub ok : Ok chans ms after

module _ (chans : List Ref) (ms : ℕ → List Bytes) (fits : (p : ℕ) → All Fits (ms p)) where
  -- The handler of a producer goes on to `x`, with nothing new sent.
  set-Ok :
      (s : System) (p : ℕ) (x : Producing)
      → Ok chans ms s
      → Sends chans (ms p) x (λ ch. of p (s.sent ch))
      → Ok chans ms (record s { producers = set s.producers p x })
  set-Ok s p x ok new = record {
    live = ok.live;
    balance = ok.balance;
    written = ok.written;
    order =
        set_all (λ q y. Sends chans (ms q) y (λ ch. of q (s.sent ch))) s.producers p x new
          (λ q other. ok.order q);
  }

  send-Goes :
      (s : System) (p : ℕ) (order : List Ref) (m : Bytes) (ch : Ref) (todo : List Ref) (r : Source)
      (array : Bytes)
      → s.producers p ≡ sends m (ch ∷ todo) r array
      → Ok chans ms s
      → (s.store ch).closed ≡ false
      → Goes chans ms (produce s p order (sends m (ch ∷ todo) r array))
  send-Goes s p order m ch todo r array at ok live = elim (Bool-cases (has_room (s.store ch))) [
    | inl room ↦ record {
      after = after_send s p ch m todo r array (some (appended (s.store ch) m));
      answer = rw (offer-room (s.store ch) m live room);
      ok = after_send-Ok chans ms s ch p m todo r array at ok;
    }
    | inr full ↦ record {
      after = after_send s p ch m todo r array none;
      answer = rw (offer-full (s.store ch) m live full);
      ok = after_full-Ok chans ms s ch p m todo r array at ok;
    }
  ]

  first_known :
      (s : System) (p : ℕ) (m : Bytes) (ch : Ref) (todo : List Ref) (r : Source) (array : Bytes)
      → Sends chans (ms p) (sends m (ch ∷ todo) r array) (λ x. of p (s.sent x))
      → elem ch chans ≡ true
  first_known s p m ch todo r array (_, _, _, _, _, _, _, (known, _)) = known

  produce-Goes :
      (s : System) (p : ℕ) (order : List Ref) (x : Producing)
      → IsTurn chans (producer p order)
      → s.producers p ≡ x
      → Ok chans ms s
      → Goes chans ms (produce s p order x)
  produce-Goes s p order (reads r array) (d, among) at ok = record {
    after = record s { producers = set s.producers p (after_read order (read_frame r array)) };
    answer = refl;
    ok = set-Ok s p (after_read order (read_frame r array)) ok (
        Sends-read chans order (ms p) r array (λ ch. of p (s.sent ch)) (fits p) d among
          (rw at at (ok.order p)));
  }
  produce-Goes s p order (sends m [] r array) turns at ok = record {
    after = record s { producers = set s.producers p (reads r array) };
    answer = refl;
    ok =
        set-Ok s p (reads r array) ok
          (Sends-over chans [] (ms p) m r array (λ ch. of p (s.sent ch)) (rw at at (ok.order p)));
  }
  produce-Goes s p order (sends m (ch ∷ todo) r array) turns at ok =
      send-Goes s p order m ch todo r array at ok
        (ok.live ch (first_known s p m ch todo r array (rw at at (ok.order p))))
  produce-Goes s p order (stops e) turns at ok = record { after = s; answer = refl; ok = ok }

  turn-Goes : (s : System) (t : Turn) → IsTurn chans t → Ok chans ms s → Goes chans ms (turn s t)
  unfolding turn
  turn-Goes s (producer p order) enabled ok = produce-Goes s p order (s.producers p) enabled refl ok
  turn-Goes s (consumer ch) enabled ok = record {
    after = consume s ch (s.consumers ch);
    answer = refl;
    ok = consume-Ok chans ms s ch ok (s.consumers ch) refl;
  }

  pub run-Goes :
      (s : System) (ts : List Turn)
      → All (IsTurn chans) ts
      → Ok chans ms s
      → Goes chans ms (run s ts)
  unfolding run
  run-Goes s [] enabled ok = record { after = s; answer = refl; ok = ok }
  run-Goes s (t ∷ ts) enabled ok =
      let first = turn-Goes s t enabled.0 ok in
      let rest = run-Goes first.after ts enabled.1 first.ok in
      record { after = rest.after; answer = rw first.answer rest.answer; ok = rest.ok }

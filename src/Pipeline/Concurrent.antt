-- ===== src/Pipeline/Concurrent.antt =====
-- Many producers and consumers of the broker at once, and the consumer's process behind one of them.
use message_queue.Prelude.{
  ℕ, ◌<◌, ◌≡◌, sym, ap, ◌∙◌, inl, inr, Option, List, [], ◌∷◌, ◌++◌, append-nil, length, All, ◌==◌,
  ==_self, Bool-cases,
}
use message_queue.Prelude.Go.{Go, returns}
use message_queue.Prelude.Family.{of, all_of}
use message_queue.Prelude.Sub.{Sub, done, keep, skip}
use message_queue.Protocol.{Bytes, eof, Sink}
use message_queue.Protocol.Outcomes.{ends_eof}
use message_queue.Broker.Queue.{MemoryMessageQueue, QueueError}
use message_queue.Broker.Queue.Fifo.{holds, view, IsValid}
use message_queue.Broker.Producing.{frames, Fits}
use message_queue.Broker.System.{finds_none, System, Turn, run}
use message_queue.Broker.System.Start.{start, run-start}
use message_queue.Storage.{Clock, Collection}
use message_queue.Consumer.{Received, consume_loop}
use message_queue.Consumer.Storing.{Inserts, stops, consume_loop-frames}
use message_queue.Pipeline.{reads_from}

module _ {ℓ κ} {A : Type ℓ} (P : A → Type κ) where
  All-Sub : (xs ys : List A) → Sub xs ys → All P ys → All P xs
  All-Sub _ _ done all = tt
  All-Sub _ _ (keep x xs ys s) all = (all.0, All-Sub xs ys s all.1)
  All-Sub _ _ (skip y xs ys s) all = All-Sub xs ys s all.1

  All-front : (xs ys : List A) → All P (xs ++ ys) → All P xs
  All-front [] ys all = tt
  All-front (x ∷ xs) ys all = (all.0, All-front xs ys all.1)

  All-of : (i : ℕ) (xs : List (ℕ × A)) → All P (all_of xs) → All P (of i xs)
  All-of i [] all = tt
  All-of i ((j, a) ∷ xs) all = elim (Bool-cases (i == j)) [
    | inl same ↦ rw same (all.0, All-of i xs all.1)
    | inr other ↦ rw other (All-of i xs all.1)
  ]

  All-of_cons : (i j : ℕ) (a : A) (xs : List (ℕ × A)) → All P (of i ((j, a) ∷ xs)) → All P (of i xs)
  All-of_cons i j a xs all = elim (Bool-cases (i == j)) [
    | inl same ↦ let more = rw same at all in more.1
    | inr other ↦ rw other at all
  ]

  All-all_of : (xs : List (ℕ × A)) → ((i : ℕ) → All P (of i xs)) → All P (all_of xs)
  All-all_of [] all = tt
  All-all_of ((j, a) ∷ xs) all =
      ((rw (==_self j) at (all j)).0, All-all_of xs (λ i. All-of_cons i j a xs (all i)))

module _ {C V Time Doc : Type 0} (api : Collection C V Time Doc)
    (parse : Bytes → Option (Received V Time)) (clock : ℕ → Clock Time) where
  stores_taken :
      (ms : List Bytes) (w : Sink) (fuel i : ℕ) (store : C) (array : Bytes)
      → All Fits ms
      → w.written ≡ frames ms
      → length w.written < fuel
      → (g : Go C) × Inserts api parse clock i store ms g
        × (consume_loop api parse clock fuel i store (reads_from w) array
            ≡ stops api parse clock eof g)
  stores_taken ms w fuel i store array fits same h = rw same (
      rw (append-nil (frames ms)) at (
        consume_loop-frames api parse clock ms [] eof eof fuel i store array fits
          (rw (append-nil (frames ms)) (rw same at h)) ends_eof))

  -- Delivery mode `queue`, with any number of producers and consumers. From an empty valid queue,
  -- where each producer sends frames of messages of a megabyte at most, and after any turns in any
  -- order: the process behind a consumer whose handler has returned because the queue was empty takes
  -- the messages that this handler took, in this order and each once. It inserts one document, with the
  -- fields of `stored_field`, for each of them whose payload is a JSON object, and passes over the
  -- others; it stops with an EOF, or in a panic at a payload of null. More rounds than it is written
  -- bytes are enough.
  pub consume_loop-run :
      (q : MemoryMessageQueue) (buffer : Bytes) (sent : ℕ → List Bytes) (room : ℕ → ℕ)
      (ts : List Turn) (t : System) (c : ℕ) (e : QueueError) (w : Sink) (fuel i : ℕ) (store : C)
      (array : Bytes)
      → IsValid q
      → view q ≡ holds []
      → ((p : ℕ) → All Fits (sent p))
      → run (start q buffer sent room) ts ≡ returns t
      → t.consumers c ≡ finds_none e w
      → length w.written < fuel
      → (g : Go C) × Inserts api parse clock i store (of c t.taken) g
        × (consume_loop api parse clock fuel i store (reads_from w) array
            ≡ stops api parse clock eof g)
  consume_loop-run q buffer sent room ts t c e w fuel i store array v h fits runs at enough =
      let (u, waiting, answer, subs, contents, in_order, written) =
        run-start q buffer sent room ts v h fits in
      let same : u ≡ t = cc (sym answer ∙ runs) in
      let accepted : All Fits (all_of u.accepted) =
        All-all_of Fits u.accepted
          (λ p. All-Sub Fits (of p u.accepted) (sent p) (subs p) (fits p)) in
      let taken : All Fits (of c u.taken) =
        All-of Fits c u.taken (All-front Fits (all_of u.taken) waiting (rw in_order at accepted)) in
      let at_u : u.consumers c ≡ finds_none e w = ap (λ s. s.consumers c) same ∙ at in
      rw same at
        (stores_taken (of c u.taken) w fuel i store array taken (rw at_u at (written c)) enough)

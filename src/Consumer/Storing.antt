-- ===== src/Consumer/Storing.antt =====
-- What the consumer process stores.
use message_queue.Prelude.{
  ℕ, zero, suc, ◌<◌, ◌≡◌, ap, ◌∙◌, inl, inr, none, some, refl, List, [], ◌∷◌, ◌++◌, append_assoc,
  length, length-append, All, arith, Option,
}
use message_queue.Prelude.Go.{Go, Go-cases, returns, panics, ◌>>=◌}
use message_queue.Protocol.{Bytes, IoError, Source, read_frame}
use message_queue.Protocol.RoundTrip.{frame, length-frame, Delivers, read_frame-frame}
use message_queue.Broker.Producing.{frames, Fits}
use message_queue.Prelude.Text.{Text}
use message_queue.Prelude.Dict.{Dict, get}
use message_queue.Storage.{Clock, Collection, Decoded, Document, no_object, null, object}
use message_queue.Storage.Effect.{
  stored_field, or_now, store_message-Stores, store_message-null, store_message-no_object,
}
use message_queue.Consumer.{Received, Consumed, stopped, crashed, stored, consume, consume_loop}

module _ {C V Time Doc : Type 0} (api : Collection C V Time Doc)
    (parse : Bytes → Option (Received V Time)) (clock : ℕ → Clock Time) where
  -- What is done with the bodies `ms` from round `i` on, in their order and each once: a body that is
  -- no message, or whose payload is no JSON object, is passed over; one whose payload is a JSON object
  -- is inserted as one document with the fields of `stored_field`, whether the collection takes it or
  -- not; and one whose payload is null ends it in a panic.
  pub data Inserts : ℕ → C → List Bytes → Go C → Type 0 where
    no_more : (i : ℕ) (c : C) → Inserts i c [] (returns c)
    no_message :
        (i : ℕ) (c : C) (m : Bytes) (ms : List Bytes) (g : Go C)
        → parse m ≡ none
        → Inserts (suc i) c ms g
        → Inserts i c (m ∷ ms) g
    no_document :
        (i : ℕ) (c : C) (m : Bytes) (ms : List Bytes) (g : Go C) (t : Option Time)
        → parse m ≡ some (record { payload = no_object; timestamp = t })
        → Inserts (suc i) c ms g
        → Inserts i c (m ∷ ms) g
    nil_map :
        (i : ℕ) (c : C) (m : Bytes) (ms : List Bytes) (t : Option Time)
        → parse m ≡ some (record { payload = null; timestamp = t })
        → Inserts i c (m ∷ ms) panics
    document :
        (i : ℕ) (c : C) (m : Bytes) (ms : List Bytes) (g : Go C) (o : Dict V) (t : Option Time)
        (d : Document V Time)
        → parse m ≡ some (record { payload = object o; timestamp = t })
        → ((name : Text)
            → get d name ≡ stored_field o (or_now t (clock i).stamped) (clock i).created name)
        → Inserts (suc i) (api.insert_one c d).0 ms g
        → Inserts i c (m ∷ ms) g

  -- One message after the other.
  unfoldable pub consume_all : ℕ → C → List Bytes → Go C
  consume_all i c [] = returns c
  consume_all i c (m ∷ ms) = consume api parse clock i c m >>= λ c'. consume_all (suc i) c' ms

  payload-Inserts :
      (i : ℕ) (c : C) (m : Bytes) (ms : List Bytes) (rest : C → Go C) (p : Decoded V)
      (t : Option Time)
      → parse m ≡ some (record { payload = p; timestamp = t })
      → ((c' : C) → Inserts (suc i) c' ms (rest c'))
      → Inserts i c
          (m ∷ ms)
          (stored api parse clock i c (some (record { payload = p; timestamp = t })) >>= rest)
  payload-Inserts i c m ms rest no_object t e next =
      rw (store_message-no_object api c (clock i) t) (no_document i c m ms (rest c) t e (next c))
  payload-Inserts i c m ms rest null t e next =
      rw (store_message-null api c (clock i) t) (nil_map i c m ms t e)
  payload-Inserts i c m ms rest (object o) t e next =
      let s = store_message-Stores api c (clock i) t o in
      let c' = (api.insert_one c s.document).0 in
      rw s.answer (document i c m ms (rest c') o t s.document e s.fields (next c'))

  stored-Inserts :
      (i : ℕ) (c : C) (m : Bytes) (ms : List Bytes) (rest : C → Go C) (x : Option (Received V Time))
      → parse m ≡ x
      → ((c' : C) → Inserts (suc i) c' ms (rest c'))
      → Inserts i c (m ∷ ms) (stored api parse clock i c x >>= rest)
  stored-Inserts i c m ms rest none e next = no_message i c m ms (rest c) e (next c)
  stored-Inserts i c m ms rest (some r) e next =
      payload-Inserts i c m ms rest r.payload r.timestamp e next

  consume_all-Inserts : (i : ℕ) (c : C) (ms : List Bytes) → Inserts i c ms (consume_all i c ms)
  unfolding consume consume_all
  consume_all-Inserts i c [] = no_more i c
  consume_all-Inserts i c (m ∷ ms) =
      stored-Inserts i c m ms (λ c'. consume_all (suc i) c' ms) (parse m) refl
        (λ c'. consume_all-Inserts (suc i) c' ms)

  abbrev pub stops : IoError → Go C → Consumed C
  stops e (returns c) = stopped e c
  stops e panics = crashed

  consume_loop_step :
      (fuel i : ℕ) (c : C) (r r' : Source) (array m : Bytes)
      → Delivers (read_frame r array) m r'
      → consume_loop api parse clock (suc fuel) i c r array ≡ elim (consume api parse clock i c m) [
        | panics ↦ crashed
        | returns c' ↦
            consume_loop api parse clock fuel
              (suc i)
              c'
              r'
              ((read_frame r array).body ++ (read_frame r array).spare)
      ]
  unfolding consume_loop
  consume_loop_step fuel i c r r' array m d = ground (arith, d.error, d.body_eq, d.source)

  pub consume_loop-consume_all :
      (ms : List Bytes) (tail : Bytes) (ending e : IoError) (fuel i : ℕ) (c : C) (array : Bytes)
      → All Fits ms
      → length (frames ms ++ tail) < fuel
      → ((a : Bytes) → (read_frame (record { pending = tail; ending = ending }) a).error ≡ some e)
      → consume_loop api parse clock fuel i c
          (record { pending = frames ms ++ tail; ending = ending })
          array
        ≡ stops e (consume_all i c ms)
  unfolding consume_all
  consume_loop-consume_all ms tail ending e zero i c array fit h stop = absurd (omega arith)
  consume_loop-consume_all [] tail ending e (suc fuel) i c array fit h stop =
      unfold consume_loop in ground (arith, stop array)
  consume_loop-consume_all (m ∷ ms) tail ending e (suc fuel) i c array fit h stop =
      let rest : Source = record { pending = frames ms ++ tail; ending = ending } in
      let r : Source = record { pending = frame m ++ (frames ms ++ tail); ending = ending } in
      let step =
        consume_loop_step fuel i c r rest array m
          (read_frame-frame m (frames ms ++ tail) array ending fit.0) in
      let enough : length (frames ms ++ tail) < fuel = omega (
        arith,
        ap length (append_assoc (frame m) (frames ms) tail),
        length-append (frame m) (frames ms ++ tail),
        length-frame m,
      ) in
      rw (append_assoc (frame m) (frames ms) tail) (
        step ∙ elim (Go-cases (consume api parse clock i c m)) [
          | inr p ↦ rw p
          | inl (c', p) ↦ rw p (
              consume_loop-consume_all ms tail ending e fuel (suc i) c'
                ((read_frame r array).body ++ (read_frame r array).spare) fit.1 enough stop)
        ])

  -- On a stream of frames of a megabyte at most, and behind them something that cannot be read as a
  -- frame, the consumer process takes the bodies of the frames, in their order and each once. It
  -- inserts one document for each body that is a message with a JSON object for its payload: the
  -- object's fields, with `timestamp`, the message's time or that of the clock where it has none, and
  -- `created_at`, the time of the clock. It passes over any other body, and goes on where the
  -- collection refuses a document. It stops with the error that the reader answers behind the frames;
  -- but a payload of null, which is not inserted, ends it in a panic. More rounds than the stream has
  -- bytes are enough.
  pub consume_loop-frames :
      (ms : List Bytes) (tail : Bytes) (ending e : IoError) (fuel i : ℕ) (c : C) (array : Bytes)
      → All Fits ms
      → length (frames ms ++ tail) < fuel
      → ((a : Bytes) → (read_frame (record { pending = tail; ending = ending }) a).error ≡ some e)
      → (g : Go C) × Inserts i c ms g
        × (consume_loop api parse clock fuel i c
              (record { pending = frames ms ++ tail; ending = ending })
              array
            ≡ stops e g)
  consume_loop-frames ms tail ending e fuel i c array fit h stop = (
    consume_all i c ms,
    consume_all-Inserts i c ms,
    consume_loop-consume_all ms tail ending e fuel i c array fit h stop,
  )

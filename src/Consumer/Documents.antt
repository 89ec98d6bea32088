-- ===== src/Consumer/Documents.antt =====
-- What the consumer process stores of messages that it can read.
use message_queue.Prelude.{ℕ, suc, ◌≡◌, refl, Option, some, List, [], ◌∷◌, ◌++◌, take, zero}
use message_queue.Prelude.Go.{returns}
use message_queue.Prelude.Text.{Text}
use message_queue.Prelude.Dict.{Dict, get}
use message_queue.Protocol.{Bytes}
use message_queue.Storage.{Clock, Collection, Document, object}
use message_queue.Storage.Effect.{stored_field, or_now, store_message-Stores}
use message_queue.Consumer.{Received, consume}
use message_queue.Consumer.Storing.{consume_all}

-- A message with a JSON object for its payload: the object's members, and the message's time.
abbrev pub Metric : Type 0 → Type 0 → Type 0
Metric V Time = Dict V × Option Time

module _ {V Time : Type 0} (parse : Bytes → Option (Received V Time)) where
  -- The bodies are read as these, one for one.
  pub data Reads : List Bytes → List (Metric V Time) → Type 0 where
    no_more : Reads [] []
    reads :
        (m : Bytes) (ms : List Bytes) (o : Dict V) (t : Option Time) (xs : List (Metric V Time))
        → parse m ≡ some (record { payload = object o; timestamp = t })
        → Reads ms xs
        → Reads (m ∷ ms) ((o, t) ∷ xs)

  pub Reads-append :
      (ms ns : List Bytes) (xs ys : List (Metric V Time))
      → Reads ms xs
      → Reads ns ys
      → Reads (ms ++ ns) (xs ++ ys)
  Reads-append _ ns _ ys no_more more = more
  Reads-append _ ns _ ys (reads m ms o t xs e rest) more =
      reads m (ms ++ ns) o t (xs ++ ys) e (Reads-append ms ns xs ys rest more)

  pub Reads-take :
      (n : ℕ) (ms : List Bytes) (xs : List (Metric V Time))
      → Reads ms xs
      → Reads (take n ms) (take n xs)
  Reads-take zero ms xs h = no_more
  Reads-take (suc n) _ _ no_more = no_more
  Reads-take (suc n) _ _ (reads m ms o t xs e rest) =
      reads m (take n ms) o t (take n xs) e (Reads-take n ms xs rest)

module _ {C V Time Doc : Type 0} (api : Collection C V Time Doc) (clock : ℕ → Clock Time) where
  -- From the collection `c`, in round `i`, to `c'`: one document is inserted for each, in their order,
  -- with the fields of `stored_field`.
  pub data Inserted : ℕ → C → List (Metric V Time) → C → Type 0 where
    none_left : (i : ℕ) (c : C) → Inserted i c [] c
    inserted :
        (i : ℕ) (c c' : C) (o : Dict V) (t : Option Time) (xs : List (Metric V Time))
        (d : Document V Time)
        → ((name : Text)
            → get d name ≡ stored_field o (or_now t (clock i).stamped) (clock i).created name)
        → Inserted (suc i) (api.insert_one c d).0 xs c'
        → Inserted i c ((o, t) ∷ xs) c'

  pub consume_all-Inserted :
      (parse : Bytes → Option (Received V Time)) (i : ℕ) (c : C) (ms : List Bytes)
      (xs : List (Metric V Time))
      → Reads parse ms xs
      → (c' : C) × Inserted i c xs c' × (consume_all api parse clock i c ms ≡ returns c')
  unfolding consume consume_all
  consume_all-Inserted parse i c _ _ no_more = (c, none_left i c, refl)
  consume_all-Inserted parse i c _ _ (reads m ms o t xs e rest) =
      let s = store_message-Stores api c (clock i) t o in
      let c₁ = (api.insert_one c s.document).0 in
      let (c', ins, eq) = consume_all-Inserted parse (suc i) c₁ ms xs rest in
      (c', inserted i c c' o t xs s.document s.fields ins, rw (e, s.answer) eq)

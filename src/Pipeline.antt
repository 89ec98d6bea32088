-- ===== src/Pipeline.antt =====
-- The whole way of a message: the producer's process (cmd/producer), the broker's connections
-- (internal/broker) in delivery mode `queue`, and the consumer's process (cmd/consumer).
pub mod Concurrent
pub mod Rows
use message_queue.Prelude.{
  ℕ, zero, suc, ◌+◌, ◌≤◌, ◌<◌, ◌≡◌, ap, ◌∙◌, Option, some, List, [], ◌∷◌, ◌++◌, length, take, All,
  All-append,
}
use message_queue.Prelude.Text.{Text}
use message_queue.Protocol.{Bytes, eof, Source, Sink}
use message_queue.Broker.Mode.{queue}
use message_queue.Broker.Role.{producer_line, consumer_line}
use message_queue.Broker.Queue.{MemoryMessageQueue, queue_empty}
use message_queue.Broker.Queue.Fifo.{holds, view, IsValid}
use message_queue.Broker.Handlers.{Broker, Env, closed, no_more, served, drained, handle_conn}
use message_queue.Broker.Producing.{frames, Fits}
use message_queue.Broker.Consuming.{after_frames}
use message_queue.Broker.Delivery.{says, handle_conn_delivers}
use message_queue.Message.{Json, Message}
use message_queue.Producer.Transformer.{Payload}
use message_queue.Producer.Stream.{Draw}
use message_queue.Producer.Stream.Sending.{reads_of}
use message_queue.Producer.Process.{World, finished, csv_path}
use message_queue.Producer.Process as Sender
use message_queue.Producer.Process.Run.{sent_bodies, after_line, main-sends}
use message_queue.Config.{Environment}
use message_queue.Storage.{Clock, Collection}
use message_queue.Storage.Connect.{Driver, MongoStore, opened, close}
use message_queue.Consumer.{Received}
use message_queue.Consumer.Storing.{stops}
use message_queue.Consumer.Documents.{
  Metric, Reads, Reads-append, Reads-take, Inserted, consume_all-Inserted,
}
use message_queue.Pipeline.Rows.{ReadsBack, sent_metrics, sent_bodies-Reads}
use message_queue.Prelude.Dict.{Dict}
use message_queue.Consumer.Process.{exited, exit_of, store_from_env}
use message_queue.Consumer.Process as Receiver
use message_queue.Consumer.Process.Run.{main-stores}

-- What the other end of a connection reads once this end has closed it.
abbrev pub reads_from : Sink → Source
reads_from w = record { pending = w.written; ending = eof }

abbrev pub fresh : ℕ → Sink
fresh n = record { written = []; room = n }

All-take {ℓ κ} : {A : Type ℓ} (P : A → Type κ) (n : ℕ) (xs : List A) → All P xs → All P (take n xs)
All-take P zero xs h = tt
All-take P (suc n) [] h = tt
All-take P (suc n) (x ∷ xs) h = (h.0, All-take P n xs h.1)

module _ {J Time K C V Doc : Type 0} (marshal_payload : Payload → Option (Json J))
    (marshal_message : Message J Time → Option Bytes) (body : Message J Time → Bytes)
    (draw : ℕ → Draw Time) (members : Payload → Dict V) (stamp : Time → Option Time)
    (driver : Driver K C) (api : Collection C V Time Doc) (parse : Bytes → Option (Received V Time))
    (clock : ℕ → Clock Time) where
  -- The messages that the consumer is sent: those that waited, and those for the rows, up to the size
  -- of the queue.
  abbrev pub carried : Broker → List Bytes → List Text → List (List Text) → List Bytes
  carried b waiting header rows =
      take b.messages.size (waiting ++ sent_bodies marshal_payload body draw header rows)

  -- From a CSV file to the store, end to end. The producer's process finds the broker, and a file
  -- with a header whose records are all read well; every message can be marshalled, to a megabyte at
  -- most, and one whose payload was marshalled is unmarshalled to the values of that payload, which
  -- `members` gives, and to its own time. It exits after one message for each record whose payload
  -- can be marshalled. The broker, in queue mode with a valid queue in which messages wait that have
  -- JSON objects for payloads, reads what that process wrote, and its handler ends at the end of the
  -- stream. A consumer's process that then connects, and opens its store, is written those messages
  -- behind those that waited, up to the size of the queue, which is left empty. It inserts one document
  -- for each of them, in this order: the values of the payload, with `timestamp`, the message's time
  -- or that of the clock where it has none, and `created_at`, the time of the clock; and it exits with
  -- an EOF. All connections take what is written to them, and there are more rounds than rows, than
  -- bytes that are sent and than places in the queue.
  pub main-carried :
      ((m : Message J Time) → marshal_message m ≡ some (body m))
      → ReadsBack marshal_payload body parse members stamp
      → (fuel : ℕ) (env : Env) (world : World) (os : Environment) (b : Broker)
        (waiting : List Bytes) (known : List (Metric V Time)) (path col : Text) (cols : List Text)
        (rows : List (List Text)) (dial : Text → Option (Source × Sink)) (store : MongoStore K C)
        (n₁ n₂ n₃ : ℕ) (w : Sink)
      → world.dial (Sender.broker_addr world) ≡ some (fresh n₁)
      → world.abs (csv_path world) ≡ some path
      → world.read_csv path ≡ some (reads_of ((col ∷ cols) ∷ rows))
      → dial (Receiver.broker_addr os)
        ≡ some (reads_from (after_frames (fresh n₂) (carried b waiting (col ∷ cols) rows)), w)
      → store_from_env driver os ≡ opened store
      → b.mode ≡ queue
      → IsValid b.messages
      → view b.messages ≡ holds waiting
      → Reads parse waiting known
      → length waiting ≤ b.messages.size
      → All Fits waiting
      → All Fits (sent_bodies marshal_payload body draw (col ∷ cols) rows)
      → 9 + length (frames (sent_bodies marshal_payload body draw (col ∷ cols) rows)) ≤ n₁
      → length (frames (carried b waiting (col ∷ cols) rows)) ≤ n₂
      → 9 ≤ w.room
      → length rows < fuel
      → length (frames (carried b waiting (col ∷ cols) rows)) < fuel
      → length (frames (sent_bodies marshal_payload body draw (col ∷ cols) rows)) < env.fuel
      → b.messages.size < env.fuel
      → (w₁ : Sink) × (q q' : MemoryMessageQueue) × (c : C) × (Sender.main marshal_payload
            marshal_message draw fuel world
          ≡ finished
              (length (sent_bodies marshal_payload body draw (col ∷ cols) rows))
              (Sender.close (some world.closing))
              w₁)
        × (handle_conn env b (reads_from w₁) (fresh n₃)
            ≡ served (closed eof (record b { messages = q })))
        × (handle_conn env (record b { messages = q }) (says consumer_line []) (fresh n₂)
            ≡ drained (
                no_more queue_empty
                  (record b { messages = q' })
                  (after_frames (fresh n₂) (carried b waiting (col ∷ cols) rows))))
        × (view q' ≡ holds [])
        × Inserted api clock 0 store.collection
            (take b.messages.size
              (known ++ sent_metrics marshal_payload draw members stamp (col ∷ cols) rows))
            c
        × (Receiver.main driver api parse clock fuel os dial ≡ exited eof c (close driver store))
  main-carried total back fuel env world os b waiting known path col cols rows dial store n₁ n₂ n₃ w
        dials resolves reads connects opens mode v h read fit fits₁ fits₂ room₁ room₂ room₃ fuel₁
        fuel₂ fuel₃ fuel₄ =
      let bodies = sent_bodies marshal_payload body draw (col ∷ cols) rows in
      let sent = carried b waiting (col ∷ cols) rows in
      let (q, q', nothing_left, serves, drains) =
        handle_conn_delivers env b waiting bodies [] (fresh n₃) (fresh n₂) mode v h fit fits₂ fuel₃
          fuel₄ room₂ in
      let metrics = sent_metrics marshal_payload draw members stamp (col ∷ cols) rows in
      let (c, stored, consumes) =
        consume_all-Inserted api clock parse 0 store.collection sent
          (take b.messages.size (known ++ metrics))
          (Reads-take parse b.messages.size (waiting ++ bodies) (known ++ metrics) (
            Reads-append parse waiting bodies known metrics read (
              sent_bodies-Reads marshal_payload body draw parse members stamp back (col ∷ cols)
                rows))) in
      (
        after_frames (after_line (fresh n₁) producer_line) bodies,
        q,
        q',
        c,
        main-sends marshal_payload body draw marshal_message total fuel world path col cols rows
            (fresh n₁) dials resolves reads fuel₁ room₁,
        serves,
        drains,
        nothing_left,
        stored,
        main-stores driver api parse clock fuel os dial sent w store connects room₃ opens
              (All-take Fits b.messages.size (waiting ++ bodies)
                (All-append Fits waiting bodies fits₁ fits₂))
              fuel₂
            ∙ ap (λ g. exit_of driver api parse clock store (stops api parse clock eof g)) consumes,
      )

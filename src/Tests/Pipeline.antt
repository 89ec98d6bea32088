-- ===== src/Tests/Pipeline.antt =====
-- A file of two rows on its way to the store (cmd/producer, internal/broker, cmd/consumer).
use message_queue.Prelude.{
  ℕ, ◌+◌, ◌≡◌, refl, true, Option, none, some, List, [], ◌∷◌, length, take, ◌++◌, All, arith,
}
use message_queue.Prelude.Text.{Text, codes}
use message_queue.Prelude.Int.{pos}
use message_queue.Protocol.{Bytes, eof, Source, Sink, put_uint32}
use message_queue.Broker.Channel.{make_chan}
use message_queue.Broker.Mode.{queue}
use message_queue.Broker.Role.{consumer_line}
use message_queue.Broker.Queue.{MemoryMessageQueue, queue_empty}
use message_queue.Broker.Queue.Fifo.{holds, view, IsValid}
use message_queue.Broker.Registry.{channels}
use message_queue.Broker.Handlers.{Broker, Env, closed, no_more, served, drained, handle_conn}
use message_queue.Broker.Producing.{frames, Fits}
use message_queue.Broker.Consuming.{after_frames}
use message_queue.Broker.Delivery.{says}
use message_queue.Message.{Json, string, Message, new}
use message_queue.Producer.Transformer.{Payload}
use message_queue.Producer.Stream.{Draw}
use message_queue.Producer.Stream.Sending.{reads_of, bodies}
use message_queue.Producer.Process.{World, finished}
use message_queue.Producer.Process as Sender
use message_queue.Producer.Process.Run.{sent_bodies}
use message_queue.Config.{Environment}
use message_queue.Storage.{Clock, Collection, object}
use message_queue.Storage.Connect.{Driver, MongoStore, opened, new_mongo_store, close}
use message_queue.Consumer.{Received}
use message_queue.Consumer.Documents.{no_more, Inserted}
use message_queue.Pipeline.Rows.{ReadsBack, sent_metrics}
use message_queue.Prelude.Dict.{Dict}
use message_queue.Consumer.Process.{exited, store_from_env}
use message_queue.Consumer.Process as Receiver
use message_queue.Pipeline.{reads_from, fresh, carried, main-carried}

-- Encoders that look at little: JSON values and times are numbers.
abbrev marshal_payload : Payload → Option (Json ℕ)
marshal_payload p = some (string (codes "p"))

abbrev body : Message ℕ ℕ → Bytes
body m = m.timestamp ∷ []

abbrev draw : ℕ → Draw ℕ
draw i = record { id = codes "id"; time = i; time_text = codes "now" }

abbrev no_variables : Environment
no_variables key = []

abbrev header : List Text
header = codes "timestamp" ∷ codes "uuid" ∷ []

abbrev rows : List (List Text)
rows = (codes "1" ∷ codes "g" ∷ []) ∷ (codes "2" ∷ []) ∷ []

-- Two connections to the broker, a file, and an empty queue for two messages.
abbrev world : World
world = record {
  os = no_variables;
  dial = λ addr. some (fresh 100);
  abs = λ path. some path;
  read_csv = λ path. some (reads_of (header ∷ rows));
  closing = none;
}

abbrev broker : Broker
broker = record {
  mode = queue;
  store = λ _. make_chan 3;
  registry = [];
  messages = record { queue = some (make_chan 2); size = 2 };
}

broker-IsValid : IsValid broker.messages
broker-IsValid = record { positive = omega arith; chan = (refl, refl, omega arith) }

abbrev env : Env
env = record { order = channels; id = codes "c1"; ch = 1; size = pos 3; fuel = 50 }

-- A collection that counts its documents.
abbrev counting : Collection ℕ ℕ ℕ ℕ
counting = record {
  insert_one = λ c d. (c + 1, true);
  distinct = λ c field. none;
  count_documents = λ c f. some (pos c);
  find = λ c f o. none;
}

abbrev driver : Driver ℕ ℕ
driver = record {
  connect = λ uri. some 1;
  ping = λ client. true;
  collection = λ client db name. 0;
  disconnect = λ client. true;
}

abbrev store : MongoStore ℕ ℕ
store = record { client = 1; collection = 0 }

opens : store_from_env driver no_variables ≡ opened store
unfolding new_mongo_store
opens = refl

abbrev one_value : Dict ℕ
one_value = (codes "v", 7) ∷ []

-- A body is the time of a message, whose payload has one value.
abbrev parse : Bytes → Option (Received ℕ ℕ)
parse [] = none
parse (t ∷ rest) = some (record { payload = object one_value; timestamp = some t })

-- A clock that goes on.
abbrev clock : ℕ → Clock ℕ
clock i = record { stamped = i + i; created = i + i + 1 }

abbrev members : Payload → Dict ℕ
members p = one_value

abbrev stamp : ℕ → Option ℕ
stamp t = some t

back : ReadsBack marshal_payload body parse members stamp
unfolding new
back p j d e = refl

abbrev sent : List Bytes
sent = sent_bodies marshal_payload body draw header rows

abbrev moved : List Bytes
moved =
    carried marshal_payload (λ m. some (body m)) body draw members stamp driver counting parse clock
      broker [] header rows

two_bodies : sent ≡ (0 ∷ []) ∷ (1 ∷ []) ∷ []
unfolding bodies new
two_bodies = refl

sent-Fits : All Fits sent
sent-Fits = rw two_bodies (omega arith, (omega arith, tt))

length-frames-sent : length (frames sent) ≡ 10
unfolding put_uint32
length-frames-sent = rw two_bodies (omega arith)

length-frames-moved : length (frames moved) ≡ 10
unfolding put_uint32
length-frames-moved = rw two_bodies (omega arith)

abbrev dial : Text → Option (Source × Sink)
dial addr = some (reads_from (after_frames (fresh 100) moved), fresh 9)

main-carried_example :
    (w₁ : Sink) × (q q' : MemoryMessageQueue) × (c : ℕ) × (Sender.main marshal_payload
        (λ m. some (body m))
        draw
        20
        world
      ≡ finished (length sent) (Sender.close (some none)) w₁)
    × (handle_conn env broker (reads_from w₁) (fresh 0)
        ≡ served (closed eof (record broker { messages = q })))
    × (handle_conn env (record broker { messages = q }) (says consumer_line []) (fresh 100)
        ≡ drained (
            no_more queue_empty (record broker { messages = q' }) (after_frames (fresh 100) moved)))
    × (view q' ≡ holds [])
    × Inserted counting clock 0 0
        (take 2 ([] ++ sent_metrics marshal_payload draw members stamp header rows))
        c
    × (Receiver.main driver counting parse clock 20 no_variables dial
        ≡ exited eof c (close driver store))
main-carried_example =
    main-carried marshal_payload (λ m. some (body m)) body draw members stamp driver counting parse
      clock (λ m. refl) back 20 env world no_variables broker [] [] (Sender.csv_path world)
      (codes "timestamp") (codes "uuid" ∷ []) rows dial store 100 100 0 (fresh 9) refl refl refl
      refl opens refl broker-IsValid refl no_more (omega arith) tt sent-Fits
      (omega (arith, length-frames-sent)) (omega (arith, length-frames-moved)) (omega arith)
      (omega arith) (omega (arith, length-frames-moved)) (omega (arith, length-frames-sent))
      (omega arith)

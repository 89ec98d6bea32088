-- ===== src/Consumer/Process.antt =====
-- The consumer's process (cmd/consumer/main.go), around its loop.
pub mod Run
use message_queue.Prelude.{ℕ, Bool, Option, none, some, []}
use message_queue.Prelude.Text.{Text, codes}
use message_queue.Protocol.{Bytes, IoError, Source, Sink, write}
use message_queue.Config.{Environment, get_env}
use message_queue.Storage.{Clock, Collection}
use message_queue.Storage.Connect.{
  Driver, MongoStore, NewStore, opened, not_opened, new_mongo_store, close,
}
use message_queue.Consumer.{Received, Consumed, stopped, crashed, out_of_fuel, consume_loop}

-- How the process ends: by the read error that its loop stops at, with the collection and whether the
-- store could be closed, or in a panic. `unfinished` is no end of the program's.
pub data Exit (C : Type 0) : Type 0 where
  exited : IoError → C → Bool → Exit C
  panicked unfinished : Exit C

abbrev pub broker_addr : Environment → Text
broker_addr os = get_env os (codes "BROKER_ADDR") (codes "localhost:9080")

abbrev pub store_from_env : {K C : Type 0} → Driver K C → Environment → NewStore K C
store_from_env driver os =
    new_mongo_store driver (get_env os (codes "MONGODB_URI") (codes "mongodb://localhost:27017"))
      (get_env os (codes "MONGODB_DATABASE") (codes "message_streaming"))
      (get_env os (codes "MONGO_COLLECTION") (codes "metrics"))

module _ {K C V Time Doc : Type 0} (driver : Driver K C) (api : Collection C V Time Doc)
    (parse : Bytes → Option (Received V Time)) (clock : ℕ → Clock Time) where
  abbrev pub exit_of : MongoStore K C → Consumed C → Exit C
  exit_of ms (stopped e c) = exited e c (close driver ms)
  exit_of ms crashed = panicked
  exit_of ms out_of_fuel = unfinished

  -- Behind `NewMongoStore`: the deferred calls close the store.
  abbrev pub stores : ℕ → Source → NewStore K C → Exit C
  stores fuel r (not_opened e) = panicked
  stores fuel r (opened ms) = exit_of ms (consume_loop api parse clock fuel 0 ms.collection r [])

  -- Behind the role's line.
  abbrev pub identified : ℕ → Environment → Source → Option IoError × Sink → Exit C
  identified fuel os r (some e, w) = panicked
  identified fuel os r (none, w) = stores fuel r (store_from_env driver os)

  -- Behind `Dial`: without a connection, the deferred `conn.Close` is taken of a nil interface.
  abbrev pub dialled : ℕ → Environment → Option (Source × Sink) → Exit C
  dialled fuel os none = panicked
  dialled fuel os (some (r, w)) = identified fuel os r (write w (codes "CONSUMER\n"))

  unfoldable pub main : ℕ → Environment → (Text → Option (Source × Sink)) → Exit C
  main fuel os dial = dialled fuel os (dial (broker_addr os))

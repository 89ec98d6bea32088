-- ===== src/Lib.antt =====
-- A message broker in Go with a producer and a consumer of telemetry, and an HTTP API over what was
-- stored: the model of its code, and what is proved about it.
--
-- The parts and how they interact. A producer process (cmd/producer, internal/producer) reads the rows
-- of a CSV file, turns each into a payload, wraps it in a message (internal/message) and writes its
-- JSON as one frame (internal/protocol) to the broker. The broker (internal/broker) reads frames from
-- its producers. In delivery mode `queue` it puts each body into one bounded queue, from which the
-- consumers' connections take; in mode `broadcast` it sends each body to the channel of every
-- registered consumer. The consumer process (cmd/consumer) reads frames, unmarshals messages and
-- stores them in MongoDB (internal/storage). The metrics API (internal/metrics) lists the GPUs of the
-- store and their telemetry, page by page, behind a bearer token.
--
-- The files, and the code that each is about:
--   Prelude (with children): what the modules share. Int has Go's 64-bit `int` with wrap-around
--     (wrap64), Text strings, Go results that may be a panic, Dict maps with string keys, Strings the
--     functions of `strings` and `strconv` that the code calls, Trim lemmas on spaces,
--     Family what one place of a family or one sender of a list has, Sub subsequences.
--   Protocol: internal/protocol/frame.go. write_frame is WriteFrame and read_frame is ReadFrame. A
--     Source is what a reader still has to give and the error behind it; a Sink takes a number of
--     bytes before it breaks. Children: Header (the length), Read (every outcome of a read), RoundTrip
--     (what is written is read back), Outcomes (progress, truncation, the buffer).
--   Broker.Channel: Go's channels, with a receiver that blocks. Broker.Queue: internal/broker/memory_queue.go (enqueue,
--     dequeue, len, is_full, close), with Fifo (refinement of a list), Interface (the contract of
--     MessageQueue of interfaces.go, and that this queue keeps it) and History (sequences of calls of
--     any queue that does).
--   Broker.Registry: internal/broker/consumer_registry.go (register_consumer, unregister_consumer,
--     send_all and broadcast_message, close_all), with Broadcast, Lifecycle, Race and Subscribers (any
--     sequence of steps). Channels are shared, so they live in a store and are named by references.
--   Broker.Mode: DeliveryMode of internal/broker/interfaces.go. Broker.Role: the first line of a
--     connection (HandleConn, trimLine). Broker.Handlers: internal/broker/broker.go, with the handlers
--     handle_conn, handle_producer, handle_consumer, handle_consumer_queue and
--     handle_consumer_broadcast. Broker.Producing, Queueing, Consuming, Subscribing, Delivery: what they
--     do. Broker.Shutdown: Close, and the handlers after it. Broker.Queue.Race: Close between the nil
--     check of Enqueue and its send.
--   Broker.System: any number of connections in mode `queue` at once. A turn is what a handler does up
--     to its next call of the queue, of the reader or of the writer; turns come in any order. Children:
--     Invariant and Turns (what every turn keeps), Sent and Start (what was sent against what is
--     accepted and taken), Liveness and Drains (what some turns are enough
--     for), Alone and Consumer (the handlers of Broker.Handlers are runs of turns).
--   Broker.Fanout: any number of connections in mode `broadcast` at once, while no consumer registers or
--     unregisters. A turn is what a handler does up to its next use of a channel, of the reader or of
--     the writer. Children: Safety (the state that is kept), Sending and Taking (the turns of a
--     producer and of a consumer), Runs and Start (all of them, from the start on), Alone and Consumer
--     (the handlers of Broker.Handlers are runs of turns).
--   Broker.Process: cmd/message_queue/main.go and http_server.go (accept_loop, health, main).
--   Message: internal/message/message.go (new, marshal_json, unmarshal_json), with RoundTrip.
--   Producer.CsvReader, Labels, Transformer, Stream: internal/producer/csv_reader.go, transformers.go
--     and producer.go (stream_csv_metrics is StreamCSVMetrics, stream is Stream, start is Start).
--     Producer.Process: cmd/producer/main.go (main), SimpleEnvironmentReader.Get of implementations.go
--     and Producer.Close. Producer.Mocks: mocks.go.
--   Consumer: the loop of cmd/consumer/main.go, with Storing (what it does with any bodies) and
--     Documents (with those that hold a JSON object), and Process for the code around the loop.
--     Storage: internal/storage/mongodb.go (store_metric, store_message, list_gpus, query_telemetry),
--     with Connect for NewMongoStore and Close.
--   Metrics.Pagination, Sorter, Auth, Query: internal/metrics/implementations.go and interfaces.go.
--     Metrics.Service: service.go. Metrics.Handler: handler.go. Metrics.Routes: gin_adapter.go.
--     Metrics.Logging: LoggingMiddleware and responseWriter of handler.go. Metrics.StoreAdapter:
--     store_adapter.go. Metrics.Process: cmd/metrics/main.go, the routes over the MongoDB store.
--   Config: internal/common/utility.go (get_env, get_env_int), newConfigFromEnv of cmd/metrics/main.go,
--     and the delivery mode and channel size that the broker reads; Stores: the settings of MongoDB.
--   Pipeline: the processes of the producer and of the consumer, and the broker between them; Rows ties
--     what is sent for a row to what is stored for it, and Concurrent has many producers and consumers. Tests: runs on small inputs.
--
-- How state and failure are modelled. State that an operation changes is an argument and a part of its
-- result. A Go error is a value; a panic is `panics` of the type Go, or an outcome `crashed`. Numbers
-- are natural numbers, Go's `int` an integer with its wrap-around written out, the length of a frame
-- 32 bits. Bytes are numbers below 256 and texts are lists of character codes; case folding is exact
-- where one of the two characters is ASCII, which is all that the code compares with. The consumer's
-- loop reads the clock anew in each round. A slice is the list of its elements, so an empty one and a
-- nil one are not told apart. Message bodies are values: the queue and the registry copy a body before
-- they keep it, so the buffer that the producer's handler reads into is not shared with what they
-- hold.
--
-- Loops. Those over a list recurse on it. The loops over a connection or a file (handle_producer,
-- handle_consumer_queue, consume_loop, stream_loop) take a number of rounds. For a stream, more rounds
-- than it has bytes are enough, since each frame takes four at least; for a queue, more than it has
-- messages; for a file, more than it has rows. The theorems state this as a condition.
--
-- What is a parameter. encoding/json (texts of JSON; a message is turned into members of an object
-- here), encoding/csv (the list of reads that it answers), time.Parse and time.Format, random
-- identifiers and the clock, the order in which Go ranges over a map, the MongoDB driver (a record of
-- its operations), the writer of net/http, and Gin's choice of a route.
--
-- What is not modelled. In mode `broadcast`, a consumer that registers or unregisters while others'
-- handlers run is covered at the level of calls: any sequence of steps on the registry in which a
-- broadcast is one step (Broker.Registry.Subscribers), and one broadcast that is interrupted
-- (Broker.Registry.Race); Broker.Fanout has the handlers while nobody does. Broker.System is about
-- mode `queue` until the queue is closed. The broker tells producers and consumers nothing of each
-- other's pace: there is no time, so the sleep between two rows and the timeouts of the driver are
-- left out. Sockets, signals, what is logged, the shutdown of the HTTP servers, the OpenAPI file and
-- Swagger UI are calls of libraries, and the unused internal/queue is empty.
pub mod Prelude
pub mod Protocol
pub mod Broker
pub mod Metrics
pub mod Pipeline
pub mod Producer
pub mod Message
pub mod Storage
pub mod Consumer
pub mod Config
pub mod Tests

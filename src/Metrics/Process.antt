-- ===== src/Metrics/Process.antt =====
-- The process of the metrics API (cmd/metrics/main.go): the MongoDB store, behind its adapter, under
-- the handler and the routes.
pub mod Telemetry
pub mod Gpus
use message_queue.Prelude.{ℕ, Bool, true, false, Option, none, some, ◌++◌, if◌then◌else◌}
use message_queue.Prelude.Go.{Go}
use message_queue.Prelude.Text.{Text, codes}
use message_queue.Metrics.Service.{Store}
use message_queue.Metrics.StoreAdapter.{StoreAdapter, new_store_adapter, as_store}
use message_queue.Metrics.Handler.{Handler, new_handler}
use message_queue.Metrics.Routes.{Route, Request, Reply, serve}
use message_queue.Config.{Environment, Config, new_config_from_env}
use message_queue.Storage.{Collection, list_gpus, query_telemetry}
use message_queue.Storage.Connect.{
  Driver, MongoStore, NewStore, opened, not_opened, new_mongo_store, close,
}

-- How the process ends: with an exit code, or after the signal, with whether the store was closed.
pub data Exit : Type 0 where
  exited : ℕ → Exit
  shut_down : Bool → Exit

module _ {K C V Time Doc : Type 0} (driver : Driver K C) (api : Collection C V Time Doc) where
  -- The store of the handler; `c` is the collection when a request is answered.
  unfoldable pub store_adapter : MongoStore K C → C → StoreAdapter Time Doc
  store_adapter ms c = new_store_adapter (query_telemetry api c) (list_gpus api c) (close driver ms)

  unfoldable pub handler_of : Environment → MongoStore K C → C → Handler Time Doc
  handler_of os ms c =
      new_handler (as_store (store_adapter ms c)) (new_config_from_env os).default_limit

  abbrev connected : (Text → Bool) → Text → NewStore K C → Exit
  connected listen port (not_opened e) = exited 1
  connected listen port (opened ms) =
      if listen (codes ":" ++ port) then shut_down (close driver ms) else exited 1

  -- `listen` tells whether the server runs on an address until it is shut down.
  pub main : (Text → Bool) → Environment → Exit
  main listen os =
      let config = new_config_from_env os in
      connected listen config.port
        (new_mongo_store driver config.mongo_uri config.db_name config.collection)

  -- What the running process answers to a request.
  unfoldable pub respond :
      (Text → Option Time)
      → (Text → Option Time)
      → (Request → Route)
      → Environment
      → MongoStore K C
      → C
      → Request
      → Go (Reply Doc)
  respond parse_nano parse_rfc3339 route os ms c r =
      serve parse_nano parse_rfc3339 route (new_config_from_env os).auth_token
        (some (handler_of os ms c)) r

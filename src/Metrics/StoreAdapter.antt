-- ===== src/Metrics/StoreAdapter.antt =====
-- StoreAdapter (internal/metrics/store_adapter.go): a store as three functions.
use message_queue.Prelude.{Bool, Option, List}
use message_queue.Prelude.Int.{ℤ}
use message_queue.Prelude.Text.{Text}
use message_queue.Metrics.Service.{TelemetryQuery, Store}

pub record StoreAdapter (Time Doc : Type 0) : Type 0 where
  pub query_func : TelemetryQuery Time → Option (List Doc × ℤ)
  pub list_gpus_func : Option (List Text)
  pub close_func : Bool

module _ {Time Doc : Type 0} where
  unfoldable pub new_store_adapter :
      (TelemetryQuery Time → Option (List Doc × ℤ))
      → Option (List Text)
      → Bool
      → StoreAdapter Time Doc
  new_store_adapter query list_them shut = record {
    query_func = query;
    list_gpus_func = list_them;
    close_func = shut;
  }

  unfoldable pub list_gpus : StoreAdapter Time Doc → Option (List Text)
  list_gpus a = a.list_gpus_func

  -- `int(total)` of an int64 is that number.
  unfoldable pub query_telemetry :
      StoreAdapter Time Doc → TelemetryQuery Time → Option (List Doc × ℤ)
  query_telemetry a q = a.query_func q

  pub close : StoreAdapter Time Doc → Bool
  close a = a.close_func

  -- The adapter as the Store of the service.
  abbrev pub as_store : StoreAdapter Time Doc → Store Time Doc
  as_store a = record { list_gpus = list_gpus a; query_telemetry = query_telemetry a }

-- ===== src/Metrics/Service.antt =====
-- Service (internal/metrics/service.go), over the Store interface of internal/metrics/interfaces.go.
use message_queue.Prelude.{Bool, true, false, Option, none, some, List, length, if◌then◌else◌}
use message_queue.Prelude.Go.{Go, returns, ◌>>=◌}
use message_queue.Prelude.Int.{ℤ, pos, leb_ℤ}
use message_queue.Prelude.Text.{Text}
use message_queue.Metrics.Pagination.{MetricsError, validate, calculate_offset, paginate_slice}
use message_queue.Metrics.Sorter.{SortOrder, ascending, descending, sort_strings}

-- A Go result: a value, or an error. Errors of the store are not told apart.
pub data Result {ℓ} (A : Type ℓ) : Type ℓ where
  ok : A → Result A
  invalid : MetricsError → Result A
  failed : Result A

-- What a query asks the store for.
pub record TelemetryQuery (Time : Type 0) : Type 0 where
  pub gpu_id : Text
  pub start_time : Option Time
  pub end_time : Option Time
  pub limit : ℤ
  pub page : ℤ
  pub sort_asc : Bool

-- `list_gpus` and `query_telemetry` answer none where the store fails.
pub record Store (Time Doc : Type 0) : Type 0 where
  pub list_gpus : Option (List Text)
  pub query_telemetry : TelemetryQuery Time → Option (List Doc × ℤ)

pub record Response (A : Type 0) : Type 0 where
  pub total : ℤ
  pub page : ℤ
  pub limit : ℤ
  pub items : List A

pub record Service (Time Doc : Type 0) : Type 0 where
  pub store : Store Time Doc
  pub default_limit : ℤ

-- A page of the sorted identifiers.
unfoldable pub list_page : List Text → ℤ → ℤ → SortOrder → Go (Result (Response Text))
list_page ids page limit order =
    let sorted = sort_strings ids order in
    paginate_slice sorted (calculate_offset page limit) limit >>= λ items.
    returns (ok (record { total = pos (length sorted); page = page; limit = limit; items = items }))

abbrev pub is_ascending : SortOrder → Bool
is_ascending ascending = true
is_ascending descending = false

module _ {Time Doc : Type 0} where
  unfoldable pub new_service : Store Time Doc → ℤ → Service Time Doc
  new_service s n = record { store = s; default_limit = if leb_ℤ n (pos 0) then pos 100 else n }

  unfoldable pub list_gpus : Service Time Doc → ℤ → ℤ → SortOrder → Go (Result (Response Text))
  list_gpus s page limit order = elim (validate (record { limit = limit; page = page })) [
    | some e ↦ returns (invalid e)
    | none ↦ elim s.store.list_gpus [
      | none ↦ returns failed
      | some ids ↦ list_page ids page limit order
    ]
  ]

  unfoldable pub query_telemetry :
      Service Time Doc
      → Text
      → Option Time
      → Option Time
      → ℤ
      → ℤ
      → SortOrder
      → Result (Response Doc)
  query_telemetry s gpu start end limit page order =
      elim (validate (record { limit = limit; page = page })) [
        | some e ↦ invalid e
        | none ↦
            elim (s.store.query_telemetry (record {
              gpu_id = gpu;
              start_time = start;
              end_time = end;
              limit = limit;
              page = page;
              sort_asc = is_ascending order;
            })) [
              | none ↦ failed
              | some (items, total) ↦
                  ok (record { total = total; page = page; limit = limit; items = items })
            ]
      ]

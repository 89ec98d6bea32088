-- ===== src/Metrics/Handler.antt =====
-- Handler (internal/metrics/handler.go): the two endpoints and their status codes.
pub mod Answers
pub mod Path
pub mod Telemetry
use message_queue.Prelude.{
  ℕ, ◌+◌, ◌≡◌, refl, Bool, true, false, Option, none, some, List, [], ◌∷◌, arith, if◌then◌else◌,
}
use message_queue.Prelude.Go.{Go, returns, panics, ◌>>=◌}
use message_queue.Prelude.Int.{ℤ, pos, leb_ℤ}
use message_queue.Prelude.Text.{Text, codes, text_eq, is_empty}
use message_queue.Prelude.Strings.{split}
use message_queue.Metrics.Pagination.{
  PaginationParams, MetricsError, invalid_limit, invalid_page, invalid_gpu_id, invalid_time,
  validate,
}
use message_queue.Metrics.Sorter.{SortOrder, ascending}
use message_queue.Metrics.Query.{
  Params, parse_int, parse_sort_order, parse_time_param, TimeParam, absent, at,
}
use message_queue.Metrics.Query as Query
use message_queue.Metrics.Service.{Store, Service, new_service, Response, Result, ok, failed}
use message_queue.Metrics.Service as Service

-- The text of an error.
pub error_text : MetricsError → Text
error_text invalid_limit = codes "limit must be greater than 0"
error_text invalid_page = codes "page must be greater than 0"
error_text invalid_gpu_id = codes "GPU ID is required"
error_text invalid_time = codes "invalid time format"

-- What `jsonOK` and `jsonError` write.
pub data HttpResponse (A : Type 0) : Type 0 where
  json_ok : A → HttpResponse A
  json_error : ℕ → Text → HttpResponse A

pub record Handler (Time Doc : Type 0) : Type 0 where
  pub service : Service Time Doc
  pub default_limit : ℤ

-- The part behind the first "gpus", if there is one.
abbrev pub after_gpus : List Text → Text
after_gpus [] = []
after_gpus (part ∷ []) = []
after_gpus (part ∷ next ∷ parts) =
    if text_eq part (codes "gpus") then next else after_gpus (next ∷ parts)

pub extract_gpu_id_from_path : Text → Text
extract_gpu_id_from_path path = after_gpus (split b'/' path)

-- 200 with the response, or 500 with a fixed text, whatever the service's error.
abbrev pub answer : {A : Type 0} → Text → Result (Response A) → HttpResponse (Response A)
answer message (ok r) = json_ok r
answer message (Result.invalid e) = json_error 500 message
answer message failed = json_error 500 message

-- A time bound that was given, or none; an invalid one has been refused before.
abbrev pub bound : {Time : Type 0} → TimeParam Time → Option Time
bound absent = none
bound (at t) = some t
bound TimeParam.invalid = none

module _ {Time Doc : Type 0} where
  unfoldable pub new_handler : Store Time Doc → ℤ → Handler Time Doc
  new_handler store n =
      let limit = if leb_ℤ n (pos 0) then pos 100 else n in
      record { service = new_service store limit; default_limit = limit }

  unfoldable pub list_gpus : Handler Time Doc → Params → Go (HttpResponse (Response Text))
  list_gpus h params =
      let limit = parse_int params (codes "limit") h.default_limit in
      let page = parse_int params (codes "page") (pos 1) in
      let order = parse_sort_order params (codes "sort") ascending in
      elim (validate (record { limit = limit; page = page })) [
        | some e ↦ returns (json_error 400 (error_text e))
        | none ↦ Service.list_gpus h.service page limit order >>= λ r.
            returns (answer (codes "failed to list GPUs") r)
      ]

module _ {Time Doc : Type 0} (parse_nano parse_rfc3339 : Text → Option Time) where
  pub query_gpu_telemetry : Handler Time Doc → Text → Params → HttpResponse (Response Doc)
  query_gpu_telemetry h path params =
      let gpu = extract_gpu_id_from_path path in
      let start = parse_time_param parse_nano parse_rfc3339 params (codes "start_time") in
      let end = parse_time_param parse_nano parse_rfc3339 params (codes "end_time") in
      let limit = parse_int params (codes "limit") h.default_limit in
      let page = parse_int params (codes "page") (pos 1) in
      let order = parse_sort_order params (codes "sort") ascending in
      if is_empty gpu then json_error 400 (codes "GPU ID is required") else elim start [
        | TimeParam.invalid ↦ json_error 400 (codes "invalid start_time format")
        | from ↦ elim end [
          | TimeParam.invalid ↦ json_error 400 (codes "invalid end_time format")
          | to ↦ elim (validate (record { limit = limit; page = page })) [
            | some e ↦ json_error 400 (error_text e)
            | none ↦
                answer (codes "failed to query telemetry")
                  (Service.query_telemetry h.service gpu (bound from) (bound to) limit page order)
          ]
        ]
      ]

-- ===== src/Metrics/Handler/Telemetry.antt =====
-- What a client of the telemetry endpoint is answered.
use message_queue.Prelude.{◌≡◌, refl, false, Option, none, some, List, All, ◌==◌}
use message_queue.Prelude.Int.{ℤ}
use message_queue.Prelude.Text.{Text, codes, is_empty}
use message_queue.Metrics.Query.{Params, TimeParam, absent, at, parse_time_param}
use message_queue.Metrics.Service.{
  Store, TelemetryQuery, Response, Service, ok, failed, Result, is_ascending,
}
use message_queue.Metrics.Service as Service
use message_queue.Metrics.Handler.{
  HttpResponse, json_ok, json_error, new_handler, answer, query_gpu_telemetry,
}
use message_queue.Metrics.Handler.Answers.{limit_of, page_of, order_of, valid, service_store}
use message_queue.Metrics.Handler.Path.{telemetry_path, extract-telemetry_path}

-- A time parameter that was not given, or is a time.
abbrev pub given : {Time : Type 0} → Option Time → TimeParam Time
given none = absent
given (some t) = at t

-- The response for what the store answers.
abbrev pub page_response :
    {Doc : Type 0} → ℤ → ℤ → Option (List Doc × ℤ) → HttpResponse (Response Doc)
page_response page limit none = json_error 500 (codes "failed to query telemetry")
page_response page limit (some (docs, total)) =
    json_ok (record { total = total; page = page; limit = limit; items = docs })

answered :
    {Doc : Type 0} (page limit : ℤ) (x : Option (List Doc × ℤ))
    → answer (codes "failed to query telemetry") (elim x as (λ _. Result (Response Doc)) [
      | none ↦ failed
      | some (items, total) ↦
          ok (record { total = total; page = page; limit = limit; items = items })
    ])
      ≡ page_response page limit x
answered page limit none = refl
answered page limit (some x) = refl

module _ {Time Doc : Type 0} (store : Store Time Doc) (n : ℤ) (params : Params) (id : Text) where
  -- The query that the store is asked.
  abbrev pub asked : Option Time → Option Time → TelemetryQuery Time
  asked from to = record {
    gpu_id = id;
    start_time = from;
    end_time = to;
    limit = limit_of (new_handler store n) params;
    page = page_of params;
    sort_asc = is_ascending (order_of params);
  }

  -- What the client is answered.
  abbrev pub response : Option Time → Option Time → HttpResponse (Response Doc)
  response from to =
      page_response (page_of params) (limit_of (new_handler store n) params)
        (store.query_telemetry (asked from to))

  service_answer :
      (from to : Option Time)
      → answer (codes "failed to query telemetry") (
          Service.query_telemetry
            (new_handler store n).service
            id
            from
            to
            (limit_of (new_handler store n) params)
            (page_of params)
            (order_of params))
        ≡ response from to
  unfolding Service.query_telemetry
  service_answer from to =
      rw (valid store n params, Service.query_telemetry, service_store store n params)
        (answered (page_of params) (limit_of (new_handler store n) params)
          (store.query_telemetry (asked from to)))

  module _ (parse_nano parse_rfc3339 : Text → Option Time) where
    -- A request for the telemetry of an identifier without a slash, whose time parameters are missing
    -- or times, is answered what the store answers to one query: for that identifier, with those
    -- bounds, and with the page, the limit and the order of the query, or their defaults. The answer
    -- is 200 with the documents and the store's total, or 500 if the store fails.
    pub query_gpu_telemetry-page :
        (from to : Option Time)
        → All (λ c. (c == b'/') ≡ false) id
        → is_empty id ≡ false
        → parse_time_param parse_nano parse_rfc3339 params (codes "start_time") ≡ given from
        → parse_time_param parse_nano parse_rfc3339 params (codes "end_time") ≡ given to
        → query_gpu_telemetry parse_nano parse_rfc3339
            (new_handler store n)
            (telemetry_path id)
            params
          ≡ response from to
    unfolding query_gpu_telemetry
    query_gpu_telemetry-page none none no_slash some_id hs he =
        rw
          (
            extract-telemetry_path id no_slash,
            some_id,
            hs,
            he,
            valid store n params,
            extract-telemetry_path id no_slash,
          )
          (service_answer none none)
    query_gpu_telemetry-page none (some t) no_slash some_id hs he =
        rw
          (
            extract-telemetry_path id no_slash,
            some_id,
            hs,
            he,
            valid store n params,
            extract-telemetry_path id no_slash,
          )
          (service_answer none (some t))
    query_gpu_telemetry-page (some t) none no_slash some_id hs he =
        rw
          (
            extract-telemetry_path id no_slash,
            some_id,
            hs,
            he,
            valid store n params,
            extract-telemetry_path id no_slash,
          )
          (service_answer (some t) none)
    query_gpu_telemetry-page (some t) (some u) no_slash some_id hs he =
        rw
          (
            extract-telemetry_path id no_slash,
            some_id,
            hs,
            he,
            valid store n params,
            extract-telemetry_path id no_slash,
          )
          (service_answer (some t) (some u))

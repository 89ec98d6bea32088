-- ===== src/Metrics/Process/Telemetry.antt =====
-- What a client of the metrics process is answered from MongoDB.
use message_queue.Prelude.{
  ℕ, suc, ◌*◌, ◌^◌, ◌<◌, ◌≡◌, refl, ap, ◌∙◌, inl, inr, Bool, true, false, Option, none, some, All,
  ◌==◌, arith, Option-cases, if◌then◌else◌,
}
use message_queue.Prelude.Go.{returns}
use message_queue.Prelude.Int.{ℤ, pos, negsuc}
use message_queue.Prelude.Text.{Text, codes, text_eq, is_empty}
use message_queue.Metrics.Auth.{authorized}
use message_queue.Metrics.Pagination.Pages.{offset_lem, wrap64-pos}
use message_queue.Metrics.Query.{Params, parse_time_param}
use message_queue.Metrics.Service.{TelemetryQuery, Response, is_ascending}
use message_queue.Metrics.StoreAdapter as StoreAdapter
use message_queue.Metrics.StoreAdapter.{as_store, new_store_adapter}
use message_queue.Metrics.Handler.{HttpResponse, json_ok, json_error, new_handler}
use message_queue.Metrics.Handler.Answers.{limit_of, page_of, order_of}
use message_queue.Metrics.Handler.Path.{telemetry_path}
use message_queue.Metrics.Handler.Telemetry.{
  given, page_response, asked, response, query_gpu_telemetry-page,
}
use message_queue.Metrics.Routes.{
  Route, telemetry, Request, telemetry_list, allowed_origin, serve-telemetry,
}
use message_queue.Metrics.Process.{store_adapter, handler_of, respond}
use message_queue.Config.{Environment, new_config_from_env}
use message_queue.Storage.{
  Collection, Filter, FindOptions, read_cursor, query_filter, find_options, query_telemetry,
}
use message_queue.Storage.Effect.{skip-calculate_offset}
use message_queue.Storage.Connect.{Driver, MongoStore}

module _ {C V Time Doc : Type 0} (api : Collection C V Time Doc) (c : C) where
  -- The response from two calls of the driver.
  abbrev pub found : Filter Time → FindOptions → ℤ → ℤ → HttpResponse (Response Doc)
  found filter options page limit = elim (api.count_documents c filter) [
    | none ↦ json_error 500 (codes "failed to query telemetry")
    | some total ↦ elim (api.find c filter options) [
      | none ↦ json_error 500 (codes "failed to query telemetry")
      | some cursor ↦ elim (read_cursor cursor) [
        | none ↦ json_error 500 (codes "failed to query telemetry")
        | some docs ↦ json_ok (record { total = total; page = page; limit = limit; items = docs })
      ]
    ]
  ]

  query_telemetry-found :
      (q : TelemetryQuery Time) (page limit : ℤ)
      → page_response page limit (query_telemetry api c q)
        ≡ found (query_filter q) (find_options q) page limit
  unfolding query_telemetry
  query_telemetry-found q page limit =
      elim (Option-cases (api.count_documents c (query_filter q))) [
        | inl e ↦ rw (e, page_response, query_telemetry, found)
        | inr (total, e) ↦ elim (Option-cases (api.find c (query_filter q) (find_options q))) [
          | inl f ↦ rw (e, page_response, query_telemetry, found, f)
          | inr (cursor, f) ↦ elim (Option-cases (read_cursor cursor)) [
            | inl g ↦ rw (e, page_response, query_telemetry, found, f, g)
            | inr (docs, g) ↦ rw (e, page_response, query_telemetry, found, f, g)
          ]
        ]
      ]

options_eq :
    (o : FindOptions) (limit skip sort : ℤ)
    → o.limit ≡ limit
    → o.skip ≡ skip
    → o.sort ≡ sort
    → o ≡ record { limit = limit; skip = skip; sort = sort }
options_eq o limit skip sort h k l = λ i. record { limit = h i; skip = k i; sort = l i }

-- The options of a query for page `p + 1`, with a limit of `l + 1`.
abbrev pub options : ℕ → ℕ → Bool → FindOptions
options p l up = record {
  limit = pos (suc l);
  skip = pos (p * suc l);
  sort = if up then pos 1 else negsuc 0;
}

sort_eq :
    {Time : Type 0} (q : TelemetryQuery Time)
    → (find_options q).sort ≡ (if q.sort_asc then pos 1 else negsuc 0)
unfolding find_options
sort_eq q = refl

find_options_lem :
    {Time : Type 0} (q : TelemetryQuery Time) (p l : ℕ)
    → q.page ≡ pos (suc p)
    → q.limit ≡ pos (suc l)
    → p < 2 ^ 63
    → p * suc l < 2 ^ 63
    → find_options q ≡ options p l q.sort_asc
find_options_lem q p l hp hl small fits =
    let (skips, limits) = skip-calculate_offset q (rw hp (omega arith)) (rw hl (omega arith)) in
    options_eq (find_options q) (pos (suc l)) (pos (p * suc l))
      (if q.sort_asc then pos 1 else negsuc 0) (limits ∙ hl)
      (skips ∙ rw (hp, hl) (offset_lem p (suc l) small ∙ wrap64-pos (p * suc l) fits)) (sort_eq q)

adapter_query :
    {K C V Time Doc : Type 0} (driver : Driver K C) (api : Collection C V Time Doc)
    (ms : MongoStore K C) (c : C) (q : TelemetryQuery Time)
    → StoreAdapter.query_telemetry (store_adapter driver api ms c) q ≡ query_telemetry api c q
unfolding StoreAdapter.query_telemetry store_adapter new_store_adapter
adapter_query driver api ms c q = refl

filter_eq :
    {Time : Type 0} (q : TelemetryQuery Time)
    → is_empty q.gpu_id ≡ false
    → query_filter q ≡ record { gpu = some q.gpu_id; gte = q.start_time; lte = q.end_time }
filter_eq q h = rw h

response-found :
    {K C V Time Doc : Type 0} (driver : Driver K C) (api : Collection C V Time Doc)
    (ms : MongoStore K C) (c : C) (n : ℤ) (params : Params) (id : Text) (from to : Option Time)
    (p l : ℕ)
    → is_empty id ≡ false
    → page_of params ≡ pos (suc p)
    → limit_of (new_handler (as_store (store_adapter driver api ms c)) n) params ≡ pos (suc l)
    → p < 2 ^ 63
    → p * suc l < 2 ^ 63
    → response (as_store (store_adapter driver api ms c)) n params id from to
      ≡ found api c
          (record { gpu = some id; gte = from; lte = to })
          (options p l (is_ascending (order_of params)))
          (pos (suc p))
          (pos (suc l))
response-found driver api ms c n params id from to p l some_id hp hl small fits =
    let store = as_store (store_adapter driver api ms c) in
    let q = asked store n params id from to in
    ap (page_response (page_of params) (limit_of (new_handler store n) params))
      (adapter_query driver api ms c q)
    ∙ query_telemetry-found api c q (page_of params) (limit_of (new_handler store n) params)
    ∙ rw (find_options_lem q p l hp hl small fits, filter_eq q some_id, hp, hl)

module _ {K C V Time Doc : Type 0} (driver : Driver K C) (api : Collection C V Time Doc)
    (parse_nano parse_rfc3339 : Text → Option Time) (route : Request → Route) where
  -- From a request to MongoDB. A request of the telemetry route that is no preflight request, carries
  -- the token where one is configured, names an identifier without a slash, and whose time parameters
  -- are missing or times, where `p + 1` and `l + 1` are its page and limit, or their defaults, and `p`
  -- and `p * (l + 1)` are within an `int`: the process counts the documents of that identifier within
  -- those times, bounds included, asks for `l + 1` of them from the `p * (l + 1)`th on, by their time
  -- in the order of the query, and answers 200 with them and their whole number, or 500 if the driver
  -- fails.
  pub respond-telemetry :
      (os : Environment) (ms : MongoStore K C) (c : C) (r : Request) (id : Text)
      (from to : Option Time) (p l : ℕ)
      → route r ≡ telemetry
      → text_eq r.method (codes "OPTIONS") ≡ false
      → authorized (new_config_from_env os).auth_token r.authorization ≡ true
      → r.path ≡ telemetry_path id
      → All (λ x. (x == b'/') ≡ false) id
      → is_empty id ≡ false
      → parse_time_param parse_nano parse_rfc3339 r.params (codes "start_time") ≡ given from
      → parse_time_param parse_nano parse_rfc3339 r.params (codes "end_time") ≡ given to
      → page_of r.params ≡ pos (suc p)
      → limit_of (handler_of driver api os ms c) r.params ≡ pos (suc l)
      → p < 2 ^ 63
      → p * suc l < 2 ^ 63
      → respond driver api parse_nano parse_rfc3339 route os ms c r
        ≡ returns (record {
          allow_origin = allowed_origin r.origin;
          body = telemetry_list (
              found api c
                (record { gpu = some id; gte = from; lte = to })
                (options p l (is_ascending (order_of r.params)))
                (pos (suc p))
                (pos (suc l)));
        })
  unfolding respond handler_of
  respond-telemetry os ms c r id from to p l at get_like passes path no_slash some_id hs he hp hl
        small fits =
      let store = as_store (store_adapter driver api ms c) in
      let n = (new_config_from_env os).default_limit in
      serve-telemetry parse_nano parse_rfc3339 route (new_config_from_env os).auth_token
        (handler_of driver api os ms c) r at get_like passes
      ∙ rw
          (
            path,
            query_gpu_telemetry-page store n r.params id parse_nano parse_rfc3339 from to no_slash
                some_id hs he,
          )
          (ap
            (λ x.
              returns (record { allow_origin = allowed_origin r.origin; body = telemetry_list x }))
            (response-found driver api ms c n r.params id from to p l some_id hp hl small fits))

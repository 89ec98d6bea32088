-- ===== src/Metrics/Routes.antt =====
-- RegisterGinRoutes (internal/metrics/gin_adapter.go): the order of middleware and handlers. Which
-- route a path belongs to is Gin's decision, and comes in as an argument.
use message_queue.Prelude.{
  ◌≡◌, inl, inr, ◌≢◌, true, false, Option, none, some, [], Bool-cases, if◌then◌else◌,
}
use message_queue.Prelude.Go.{Go, returns, ◌>>=◌}
use message_queue.Prelude.Text.{Text, codes, text_eq, is_empty}
use message_queue.Metrics.Auth.{authorized, authorized_iff, Carries}
use message_queue.Metrics.Query.{Params}
use message_queue.Metrics.Service.{Response}
use message_queue.Metrics.Handler.{Handler, HttpResponse, list_gpus, query_gpu_telemetry}

pub data Route : Type 0 where
  gpus telemetry healthz ready no_route : Route

pub record Request : Type 0 where
  pub method : Text
  pub path : Text
  pub origin : Text
  pub authorization : Text
  pub params : Params

-- What the middleware and the handlers write. `internal_error` is 500 with no body.
pub data Body (Doc : Type 0) : Type 0 where
  no_content unauthorized health_ok internal_error not_found : Body Doc
  gpu_list : HttpResponse (Response Text) → Body Doc
  telemetry_list : HttpResponse (Response Doc) → Body Doc

pub record Reply (Doc : Type 0) : Type 0 where
  pub allow_origin : Text
  pub body : Body Doc

-- The CORS header.
pub allowed_origin : Text → Text
allowed_origin origin = if is_empty origin then codes "*" else origin

-- The routes that need a token.
abbrev pub IsProtected : Route → Type 0
IsProtected gpus = Unit {0}
IsProtected telemetry = Unit {0}
IsProtected _ = ⊥

module _ {Time Doc : Type 0} (parse_nano parse_rfc3339 : Text → Option Time) where
  -- `ListGPUs` and `QueryGPUTelemetry` of gin_adapter.go, on the registered handler.
  abbrev gin_list_gpus : Option (Handler Time Doc) → Request → Go (Body Doc)
  gin_list_gpus none r = returns internal_error
  gin_list_gpus (some h) r = list_gpus h r.params >>= λ x. returns (gpu_list x)

  abbrev gin_query_gpu_telemetry : Option (Handler Time Doc) → Request → Body Doc
  gin_query_gpu_telemetry none r = internal_error
  gin_query_gpu_telemetry (some h) r =
      telemetry_list (query_gpu_telemetry parse_nano parse_rfc3339 h r.path r.params)

  -- The handler of a route, behind the authentication of the group /api/v1 where it is in it.
  unfoldable pub handle_route : Text → Option (Handler Time Doc) → Route → Request → Go (Body Doc)
  handle_route expected h gpus r =
      if authorized expected r.authorization then gin_list_gpus h r else returns unauthorized
  handle_route expected h telemetry r =
      if authorized expected r.authorization
      then returns (gin_query_gpu_telemetry h r)
      else returns unauthorized
  handle_route expected h healthz r = returns health_ok
  handle_route expected h ready r = returns health_ok
  handle_route expected h no_route r = returns not_found

  -- CORS stands in front of everything, and answers preflight requests itself.
  unfoldable pub serve :
      (Request → Route) → Text → Option (Handler Time Doc) → Request → Go (Reply Doc)
  serve route expected h r =
      let origin = allowed_origin r.origin in
      if text_eq r.method (codes "OPTIONS")
      then returns (record { allow_origin = origin; body = no_content })
      else handle_route expected h (route r) r >>= λ b.
          returns (record { allow_origin = origin; body = b })

  -- A request for telemetry that carries the token gets to the handler.
  pub serve-telemetry :
      (route : Request → Route) (expected : Text) (h : Handler Time Doc) (r : Request)
      → route r ≡ telemetry
      → text_eq r.method (codes "OPTIONS") ≡ false
      → authorized expected r.authorization ≡ true
      → serve route expected (some h) r
        ≡ returns (record {
          allow_origin = allowed_origin r.origin;
          body = telemetry_list (query_gpu_telemetry parse_nano parse_rfc3339 h r.path r.params);
        })
  unfolding serve handle_route
  serve-telemetry route expected h r at get_like passes =
      rw (get_like, serve, at, handle_route, passes)

  -- A request for the list of GPUs that carries the token gets to the handler.
  pub serve-gpus :
      (route : Request → Route) (expected : Text) (h : Handler Time Doc) (r : Request)
      (x : HttpResponse (Response Text))
      → route r ≡ gpus
      → text_eq r.method (codes "OPTIONS") ≡ false
      → authorized expected r.authorization ≡ true
      → list_gpus h r.params ≡ returns x
      → serve route expected (some h) r
        ≡ returns (record { allow_origin = allowed_origin r.origin; body = gpu_list x })
  unfolding serve handle_route
  serve-gpus route expected h r x at get_like passes answers =
      rw (get_like, serve, at, handle_route, passes, answers)

  handle_route-unauthorized :
      (expected : Text) (h : Option (Handler Time Doc)) (route : Route) (r : Request)
      → IsProtected route
      → authorized expected r.authorization ≡ false
      → handle_route expected h route r ≡ returns unauthorized
  unfolding handle_route
  handle_route-unauthorized expected h gpus r p a = rw a
  handle_route-unauthorized expected h telemetry r p a = rw a
  handle_route-unauthorized expected h healthz r p a = absurd p
  handle_route-unauthorized expected h ready r p a = absurd p
  handle_route-unauthorized expected h no_route r p a = absurd p

  -- With a token configured, a request for the list of GPUs or for telemetry that is no preflight
  -- request and does not carry the token is answered 401, whatever the handler and its store.
  pub serve-unauthorized :
      (route : Request → Route) (expected : Text) (h : Option (Handler Time Doc)) (r : Request)
      → expected ≢ []
      → IsProtected (route r)
      → text_eq r.method (codes "OPTIONS") ≡ false
      → ¬ Carries r.authorization expected
      → serve route expected h r
        ≡ returns (record { allow_origin = allowed_origin r.origin; body = unauthorized })
  unfolding serve
  serve-unauthorized route expected h r configured protected get_like bare =
      rw (get_like, serve, handle_route-unauthorized expected h (route r) r protected refused)
    where
      refused : authorized expected r.authorization ≡ false
      refused = elim (Bool-cases (authorized expected r.authorization)) [
        | inr no_entry ↦ no_entry
        | inl passes ↦ elim ((authorized_iff expected r.authorization).0 passes) [
          | inl e ↦ absurd (configured e)
          | inr c ↦ absurd (bare c)
        ]
      ]

-- ===== src/Metrics/Logging.antt =====
-- LoggingMiddleware and its responseWriter (internal/metrics/handler.go), over any writer `W` of
-- net/http: its `WriteHeader` and its `Write`, with errors `E`.
use message_queue.Prelude.{ℕ, ◌≡◌, refl, Bool, true, false, Option, List, [], ◌∷◌, if◌then◌else◌}
use message_queue.Protocol.{Bytes}

pub record ResponseWriter (W : Type 0) : Type 0 where
  pub response_writer : W
  pub status_code : ℕ
  pub written : Bool

-- What a handler calls of its writer.
pub data Call : Type 0 where
  header : ℕ → Call
  body : Bytes → Call

-- What the client has after a request, and the status that is logged.
pub record Logged (W : Type 0) : Type 0 where
  pub response : W
  pub status : ℕ

module _ {W E : Type 0} (inner_header : W → ℕ → W) (inner_write : W → Bytes → W × Option E) where
  pub write_header : ResponseWriter W → ℕ → ResponseWriter W
  write_header r code = if r.written then r else record {
    response_writer = inner_header r.response_writer code;
    status_code = code;
    written = true;
  }

  pub write : ResponseWriter W → Bytes → ResponseWriter W × Option E
  write r b = (
    record r { response_writer = (inner_write r.response_writer b).0; written = true },
    (inner_write r.response_writer b).1,
  )

  -- The handler behind the middleware, as the calls that it makes.
  abbrev pub serve_http : ResponseWriter W → List Call → ResponseWriter W
  serve_http r [] = r
  serve_http r (header code ∷ calls) = serve_http (write_header r code) calls
  serve_http r (body b ∷ calls) = serve_http (write r b).0 calls

  pub logging_middleware : W → List Call → Logged W
  logging_middleware w calls =
      let wrapped =
        serve_http (record { response_writer = w; status_code = 200; written = false }) calls in
      record { response = wrapped.response_writer; status = wrapped.status_code }

  -- The same calls without the middleware.
  abbrev pub direct : W → List Call → W
  direct w [] = w
  direct w (header code ∷ calls) = direct (inner_header w code) calls
  direct w (body b ∷ calls) = direct (inner_write w b).0 calls

  -- What is left once a header or a body was written.
  abbrev pub bodies_only : List Call → List Call
  bodies_only [] = []
  bodies_only (header code ∷ calls) = bodies_only calls
  bodies_only (body b ∷ calls) = body b ∷ bodies_only calls

  abbrev pub first_header : List Call → List Call
  first_header [] = []
  first_header (header code ∷ calls) = header code ∷ bodies_only calls
  first_header (body b ∷ calls) = body b ∷ bodies_only calls

  -- The status of net/http: that of the first call, which is 200 where it is no `WriteHeader`.
  abbrev pub first_status : List Call → ℕ
  first_status [] = 200
  first_status (header code ∷ calls) = code
  first_status (body b ∷ calls) = 200

  serve_http-written :
      (w : W) (status : ℕ) (calls : List Call)
      → serve_http (record { response_writer = w; status_code = status; written = true }) calls
        ≡ record {
          response_writer = direct w (bodies_only calls);
          status_code = status;
          written = true;
        }
  unfolding write_header write
  serve_http-written w status [] = refl
  serve_http-written w status (header code ∷ calls) = serve_http-written w status calls
  serve_http-written w status (body b ∷ calls) = serve_http-written (inner_write w b).0 status calls

  -- Behind the logging middleware, the client is sent what the handler's calls do without it, but
  -- that each `WriteHeader` after the first call is left out; and the status that is logged is that
  -- of the first call, or 200 where that is a `Write` or there is none.
  pub logging_middleware_lem :
      (w : W) (calls : List Call)
      → logging_middleware w calls
        ≡ record { response = direct w (first_header calls); status = first_status calls }
  unfolding logging_middleware write_header write
  logging_middleware_lem w [] = refl
  logging_middleware_lem w (header code ∷ calls) =
      rw (serve_http-written (inner_header w code) code calls)
  logging_middleware_lem w (body b ∷ calls) = rw (serve_http-written (inner_write w b).0 200 calls)

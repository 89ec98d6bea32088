-- ===== src/Tests/Metrics.antt =====
-- The metrics API on concrete queries (internal/metrics).
use message_queue.Prelude.{
  ℕ, ◌*◌, ◌^◌, ◌≡◌, ◌↔◌, ◌⊎◌, refl, true, false, Option, none, some, List, [], ◌∷◌, take, arith,
}
use message_queue.Prelude.Go.{returns, panics}
use message_queue.Prelude.Int.{pos}
use message_queue.Prelude.Text.{Text, codes, text_eq}
use message_queue.Prelude.Dict.{get}
use message_queue.Prelude.Strings.{fields, fields_loop, is_space, atoi, unsigned, digits_value}
use message_queue.Metrics.Pagination.Pages.{collect, collect_lem}
use message_queue.Metrics.Auth.{authorized, Carries, authorized_iff}
use message_queue.Metrics.Query.{Params, parse_int, value?}
use message_queue.Metrics.Service.{Store}
use message_queue.Metrics.Handler.{new_handler, list_gpus}
use message_queue.Metrics.Handler.Answers.{list_gpus-overflow}
use message_queue.Metrics.Routes.{
  Request, Route, gpus, serve, allowed_origin, unauthorized, serve-unauthorized,
}

abbrev g1 : Text
g1 = codes "gpu-1"

abbrev g2 : Text
g2 = codes "gpu-2"

abbrev ids : List Text
ids = g2 ∷ g1 ∷ g1 ∷ []

-- Times and documents are numbers here.
abbrev store : Store ℕ ℕ
store = record { list_gpus = some ids; query_telemetry = λ q. none }

collect_lem_example : collect ids 2 2 ≡ returns (take (2 * 2) ids)
collect_lem_example = collect_lem ids 2 2 (omega arith) (omega arith) (omega arith) (omega arith)

authorized_iff_example :
    (authorized (codes "secret") (codes "bearer secret") ≡ true)
    ↔ ((codes "secret" ≡ []) ⊎ Carries (codes "bearer secret") (codes "secret"))
authorized_iff_example = authorized_iff (codes "secret") (codes "bearer secret")

-- The third page of 2 ^ 62 identifiers.
abbrev huge_page : Params
huge_page = (codes "page", codes "3" ∷ []) ∷ (codes "limit", codes "4611686018427387904" ∷ []) ∷ []

page_three : parse_int huge_page (codes "page") (pos 1) ≡ pos 3
unfolding parse_int value? get text_eq atoi unsigned digits_value
page_three = refl

limit_huge :
    parse_int huge_page (codes "limit") (new_handler store (pos 5)).default_limit ≡ pos (2 ^ 62)
unfolding parse_int value? get text_eq atoi unsigned digits_value
limit_huge = refl

list_gpus-overflow_example : list_gpus (new_handler store (pos 5)) huge_page ≡ panics
list_gpus-overflow_example =
    list_gpus-overflow store (pos 5) huge_page ids 2 (2 ^ 62) refl page_three limit_huge
      (omega arith) (omega arith) (omega arith)

abbrev to_gpus : Request → Route
to_gpus r = gpus

abbrev bare_request : Request
bare_request = record {
  method = codes "GET";
  path = codes "/api/v1/gpus";
  origin = [];
  authorization = codes "Bearer";
  params = [];
}

no_token : ¬ Carries (codes "Bearer") (codes "secret")
unfolding fields fields_loop is_space
no_token c = let e = c.two_fields in cc e

not_options : text_eq (codes "GET") (codes "OPTIONS") ≡ false
unfolding text_eq
not_options = refl

abbrev no_times : Text → Option ℕ
no_times s = none

serve-unauthorized_example :
    serve no_times no_times to_gpus (codes "secret") (some (new_handler store (pos 5))) bare_request
    ≡ returns (record { allow_origin = allowed_origin []; body = unauthorized })
serve-unauthorized_example =
    serve-unauthorized no_times no_times to_gpus (codes "secret") (some (new_handler store (pos 5)))
      bare_request (λ e. cc e) tt not_options no_token

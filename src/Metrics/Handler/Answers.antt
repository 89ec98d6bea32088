-- ===== src/Metrics/Handler/Answers.antt =====
-- What a client of the two endpoints is answered.
use message_queue.Prelude.{
  ℕ, suc, ◌*◌, ◌^◌, ◌≤◌, ◌<◌, ◌≡◌, refl, ◌∙◌, none, some, List, length, take, drop, arith,
}
use message_queue.Prelude.Go.{returns, panics, ◌>>=◌}
use message_queue.Prelude.Int.{ℤ, pos, ◌<ℤ◌}
use message_queue.Prelude.Text.{Text, codes}
use message_queue.Metrics.Pagination.{validate}
use message_queue.Metrics.Pagination.Pages.{page_lem, page_overflow}
use message_queue.Metrics.Sorter.{SortOrder, ascending, sort_strings, length-sort_strings}
use message_queue.Metrics.Query.{Params, parse_int, parse_sort_order, parse_int-positive}
use message_queue.Metrics.Service.{Store, Service, Response, Result, ok, failed, list_page}
use message_queue.Metrics.Service as Service
use message_queue.Metrics.Handler.{Handler, json_ok, json_error, new_handler, list_gpus, answer}

validate-positive :
    (limit page : ℤ)
    → pos 0 <ℤ limit
    → pos 0 <ℤ page
    → validate (record { limit = limit; page = page }) ≡ none
unfolding validate
validate-positive limit page h k = ground arith

-- The limit of a new handler is positive.
default_limit-positive :
    {Time Doc : Type 0} (store : Store Time Doc) (n : ℤ)
    → pos 0 <ℤ (new_handler store n).default_limit
unfolding new_handler
default_limit-positive store n = ground arith

abbrev pub limit_of : {Time Doc : Type 0} → Handler Time Doc → Params → ℤ
limit_of h params = parse_int params (codes "limit") h.default_limit

abbrev pub page_of : Params → ℤ
page_of params = parse_int params (codes "page") (pos 1)

abbrev pub order_of : Params → SortOrder
order_of params = parse_sort_order params (codes "sort") ascending

abbrev list_message : Text
list_message = codes "failed to list GPUs"

module _ {Time Doc : Type 0} (store : Store Time Doc) (n : ℤ) (params : Params) where
  abbrev pub handler : Handler Time Doc
  handler = new_handler store n

  pub valid : validate (record { limit = limit_of handler params; page = page_of params }) ≡ none
  valid =
      validate-positive (limit_of handler params) (page_of params)
        (parse_int-positive params (codes "limit") handler.default_limit
          (default_limit-positive store n))
        (parse_int-positive params (codes "page") (pos 1) (omega arith))

  -- The pagination check of the handler never fails, so the service is always asked.
  list_gpus-service : list_gpus handler params ≡ (
      Service.list_gpus handler.service (page_of params) (limit_of handler params) (order_of params)
      >>= λ r. returns (answer list_message r))
  unfolding list_gpus
  list_gpus-service = rw (valid, list_gpus)

  pub service_store : handler.service.store ≡ store
  unfolding new_handler Service.new_service
  service_store = refl

  service-failed :
      store.list_gpus ≡ none
      → Service.list_gpus handler.service
          (page_of params)
          (limit_of handler params)
          (order_of params)
        ≡ returns failed
  unfolding Service.list_gpus
  service-failed h = rw (valid, Service.list_gpus, service_store, h)

  service-page :
      (ids : List Text)
      → store.list_gpus ≡ some ids
      → Service.list_gpus handler.service
          (page_of params)
          (limit_of handler params)
          (order_of params)
        ≡ list_page ids (page_of params) (limit_of handler params) (order_of params)
  unfolding Service.list_gpus
  service-page ids h = rw (valid, Service.list_gpus, service_store) (simp h)

  -- A store that fails gives 500 on the list of GPUs, whatever the parameters.
  list_gpus-store_failed :
      store.list_gpus ≡ none
      → list_gpus (new_handler store n) params
        ≡ returns (json_error 500 (codes "failed to list GPUs"))
  list_gpus-store_failed h = list_gpus-service ∙ rw (service-failed h)

  module _ (ids : List Text) (p l : ℕ) where
    -- With a store that answers no more than 2 ^ 62 identifiers, the list of GPUs is 200 with one
    -- page of the sorted identifiers, and their number, where `p + 1` and `l` are the page and the
    -- limit of the query, or their defaults, and `p`, `l` and `p * l` are within an `int`.
    pub list_gpus-page :
        store.list_gpus ≡ some ids
        → page_of params ≡ pos (suc p)
        → limit_of (new_handler store n) params ≡ pos l
        → p < 2 ^ 63
        → l < 2 ^ 63
        → length ids ≤ 2 ^ 62
        → p * l < 2 ^ 63
        → list_gpus (new_handler store n) params
          ≡ returns (
              json_ok (record {
                total = pos (length ids);
                page = pos (suc p);
                limit = pos l;
                items = take l (drop (p * l) (sort_strings ids (order_of params)));
              }))
    unfolding list_page
    list_gpus-page h hp hl pf lf short fits =
        list_gpus-service
        ∙ rw (
          service-page ids h,
          hp,
          hl,
          page_lem (sort_strings ids (order_of params)) p l pf lf (rw length-sort_strings short)
              fits,
          length-sort_strings,
        )

    -- With a store that answers, the handler of the list of GPUs panics where `p + 1` and `l` are
    -- the page and the limit of the query, or their defaults, `p` is within an `int`, and `p * l`
    -- is from 2 ^ 63 up to 2 ^ 64.
    pub list_gpus-overflow :
        store.list_gpus ≡ some ids
        → page_of params ≡ pos (suc p)
        → limit_of (new_handler store n) params ≡ pos l
        → p < 2 ^ 63
        → 2 ^ 63 ≤ p * l
        → p * l < 2 ^ 64
        → list_gpus (new_handler store n) params ≡ panics
    unfolding list_page
    list_gpus-overflow h hp hl pf low high =
        list_gpus-service
        ∙ rw (
          service-page ids h,
          hp,
          hl,
          page_overflow (sort_strings ids (order_of params)) p l pf low high,
        )

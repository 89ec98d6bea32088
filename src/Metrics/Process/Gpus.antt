-- ===== src/Metrics/Process/Gpus.antt =====
-- The list of GPUs that a client of the metrics process is answered from MongoDB.
use message_queue.Prelude.{
  ℕ, suc, ◌*◌, ◌^◌, ◌≤◌, ◌<◌, ◌≡◌, refl, ◌∙◌, true, false, Option, some, List, [], ◌∷◌, length,
  take, drop,
}
use message_queue.Prelude.Go.{returns}
use message_queue.Prelude.Int.{pos}
use message_queue.Prelude.Text.{Text, codes, text_eq}
use message_queue.Metrics.Auth.{authorized}
use mathlib.Core.List.{Perm}
use message_queue.Metrics.Sorter.{
  SortOrder, ascending, IsSorted, sort_strings, sort_strings-IsSorted,
}
use message_queue.Metrics.Query.{value?, parse_sort_order}
use message_queue.Metrics.Query.Asked.{Number, Sorting, parse_int-Number, parse_sort_order-Sorting}
use message_queue.Metrics.StoreAdapter as StoreAdapter
use message_queue.Metrics.StoreAdapter.{as_store, new_store_adapter}
use message_queue.Metrics.Handler.{json_ok}
use message_queue.Metrics.Handler.Answers.{list_gpus-page}
use message_queue.Metrics.Routes.{Route, gpus, Request, gpu_list, allowed_origin, serve-gpus}
use message_queue.Metrics.Process.{store_adapter, handler_of, respond}
use message_queue.Config.{Environment, new_config_from_env}
use message_queue.Storage.{Collection, FieldValue, text_ids, gpu_ids, list_gpus}
use message_queue.Storage.Connect.{Driver, MongoStore}

-- The identifiers that the store finds: those under `uuid`, or where there is none those under
-- `gpu_id`.
abbrev pub ids_or : List Text → List FieldValue → List Text
ids_or [] others = gpu_ids others
ids_or (id ∷ ids) others = id ∷ ids

stored_ids :
    {C V Time Doc : Type 0} (api : Collection C V Time Doc) (c : C) (uuids others : List FieldValue)
    (ids : List Text)
    → api.distinct c (codes "uuid") ≡ some uuids
    → api.distinct c (codes "gpu_id") ≡ some others
    → text_ids uuids ≡ ids
    → list_gpus api c ≡ some (ids_or ids others)
unfolding list_gpus
stored_ids api c uuids others [] h k e = rw (h, list_gpus, e, k)
stored_ids api c uuids others (id ∷ ids) h k e = rw (h, list_gpus, e)

module _ {K C V Time Doc : Type 0} (driver : Driver K C) (api : Collection C V Time Doc)
    (ms : MongoStore K C) (c : C) where
  adapter_ids : StoreAdapter.list_gpus (store_adapter driver api ms c) ≡ list_gpus api c
  unfolding StoreAdapter.list_gpus store_adapter new_store_adapter
  adapter_ids = refl

  module _ (parse_nano parse_rfc3339 : Text → Option Time) (route : Request → Route) where
    -- From a request for the list of GPUs to MongoDB. The request is no preflight request and carries
    -- the token if one is configured, and the driver finds no more than 2 ^ 62 identifiers. The page
    -- and the limit are the request's if these are positive and fit 64 bits, and their defaults if they
    -- are missing or are anything else, so no request is refused for them: `p + 1` and `l`, with `p`,
    -- `l` and `p * l` within an `int`. The process answers 200 with the number of the identifiers and
    -- one page of them, sorted: descending if the request asks for `desc` or `descending`, and else
    -- ascending. They are the texts under `uuid` that are not empty, or where there is none those under
    -- `gpu_id`.
    pub respond-gpus :
        (os : Environment) (r : Request) (uuids others : List FieldValue) (p l : ℕ) (o : SortOrder)
        → route r ≡ gpus
        → text_eq r.method (codes "OPTIONS") ≡ false
        → authorized (new_config_from_env os).auth_token r.authorization ≡ true
        → api.distinct c (codes "uuid") ≡ some uuids
        → api.distinct c (codes "gpu_id") ≡ some others
        → Number (pos 1) (value? r.params (codes "page")) (pos (suc p))
        → Number
            (handler_of driver api os ms c).default_limit
            (value? r.params (codes "limit"))
            (pos l)
        → Sorting (value? r.params (codes "sort")) o
        → p < 2 ^ 63
        → l < 2 ^ 63
        → length (ids_or (text_ids uuids) others) ≤ 2 ^ 62
        → p * l < 2 ^ 63
        → (sorted : List Text) × IsSorted o sorted
          × Perm sorted (ids_or (text_ids uuids) others)
          × (respond driver api parse_nano parse_rfc3339 route os ms c r
              ≡ returns (record {
                allow_origin = allowed_origin r.origin;
                body = gpu_list (
                    json_ok (record {
                      total = pos (length (ids_or (text_ids uuids) others));
                      page = pos (suc p);
                      limit = pos l;
                      items = take l (drop (p * l) sorted);
                    }));
              }))
    unfolding respond handler_of
    respond-gpus os r uuids others p l o at get_like passes h k hp hl ho pf lf short fits =
        let ids = ids_or (text_ids uuids) others in
        let order : parse_sort_order r.params (codes "sort") ascending ≡ o =
          parse_sort_order-Sorting r.params (codes "sort") o (value? r.params (codes "sort")) refl
            ho in
        let (in_order, same_ids) = sort_strings-IsSorted ids o in
        (
          sort_strings ids o,
          in_order,
          same_ids,
          rw order at (
              serve-gpus parse_nano parse_rfc3339 route (new_config_from_env os).auth_token
                (handler_of driver api os ms c) r _ at get_like passes
                (list_gpus-page (as_store (store_adapter driver api ms c))
                  (new_config_from_env os).default_limit r.params ids p l
                  (adapter_ids ∙ stored_ids api c uuids others (text_ids uuids) h k refl)
                  (parse_int-Number r.params (codes "page") (pos 1) (pos (suc p))
                    (value? r.params (codes "page")) refl hp)
                  (parse_int-Number r.params (codes "limit")
                    (handler_of driver api os ms c).default_limit (pos l)
                    (value? r.params (codes "limit")) refl hl)
                  pf lf short fits)),
        )

-- ===== src/Storage.antt =====
-- internal/storage/mongodb.go: MongoStore, over the CollectionAPI of the MongoDB driver.
pub mod Effect
pub mod Gpus
pub mod Connect
use message_queue.Prelude.{
  ℕ, zero, suc, ◌+◌, ◌/◌, ◌%◌, ◌≡◌, Bool, true, false, not, ◌||◌, Option, none, some, List, [], ◌∷◌,
  ◌++◌, if◌then◌else◌, ltb,
}
use message_queue.Prelude.Go.{Go, returns, panics, ◌>>=◌}
use message_queue.Prelude.Int.{ℤ, pos, negsuc, ◌-ℤ◌, ◌*ℤ◌, leb_ℤ, wrap64}
use message_queue.Prelude.Text.{Text, codes, is_empty}
use message_queue.Prelude.Dict.{Dict, get, put}
use message_queue.Metrics.Service.{TelemetryQuery}

-- A field of a document: from JSON, or a time.
pub data Field (V Time : Type 0) : Type 0 where
  json : V → Field V Time
  time : Time → Field V Time

abbrev pub Document : Type 0 → Type 0 → Type 0
Document V Time = Dict (Field V Time)

-- The values of a field that `Distinct` finds.
pub data FieldValue : Type 0 where
  string : Text → FieldValue
  int32 : ℤ → FieldValue
  other : FieldValue

-- The filter of a query: the identifier under `$or`, and the bounds under `timestamp`.
pub record Filter (Time : Type 0) : Type 0 where
  pub gpu : Option Text
  pub gte : Option Time
  pub lte : Option Time

pub record FindOptions : Type 0 where
  pub limit : ℤ
  pub skip : ℤ
  pub sort : ℤ

-- What a cursor answers: documents or failures to decode, and an error at the end.
pub record Cursor (Doc : Type 0) : Type 0 where
  pub documents : List (Option Doc)
  pub fails : Bool

-- The collection at one moment; none is the driver's error. `insert_one` gives the collection after.
pub record Collection (C V Time Doc : Type 0) : Type 0 where
  pub insert_one : C → Document V Time → C × Bool
  pub distinct : C → Text → Option (List FieldValue)
  pub count_documents : C → Filter Time → Option ℤ
  pub find : C → Filter Time → FindOptions → Option (Cursor Doc)

-- What `json.Unmarshal` makes of a payload: an error, the nil map (from null), or a map.
pub data Decoded (V : Type 0) : Type 0 where
  no_object : Decoded V
  null : Decoded V
  object : Dict V → Decoded V

pub of_json : {V Time : Type 0} → Dict V → Document V Time
of_json [] = []
of_json ((name, v) ∷ d) = (name, json v) ∷ of_json d

-- `m[key] = value`, which panics on a nil map.
abbrev pub assign {ℓ} : {A : Type ℓ} → Option (Dict A) → Text → A → Go (Dict A)
assign none key v = panics
assign (some m) key v = returns (put m key v)

unfoldable pub text_ids : List FieldValue → List Text
text_ids [] = []
text_ids (string s ∷ vs) = let more = text_ids vs in if is_empty s then more else s ∷ more
text_ids (int32 n ∷ vs) = text_ids vs
text_ids (other ∷ vs) = text_ids vs

-- `fmt.Sprintf("%d", n)`; each round of the loop takes a digit off.
unfoldable pub digits_loop : ℕ → ℕ → Text → Text
digits_loop zero n s = s
digits_loop (suc fuel) n s =
    let more = digits_loop fuel (n / 10) ((48 + n % 10) ∷ s) in
    if ltb n 10 then (48 + n) ∷ s else more

unfoldable pub decimal : ℤ → Text
decimal (pos n) = digits_loop (suc n) n []
decimal (negsuc n) = 45 ∷ digits_loop (suc (suc n)) (suc n) []

unfoldable pub gpu_ids : List FieldValue → List Text
gpu_ids [] = []
gpu_ids (string s ∷ vs) = let more = gpu_ids vs in if is_empty s then more else s ∷ more
gpu_ids (int32 n ∷ vs) = decimal n ∷ gpu_ids vs
gpu_ids (other ∷ vs) = gpu_ids vs

-- The identifiers, with those from `gpu_id` where there is none from `uuid`.
abbrev pub or_gpu_ids : List Text → Option (List FieldValue) → Option (List Text)
or_gpu_ids (id ∷ ids) gpus = some (id ∷ ids)
or_gpu_ids [] none = none
or_gpu_ids [] (some gpus) = some (gpu_ids gpus)

-- The loop over the cursor.
pub decode_all : {Doc : Type 0} → List (Option Doc) → Option (List Doc)
decode_all [] = some []
decode_all (none ∷ docs) = none
decode_all (some d ∷ docs) = elim (decode_all docs) [ none ↦ none | some ds ↦ some (d ∷ ds) ]

-- A list stands for the slice of what was read; that an empty one is nil there is left out.
abbrev pub read_cursor : {Doc : Type 0} → Cursor Doc → Option (List Doc)
read_cursor c = elim (decode_all c.documents) [
  | none ↦ none
  | some ds ↦ if c.fails then none else some ds
]

abbrev pub query_filter : {Time : Type 0} → TelemetryQuery Time → Filter Time
query_filter q = record {
  gpu = if is_empty q.gpu_id then none else some q.gpu_id;
  gte = q.start_time;
  lte = q.end_time;
}

abbrev pub query_limit : ℤ → ℤ
query_limit limit = if leb_ℤ limit (pos 0) then pos 100 else limit

-- `int64((page - 1) * limit)`, which wraps around.
abbrev pub query_skip : ℤ → ℤ → ℤ
query_skip page limit =
    if leb_ℤ page (pos 1) then pos 0 else wrap64 (wrap64 (page -ℤ pos 1) *ℤ limit)

unfoldable pub find_options : {Time : Type 0} → TelemetryQuery Time → FindOptions
find_options q = record {
  limit = query_limit q.limit;
  skip = query_skip q.page (query_limit q.limit);
  sort = if q.sort_asc then pos 1 else negsuc 0;
}

-- What the clock says at the two points at which storing a message may read it.
pub record Clock (Time : Type 0) : Type 0 where
  pub stamped : Time
  pub created : Time

-- The answer of `StoreMetric` and `StoreMessage`.
pub data StoreError : Type 0 where
  bad_payload insert_failed : StoreError

abbrev after_insert : {C : Type 0} → C × Bool → C × Option StoreError
after_insert (c, true) = (c, none)
after_insert (c, false) = (c, some insert_failed)

module _ {C V Time Doc : Type 0} (api : Collection C V Time Doc) where
  -- `now` is the current time.
  pub store_metric : C → Time → Option (Document V Time) → Go (C × Option StoreError)
  store_metric c now metric = assign metric (codes "created_at") (time now) >>= λ m.
      returns (after_insert (api.insert_one c m))

  -- The clock is read for `timestamp` where the message has none, and then for `created_at`.
  -- `timestamp` is the message's, none where it is the zero time.
  pub store_message : C → Clock Time → Option Time → Decoded V → Go (C × Option StoreError)
  store_message c now timestamp no_object = returns (c, some bad_payload)
  store_message c now none null = panics
  store_message c now (some t) null = panics
  store_message c now none (object o) =
      assign (some (of_json o)) (codes "timestamp") (time now.stamped) >>= λ m.
      store_metric c now.created (some m)
  store_message c now (some t) (object o) =
      assign (some (of_json o)) (codes "timestamp") (time t) >>= λ m.
      store_metric c now.created (some m)

  unfoldable pub list_gpus : C → Option (List Text)
  list_gpus c = elim (api.distinct c (codes "uuid")) [
    | none ↦ none
    | some uuids ↦ or_gpu_ids (text_ids uuids) (api.distinct c (codes "gpu_id"))
  ]

  unfoldable pub query_telemetry : C → TelemetryQuery Time → Option (List Doc × ℤ)
  query_telemetry c q = elim (api.count_documents c (query_filter q)) [
    | none ↦ none
    | some total ↦ elim (api.find c (query_filter q) (find_options q)) [
      | none ↦ none
      | some cursor ↦ elim (read_cursor cursor) [ none ↦ none | some ds ↦ some (ds, total) ]
    ]
  ]

-- ===== src/Storage/Effect.antt =====
-- What the store does for the consumer and for the metrics API.
use message_queue.Prelude.{
  zero, suc, ◌*◌, ◌≡◌, refl, sym, false, Option, none, some, [], ◌∷◌, arith, if◌then◌else◌,
}
use message_queue.Prelude.Go.{Go, returns, panics}
use message_queue.Prelude.Int.{ℤ, pos, negsuc, ◌<ℤ◌, leb_ℤ, wrap64, ◌-ℤ◌, ◌*ℤ◌}
use message_queue.Prelude.Text.{Text, codes, text_eq}
use message_queue.Prelude.Dict.{Dict, get, put, get-put}
use message_queue.Metrics.Pagination.{calculate_offset}
use message_queue.Metrics.Service.{TelemetryQuery}
use message_queue.Storage.{
  Clock, Field, json, time, Document, Collection, object, null, no_object, bad_payload, of_json,
  StoreError, insert_failed, store_metric, store_message, find_options, query_skip, query_limit,
}

abbrev pub json_field : {V Time : Type 0} → Option V → Option (Field V Time)
json_field none = none
json_field (some v) = some (json v)

get-of_json :
    {V Time : Type 0} (o : Dict V) (name : Text)
    → get (of_json {Time = Time} o) name ≡ json_field (get o name)
unfolding of_json get
get-of_json {V} {Time} [] name = refl
get-of_json {V} {Time} ((k, v) ∷ o) name = ground (arith, get-of_json {Time = Time} o name)

-- The fields of the document that is stored for a payload.
abbrev pub stored_field : {V Time : Type 0} → Dict V → Time → Time → Text → Option (Field V Time)
stored_field o at now name =
    if text_eq (codes "created_at") name
    then some (time now)
    else if text_eq (codes "timestamp") name
    then some (time at)
    else json_field (get o name)

-- One document is inserted, with these fields, and the answer is the collection's.
pub record Stores {C V Time Doc : Type 0} (api : Collection C V Time Doc) (c : C) (o : Dict V)
    (at now : Time) (g : Go (C × Option StoreError)) : Type 0 where
  pub document : Document V Time
  pub fields : (name : Text) → get document name ≡ stored_field o at now name
  pub answer :
      g
      ≡ returns (
        (api.insert_one c document).0,
        if (api.insert_one c document).1 then none else some insert_failed,
      )

abbrev pub or_now : {Time : Type 0} → Option Time → Time → Time
or_now none now = now
or_now (some t) now = t

abbrev document_of : {V Time : Type 0} → Dict V → Time → Time → Document V Time
document_of o at now =
    put (put (of_json o) (codes "timestamp") (time at)) (codes "created_at") (time now)

get-document_of :
    {V Time : Type 0} (o : Dict V) (at now : Time) (name : Text)
    → get (document_of o at now) name ≡ stored_field o at now name
get-document_of o at now name = rw (get-put, get-put, get-of_json)

module _ {C V Time Doc : Type 0} (api : Collection C V Time Doc) (c : C) where
  store_document :
      (o : Dict V) (at now : Time)
      → store_metric api c now (some (put (of_json o) (codes "timestamp") (time at)))
        ≡ returns (
          (api.insert_one c (document_of o at now)).0,
          if (api.insert_one c (document_of o at now)).1 then none else some insert_failed,
        )
  unfolding store_metric
  store_document o at now = ground arith

  -- A message whose payload is a JSON object is stored as one document. Its fields are the payload's,
  -- except for `timestamp`, which is the message's time, or what the clock says first where that is
  -- not set, and `created_at`, which is what the clock says then. The answer is an error exactly if the collection fails.
  pub store_message-Stores :
      (now : Clock Time) (timestamp : Option Time) (o : Dict V)
      → Stores api c o
          (or_now timestamp now.stamped)
          now.created
          (store_message api c now timestamp (object o))
  unfolding store_message
  store_message-Stores now none o = record {
    document = document_of o now.stamped now.created;
    fields = get-document_of o now.stamped now.created;
    answer = store_document o now.stamped now.created;
  }
  store_message-Stores now (some t) o = record {
    document = document_of o t now.created;
    fields = get-document_of o t now.created;
    answer = store_document o t now.created;
  }

  pub store_message-no_object :
      (now : Clock Time) (timestamp : Option Time)
      → store_message api c now timestamp no_object ≡ returns (c, some bad_payload)
  unfolding store_message
  store_message-no_object now timestamp = refl

  -- A payload of null makes the store panic, by an assignment to a nil map.
  pub store_message-null :
      (now : Clock Time) (timestamp : Option Time) → store_message api c now timestamp null ≡ panics
  unfolding store_message
  store_message-null now none = refl
  store_message-null now (some t) = refl

skip_later :
    (page limit : ℤ)
    → leb_ℤ page (pos 1) ≡ false
    → leb_ℤ limit (pos 0) ≡ false
    → query_skip page (query_limit limit) ≡ calculate_offset page limit
unfolding calculate_offset
skip_later page limit h k = rw (k, h)

first_offset : (limit : ℤ) → calculate_offset (pos 1) limit ≡ pos 0
unfolding calculate_offset wrap64 ◌-ℤ◌ ◌*ℤ◌
first_offset (pos n) = let e : 0 * n ≡ 0 = omega arith in rw e
first_offset (negsuc n) = let e : 0 * suc n ≡ 0 = omega arith in rw e

skip_eq :
    (page limit : ℤ)
    → pos 0 <ℤ page
    → pos 0 <ℤ limit
    → query_skip page (query_limit limit) ≡ calculate_offset page limit
skip_eq (negsuc p) limit h k = absurd (omega arith)
skip_eq (pos zero) limit h k = absurd (omega arith)
skip_eq (pos (suc zero)) limit h k = sym (first_offset limit)
skip_eq (pos (suc (suc p))) limit h k =
    skip_later (pos (suc (suc p))) limit (ground arith) (ground arith)

-- For positive numbers, which the service lets through only, the store skips what the service's
-- CalculateOffset says, and asks for the limit unchanged.
pub skip-calculate_offset :
    {Time : Type 0} (q : TelemetryQuery Time)
    → pos 0 <ℤ q.page
    → pos 0 <ℤ q.limit
    → ((find_options q).skip ≡ calculate_offset q.page q.limit) × ((find_options q).limit ≡ q.limit)
unfolding find_options
skip-calculate_offset q h k = (skip_eq q.page q.limit h k, ground arith)

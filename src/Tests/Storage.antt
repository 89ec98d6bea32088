-- ===== src/Tests/Storage.antt =====
-- The consumer and the store on concrete messages (cmd/consumer, internal/storage, internal/message).
use message_queue.Prelude.{
  ℕ, ◌+◌, ◌≡◌, refl, true, Option, none, some, [], ◌∷◌, ◌++◌, arith, if◌then◌else◌,
}
use message_queue.Prelude.Go.{Go}
use message_queue.Prelude.Int.{pos}
use message_queue.Prelude.Text.{codes, is_empty}
use message_queue.Protocol.{Bytes, eof, unexpected_eof, read_frame, read_full, no_frame, put_uint32}
use message_queue.Broker.Producing.{frames}
use message_queue.Message.{
  string, TimeFormat, Message, payload_member, marshal_json, unmarshal_json,
}
use message_queue.Message.RoundTrip.{Parses, unmarshal_json-marshal_json}
use message_queue.Storage.{Clock, Collection, int32, object, store_message}
use message_queue.Storage.Effect.{Stores, store_message-Stores}
use message_queue.Consumer.{Received, consume_loop}
use message_queue.Consumer.Storing.{Inserts, stops, consume_loop-frames}

-- A collection that counts its documents; values and times are numbers.
abbrev counting : Collection ℕ ℕ ℕ ℕ
counting = record {
  insert_one = λ c d. (c + 1, true);
  distinct = λ c field. some (int32 (pos 7) ∷ []);
  count_documents = λ c f. some (pos c);
  find = λ c f o. none;
}

store_message-Stores_example : Stores counting 3 ((codes "uuid", 1) ∷ []) 9 10 (
    store_message counting 3
      (record { stamped = 8; created = 10 })
      (some 9)
      (object ((codes "uuid", 1) ∷ [])))
store_message-Stores_example =
    store_message-Stores counting 3 (record { stamped = 8; created = 10 }) (some 9)
      ((codes "uuid", 1) ∷ [])

-- Every body is a message with an empty object.
abbrev parse : Bytes → Option (Received ℕ ℕ)
parse b = some (record { payload = object []; timestamp = none })

-- A clock that goes on.
abbrev clock : ℕ → Clock ℕ
clock i = record { stamped = i + i; created = i + i + 1 }

cut_stream :
    (a : Bytes)
    → (read_frame (record { pending = 0 ∷ []; ending = eof }) a).error ≡ some unexpected_eof
unfolding read_frame read_full no_frame
cut_stream a = refl

consume_loop-frames_example :
    (g : Go ℕ) × Inserts counting parse clock 0 0 ((1 ∷ []) ∷ (2 ∷ []) ∷ []) g
    × (consume_loop counting parse clock 20 0 0
          (record { pending = frames ((1 ∷ []) ∷ (2 ∷ []) ∷ []) ++ (0 ∷ []); ending = eof })
          []
        ≡ stops counting parse clock unexpected_eof g)
unfolding put_uint32
consume_loop-frames_example =
    consume_loop-frames counting parse clock ((1 ∷ []) ∷ (2 ∷ []) ∷ []) (0 ∷ []) eof unexpected_eof
      20 0 0 [] (omega arith, (omega arith, tt)) (omega arith) cut_stream

-- Times are texts that are not empty: a digit for each.
abbrev times : TimeFormat ℕ
times = record {
  zero_time = 0;
  format = λ t. t ∷ [];
  parse = λ s. elim s [ [] ↦ none | t ∷ rest ↦ some t ];
}

abbrev message : Message ℕ ℕ
message = record {
  id = codes "1";
  typ = codes "metric";
  payload = some (string (codes "x"));
  timestamp = 8;
  source = codes "csv-producer";
}

abbrev old_message : Message ℕ ℕ
old_message = record { id = []; typ = []; payload = none; timestamp = 0; source = [] }

times-Parses : Parses times 8
times-Parses = record { parse_format = refl; some_text = refl }

unmarshal_json-marshal_json_example :
    unmarshal_json times old_message (marshal_json times message)
    ≡ some (record message {
      payload = some (payload_member message.payload);
      source = if is_empty message.source then old_message.source else message.source;
    })
unmarshal_json-marshal_json_example =
    unmarshal_json-marshal_json times message old_message times-Parses

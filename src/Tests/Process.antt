-- ===== src/Tests/Process.antt =====
-- The processes, the shutdown and the middleware on concrete calls (cmd, internal/broker,
-- internal/metrics).
use message_queue.Prelude.{
  ℕ, List, ◌+◌, ◌*◌, length, take, drop, ◌≡◌, refl, inl, true, false, Option, none, some, [], ◌∷◌,
  ◌++◌, arith,
}
use message_queue.Prelude.Go.{returns, panics}
use message_queue.Prelude.Int.{pos}
use message_queue.Prelude.Text.{Text, codes, text_eq}
use message_queue.Prelude.Dict.{get}
use message_queue.Prelude.Strings.{to_lower, lower_code, atoi, unsigned, digits_value}
use message_queue.Protocol.{Bytes, Sink, put_uint32}
use message_queue.Broker.Channel.{Chan, make_chan}
use message_queue.Broker.Mode.{broadcast}
use message_queue.Broker.Queue.{MemoryMessageQueue, queue_full, queue_closed, close}
use message_queue.Broker.Queue.Fifo.{IsValid, shut, view}
use message_queue.Broker.Queue.Race.{send, close_only, forget, send_race}
use message_queue.Broker.Registry.{channels}
use message_queue.Broker.Registry.Lifecycle as Lifecycle
use message_queue.Broker.Handlers as Handlers
use message_queue.Broker.Handlers.{
  Broker, deliver, no_more, handle_consumer_queue, left, drain_channel,
}
use message_queue.Broker.Consuming.{after_frames}
use message_queue.Broker.Subscribing.{emptied}
use message_queue.Broker.Shutdown.{close_lem}
use message_queue.Metrics.Auth.{authorized, authorized_iff}
use message_queue.Metrics.Logging.{header, body, logging_middleware, logging_middleware_lem}
use mathlib.Core.List.{Perm}
use message_queue.Metrics.Query.Asked as Asked
use message_queue.Metrics.Query.Asked.{Number, Sorting, desc}
use message_queue.Metrics.Query.{Params, parse_int, value?, parse_time_param, parse_sort_order}
use message_queue.Metrics.Sorter.{ascending, descending, IsSorted}
use message_queue.Metrics.Service.{is_ascending}
use message_queue.Metrics.Handler.Answers.{limit_of}
use message_queue.Metrics.Handler.Path.{telemetry_path}
use message_queue.Metrics.Handler.Telemetry.{given}
use message_queue.Metrics.Handler.{json_ok}
use message_queue.Metrics.Routes.{
  Route, telemetry, gpus, gpu_list, Request, allowed_origin, telemetry_list,
}
use message_queue.Metrics.Process.{handler_of, respond}
use message_queue.Metrics.Process.Telemetry.{found, options, respond-telemetry}
use message_queue.Config.{Environment, new_config_from_env}
use message_queue.Metrics.Process.Gpus.{ids_or, respond-gpus}
use message_queue.Storage.{Collection, FieldValue, string, text_ids}
use message_queue.Storage.Connect.{Driver, MongoStore}

abbrev m1 : Bytes
m1 = b'a' ∷ []

-- An open queue for two messages.
abbrev chan : Chan
chan = make_chan 2

abbrev two : MemoryMessageQueue
two = record { queue = some chan; size = 2 }

two-IsValid : IsValid two
two-IsValid = record { positive = omega arith; chan = (refl, refl, omega arith) }

send_race_example :
    (q' : MemoryMessageQueue) × (close_only two ≡ returns q')
    × (send q' m1 ≡ panics)
    × (close two ≡ returns (forget q'))
    × (send (forget q') m1 ≡ returns (forget q', some queue_full))
send_race_example = send_race two chan m1 two-IsValid refl

-- A broker with one consumer of broadcast mode, for whom a message waits.
abbrev broker : Broker
broker = record {
  mode = broadcast;
  store = λ _. record { buffer = m1 ∷ []; cap = 3; closed = false; waited = false };
  registry = (codes "a", 1) ∷ [];
  messages = two;
}

registry-IsValid : Lifecycle.IsValid broker.store broker.registry
registry-IsValid = record { keys = (tt, tt); distinct = (refl, tt); live = (refl, tt) }

abbrev sink : Sink
sink = record { written = []; room = 100 }

close_lem_example :
    (b' : Broker) × (Handlers.close broker ≡ returns b')
    × (b'.registry ≡ [])
    × (view b'.messages ≡ shut)
    × (deliver channels b' m1 ≡ returns b')
    × (handle_consumer_queue 1 b' sink ≡ no_more queue_closed b' sink)
    × (drain_channel b' (codes "a") 1 sink ≡ left (emptied b' 1) (after_frames sink (m1 ∷ [])))
unfolding put_uint32
close_lem_example =
    close_lem channels broker m1 (codes "a") 1 0 sink sink two-IsValid registry-IsValid refl refl
      (omega arith)

-- A writer that keeps the calls that it gets.
logging_middleware_lem_example :
    logging_middleware {E = ℕ}
      (λ w code. w ++ (code ∷ []))
      (λ w b. (w ++ b, none))
      []
      (header 404 ∷ body (7 ∷ []) ∷ header 200 ∷ [])
    ≡ record { response = 404 ∷ 7 ∷ []; status = 404 }
logging_middleware_lem_example =
    logging_middleware_lem {E = ℕ} (λ w code. w ++ (code ∷ [])) (λ w b. (w ++ b, none)) []
      (header 404 ∷ body (7 ∷ []) ∷ header 200 ∷ [])

abbrev no_variables : Environment
no_variables key = []

abbrev driver : Driver ℕ ℕ
driver = record {
  connect = λ uri. some 1;
  ping = λ client. true;
  collection = λ client db name. 0;
  disconnect = λ client. true;
}

-- A collection that counts its documents and finds the number that is asked for.
abbrev counting : Collection ℕ ℕ ℕ ℕ
counting = record {
  insert_one = λ c d. (c + 1, true);
  distinct = λ c field. none;
  count_documents = λ c f. some (pos c);
  find = λ c f o. some (record { documents = some 1 ∷ []; fails = false });
}

abbrev store : MongoStore ℕ ℕ
store = record { client = 1; collection = 0 }

abbrev second_page : Params
second_page = (codes "page", codes "2" ∷ []) ∷ (codes "limit", codes "1" ∷ []) ∷ []

page_two : parse_int second_page (codes "page") (pos 1) ≡ pos 2
unfolding parse_int value? get text_eq atoi unsigned digits_value
page_two = refl

limit_one : limit_of (handler_of driver counting no_variables store 7) second_page ≡ pos 1
unfolding parse_int value? get text_eq atoi unsigned digits_value
limit_one = refl

abbrev no_times : Text → Option ℕ
no_times s = none

start_absent : parse_time_param no_times no_times second_page (codes "start_time") ≡ given none
unfolding parse_time_param value? get text_eq
start_absent = refl

end_absent : parse_time_param no_times no_times second_page (codes "end_time") ≡ given none
unfolding parse_time_param value? get text_eq
end_absent = refl

abbrev to_telemetry : Request → Route
to_telemetry r = telemetry

abbrev request : Request
request = record {
  method = codes "GET";
  path = telemetry_path (codes "g");
  origin = [];
  authorization = [];
  params = second_page;
}

not_options : text_eq (codes "GET") (codes "OPTIONS") ≡ false
unfolding text_eq
not_options = refl

no_token : authorized (new_config_from_env no_variables).auth_token [] ≡ true
unfolding new_config_from_env
no_token = (authorized_iff [] []).1 (inl refl)

respond-telemetry_example :
    respond driver counting no_times no_times to_telemetry no_variables store 7 request
    ≡ returns (record {
      allow_origin = allowed_origin [];
      body = telemetry_list (
          found counting 7
            (record { gpu = some (codes "g"); gte = none; lte = none })
            (options 1 0 (is_ascending (parse_sort_order second_page (codes "sort") ascending)))
            (pos 2)
            (pos 1));
    })
respond-telemetry_example =
    respond-telemetry driver counting no_times no_times to_telemetry no_variables store 7 request
      (codes "g") none none 1 0 refl not_options no_token refl (refl, tt) refl start_absent
      end_absent page_two limit_one (omega arith) (omega arith)

-- A collection with two identifiers, and a request for the second page of one.
abbrev two_gpus : Collection ℕ ℕ ℕ ℕ
two_gpus = record counting {
  distinct = λ c field. some (string (codes "h") ∷ string (codes "g") ∷ []);
}

abbrev both : List FieldValue
both = string (codes "h") ∷ string (codes "g") ∷ []

abbrev descending_page : Params
descending_page = (codes "sort", codes "DESC" ∷ []) ∷ second_page

asks_page : Number (pos 1) (value? descending_page (codes "page")) (pos 2)
unfolding value? get text_eq atoi unsigned digits_value
asks_page = Asked.given (codes "2") 1 refl

asks_limit :
    Number
      (handler_of driver two_gpus no_variables store 7).default_limit
      (value? descending_page (codes "limit"))
      (pos 1)
unfolding value? get text_eq atoi unsigned digits_value
asks_limit = Asked.given (codes "1") 0 refl

asks_descending : Sorting (value? descending_page (codes "sort")) descending
unfolding value? get text_eq to_lower lower_code
asks_descending = desc (codes "DESC") refl

abbrev to_gpus : Request → Route
to_gpus r = gpus

respond-gpus_example :
    (sorted : List Text) × IsSorted descending sorted
    × Perm sorted (ids_or (text_ids both) both)
    × (respond driver two_gpus no_times no_times to_gpus no_variables store 7
          (record request { params = descending_page })
        ≡ returns (record {
          allow_origin = allowed_origin [];
          body = gpu_list (
              json_ok (record {
                total = pos (length (ids_or (text_ids both) both));
                page = pos 2;
                limit = pos 1;
                items = take 1 (drop (1 * 1) sorted);
              }));
        }))
unfolding text_ids
respond-gpus_example =
    respond-gpus driver two_gpus store 7 no_times no_times to_gpus no_variables
      (record request { params = descending_page }) both both 1 1 descending refl not_options
      no_token refl refl asks_page asks_limit asks_descending (omega arith) (omega arith)
      (omega arith) (omega arith)

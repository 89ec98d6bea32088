-- ===== src/Broker/Registry.antt =====
-- internal/broker/consumer_registry.go: the channels of the consumers in delivery mode `broadcast`.
-- Channels are shared between the registry and the consumers' handlers, so they live in a store and
-- are named by references.
pub mod Broadcast
pub mod Lifecycle
pub mod Race
pub mod Subscribers
use message_queue.Prelude.{
  ℕ, ◌≡◌, Bool, Option, none, some, List, [], ◌∷◌, map, length, ◌==◌, if◌then◌else◌,
}
use message_queue.Prelude.Go.{Go, returns, panics, ◌>>=◌}
use message_queue.Prelude.Dict.{Dict, get, put, delete}
use message_queue.Prelude.Text.{Text}
use message_queue.Protocol.{Bytes}
use message_queue.Broker.Channel.{Chan, offer, close_chan}

abbrev pub Ref : Type 0
Ref = ℕ

abbrev pub Store : Type 0
Store = Ref → Chan

abbrev pub update : Store → Ref → Chan → Store
update s r c = λ x. if x == r then c else s x

-- `map[string]chan []byte`.
abbrev pub Registry : Type 0
Registry = Dict Ref

abbrev pub new_broadcast_registry : Registry
new_broadcast_registry = []

-- `id` is the UUID that the code draws.
unfoldable pub register_consumer : Registry → Text → Ref → Registry
register_consumer reg id ch = put reg id ch

unfoldable pub unregister_consumer : Store → Registry → Text → Go (Store × Registry)
unregister_consumer s reg id = elim (get reg id) [
  | none ↦ returns (s, reg)
  | some ch ↦ close_chan (s ch) >>= λ c. returns (update s ch c, delete reg id)
]

-- "consumer channel full".
pub data RegistryError : Type 0 where
  channel_full : RegistryError

-- The loop of `BroadcastMessage` over the channels that it copied out of the map. A full channel
-- ends it.
unfoldable pub send_all : Store → List Ref → Bytes → Go (Store × Option RegistryError)
send_all s [] msg = returns (s, none)
send_all s (ch ∷ chans) msg = offer (s ch) msg >>= λ sent. elim sent [
  | none ↦ returns (s, some channel_full)
  | some c ↦ send_all (update s ch c) chans msg
]

-- The channels of the map, in the order of the association list.
abbrev pub channels : Registry → List Ref
channels = map (λ e. e.1)

-- `BroadcastMessage`, where nothing else happens between its two phases and `order` is the order in
-- which the map is read.
unfoldable pub broadcast_message :
    (Registry → List Ref) → Store → Registry → Bytes → Go (Store × Option RegistryError)
broadcast_message order s reg msg = send_all s (order reg) msg

pub get_consumer_count : Registry → ℕ
get_consumer_count reg = length reg

-- `Close` closes every channel and empties the map.
pub close_all : Store → Registry → Go (Store × Registry)
close_all s [] = returns (s, [])
close_all s ((id, ch) ∷ reg) = close_chan (s ch) >>= λ c. close_all (update s ch c) reg

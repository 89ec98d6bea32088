-- ===== src/Tests/Config.antt =====
-- Configurations (internal/common, cmd/metrics).
use message_queue.Prelude.{ℕ, ◌≡◌, refl, none, [], if◌then◌else◌}
use message_queue.Prelude.Int.{negsuc}
use message_queue.Prelude.Text.{codes, text_eq}
use message_queue.Prelude.Strings.{atoi, unsigned, digits_value}
use message_queue.Protocol.{Sink}
use message_queue.Broker.Channel.{make_chan}
use message_queue.Broker.Mode.{broadcast}
use message_queue.Broker.Registry.{channels}
use message_queue.Broker.Handlers.{Broker, Env}
use message_queue.Metrics.Service.{Store}
use message_queue.Config.{Environment, get_env_int, channel_buffer_size}

abbrev os : Environment
os key = if text_eq key (codes "CONSUMER_CHANNEL_BUFFER_SIZE") then codes "-1" else []

minus_one : channel_buffer_size os ≡ negsuc 0
unfolding channel_buffer_size get_env_int text_eq atoi unsigned digits_value
minus_one = refl

abbrev env : Env
env = record { order = channels; id = codes "c"; ch = 1; size = channel_buffer_size os; fuel = 5 }

abbrev broker : Broker
broker = record {
  mode = broadcast;
  store = λ _. make_chan 0;
  registry = [];
  messages = record { queue = none; size = 2 };
}

abbrev sink : Sink
sink = record { written = []; room = 9 }

abbrev store : Store ℕ ℕ
store = record { list_gpus = none; query_telemetry = λ q. none }

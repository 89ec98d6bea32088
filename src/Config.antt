-- ===== src/Config.antt =====
-- Configuration from the environment: internal/common/utility.go, and what cmd/metrics/main.go,
-- cmd/message_queue/main.go and the broker read with it.
pub mod Effect
pub mod Stores
use message_queue.Prelude.{Option, none, some, if◌then◌else◌}
use message_queue.Prelude.Int.{ℤ, pos, ltb_ℤ}
use message_queue.Prelude.Text.{Text, codes, is_empty}
use message_queue.Prelude.Strings.{atoi, to_lower}
use message_queue.Broker.Mode.{DeliveryMode, parse_delivery_mode}

-- `os.Getenv`, which is empty for a variable that is not set.
abbrev pub Environment : Type 0
Environment = Text → Text

unfoldable pub get_env : Environment → Text → Text → Text
get_env os key default = if is_empty (os key) then default else os key

abbrev value_or : Option ℤ → ℤ → ℤ
value_or none default = default
value_or (some n) default = n

unfoldable pub get_env_int : Environment → Text → ℤ → ℤ
get_env_int os key default = if is_empty (os key) then default else value_or (atoi (os key)) default

-- The size of a consumer's channel (`handleConsumerBroadcast`).
unfoldable pub channel_buffer_size : Environment → ℤ
channel_buffer_size os = get_env_int os (codes "CONSUMER_CHANNEL_BUFFER_SIZE") (pos 10000)

-- The mode of the broker's process.
pub delivery_mode : Environment → DeliveryMode
delivery_mode os =
    parse_delivery_mode (to_lower (get_env os (codes "DELIVERY_MODE") (codes "broadcast")))

pub record Config : Type 0 where
  pub port : Text
  pub mongo_uri : Text
  pub db_name : Text
  pub collection : Text
  pub auth_token : Text
  pub default_limit : ℤ

abbrev positive_limit : Option ℤ → ℤ
positive_limit none = pos 100
positive_limit (some n) = if ltb_ℤ (pos 0) n then n else pos 100

abbrev pub limit_from : Text → ℤ
limit_from v = if is_empty v then pos 100 else positive_limit (atoi v)

unfoldable pub new_config_from_env : Environment → Config
new_config_from_env os = record {
  port = get_env os (codes "METRICS_PORT") (codes "8080");
  mongo_uri = get_env os (codes "MONGODB_URI") (codes "mongodb://localhost:27017");
  db_name = get_env os (codes "MONGODB_DATABASE") (codes "message_streaming");
  collection = get_env os (codes "MONGO_COLLECTION") (codes "metrics");
  auth_token = os (codes "AUTH_TOKEN");
  default_limit = limit_from (os (codes "DEFAULT_PAGE_SIZE"));
}

-- ===== src/Config/Stores.antt =====
-- The settings of MongoDB that cmd/consumer/main.go and cmd/metrics/main.go read.
use message_queue.Prelude.{◌≡◌, refl, inl, inr, false, Bool-cases}
use message_queue.Prelude.Text.{Text, codes, is_empty}
use message_queue.Config.{Environment, get_env, new_config_from_env}
use message_queue.Storage.Connect.{Driver, new_mongo_store, or_default}
use message_queue.Consumer.Process.{store_from_env}

or_default-get_env :
    (os : Environment) (key default : Text)
    → is_empty default ≡ false
    → or_default (get_env os key default) default ≡ or_default (os key) default
unfolding get_env
or_default-get_env os key default h = elim (Bool-cases (is_empty (os key))) [
  | inl unset ↦ rw (unset, h)
  | inr given ↦ rw (given, given)
]

-- The consumer's process and the process of the metrics API open the same store, whatever the
-- environment: both give the store what is in their three variables, where an empty variable means
-- the default that the store itself has.
store_from_env-new_config_from_env :
    {K C : Type 0} (driver : Driver K C) (os : Environment)
    → (store_from_env driver os
        ≡ new_mongo_store driver
            (os (codes "MONGODB_URI"))
            (os (codes "MONGODB_DATABASE"))
            (os (codes "MONGO_COLLECTION")))
      × (new_mongo_store driver
            (new_config_from_env os).mongo_uri
            (new_config_from_env os).db_name
            (new_config_from_env os).collection
          ≡ store_from_env driver os)
unfolding new_mongo_store new_config_from_env
store_from_env-new_config_from_env driver os = (
  rw (
    or_default-get_env os (codes "MONGODB_URI") (codes "mongodb://localhost:27017") refl,
    or_default-get_env os (codes "MONGODB_DATABASE") (codes "message_streaming") refl,
    or_default-get_env os (codes "MONGO_COLLECTION") (codes "metrics") refl,
  ),
  refl,
)

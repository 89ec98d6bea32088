-- ===== src/Storage/Connect.antt =====
-- `NewMongoStore` and `Close` of internal/storage/mongodb.go.
use message_queue.Prelude.{Bool, Option, none, some, if◌then◌else◌}
use message_queue.Prelude.Text.{Text, codes, is_empty}

-- The driver of MongoDB, with clients `K` and collections `C`: none is an error of `mongo.Connect`,
-- and false one of `Ping` or `Disconnect`.
pub record Driver (K C : Type 0) : Type 0 where
  pub connect : Text → Option K
  pub ping : K → Bool
  pub collection : K → Text → Text → C
  pub disconnect : K → Bool

pub record MongoStore (K C : Type 0) : Type 0 where
  pub client : K
  pub collection : C

pub data ConnectError : Type 0 where
  connect_failed ping_failed : ConnectError

pub data NewStore (K C : Type 0) : Type 0 where
  opened : MongoStore K C → NewStore K C
  not_opened : ConnectError → NewStore K C

abbrev pub or_default : Text → Text → Text
or_default s default = if is_empty s then default else s

module _ {K C : Type 0} (driver : Driver K C) where
  abbrev pub pinged : Text → Text → Option K → NewStore K C
  pinged db_name collection_name none = not_opened connect_failed
  pinged db_name collection_name (some client) =
      if driver.ping client
      then opened (record {
        client = client;
        collection = driver.collection client db_name collection_name;
      })
      else not_opened ping_failed

  unfoldable pub new_mongo_store : Text → Text → Text → NewStore K C
  new_mongo_store mongo_uri db_name collection_name =
      pinged (or_default db_name (codes "message_streaming"))
        (or_default collection_name (codes "metrics"))
        (driver.connect (or_default mongo_uri (codes "mongodb://localhost:27017")))

  pub close : MongoStore K C → Bool
  close ms = driver.disconnect ms.client

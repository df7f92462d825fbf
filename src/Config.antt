-- ===== src/Config.antt =====
-- The configurations of the three programs: src/cmd/api/config, src/cmd/worker/config and
-- src/cmd/id_getter/config. `Field` is what they share, over viper (github.com/spf13/viper); `Read`
-- says what each field is.
pub mod Field
pub mod Read
use allezon.Base.{ℕ, String, Bool, false, List, [], ◌∷◌, Result, ok}
use Field.{
  Viper, Setting, int, bool, text, texts, fields, int_field, bool_field, text_field, texts_field,
}

-- Of src/cmd/api/config/config.go; numbers are bit patterns, the port of an int, the partitions of an
-- int32 and the replication factor of an int16.
pub record ApiConfig : Type 0 where
  pub port : ℕ
  pub echo_mode : Bool
  pub log_level : String
  pub kafka_null_producer : Bool
  pub kafka_addresses : List String
  pub kafka_num_partitions : ℕ
  pub kafka_replication_factor : ℕ
  pub db_profiles_addresses : List String
  pub db_aggregates_addresses : List String
  pub db_null_client : Bool
  pub id_getter_address : String
  pub id_getter_null_client : Bool

-- Of src/cmd/worker/config/config.go
pub record WorkerConfig : Type 0 where
  pub port : ℕ
  pub log_level : String
  pub kafka_addresses : List String
  pub db_aggregates_addresses : List String
  pub id_getter_address : String

-- Of src/cmd/id_getter/config/config.go
pub record IdGetterConfig : Type 0 where
  pub port : ℕ
  pub echo_mode : Bool
  pub log_level : String
  pub db_null_client : Bool
  pub db_addresses : List String

-- The calls of `field` in each `New`, in order
abbrev pub api_fields : List (String × Setting)
api_fields =
    ("port", int 8080)
    ∷ ("echo_mode", bool false)
    ∷ ("log_level", text "info")
    ∷ ("kafka_null_producer", bool false)
    ∷ ("kafka_addresses", texts [])
    ∷ ("kafka_num_partitions", int 1)
    ∷ ("kafka_replication_factor", int 1)
    ∷ ("db_profiles_addresses", texts [])
    ∷ ("db_aggregates_addresses", texts [])
    ∷ ("db_null_client", bool false)
    ∷ ("id_getter_address", text "")
    ∷ ("id_getter_null_client", bool false)
    ∷ []

abbrev pub worker_fields : List (String × Setting)
worker_fields =
    ("port", int 8080)
    ∷ ("log_level", text "debug")
    ∷ ("kafka_addresses", texts [])
    ∷ ("db_aggregates_addresses", texts [])
    ∷ ("id_getter_address", text "")
    ∷ []

abbrev pub id_getter_fields : List (String × Setting)
id_getter_fields =
    ("port", int 8080)
    ∷ ("echo_mode", bool false)
    ∷ ("log_level", text "debug")
    ∷ ("db_null_client", bool false)
    ∷ ("db_addresses", texts [])
    ∷ []

-- `New` of each; the error of `Unmarshal` is dropped, and what it could not decode stays zero.
module _ {V : Type 0} (viper : Viper V) where
  unfoldable pub new_api_config : V → Result ApiConfig
  new_api_config v₀ =
      let v = fields viper api_fields v₀ in
      ok (record {
        port = int_field viper 64 v "port";
        echo_mode = bool_field viper v "echo_mode";
        log_level = text_field viper v "log_level";
        kafka_null_producer = bool_field viper v "kafka_null_producer";
        kafka_addresses = texts_field viper v "kafka_addresses";
        kafka_num_partitions = int_field viper 32 v "kafka_num_partitions";
        kafka_replication_factor = int_field viper 16 v "kafka_replication_factor";
        db_profiles_addresses = texts_field viper v "db_profiles_addresses";
        db_aggregates_addresses = texts_field viper v "db_aggregates_addresses";
        db_null_client = bool_field viper v "db_null_client";
        id_getter_address = text_field viper v "id_getter_address";
        id_getter_null_client = bool_field viper v "id_getter_null_client";
      })

  unfoldable pub new_worker_config : V → Result WorkerConfig
  new_worker_config v₀ =
      let v = fields viper worker_fields v₀ in
      ok (record {
        port = int_field viper 64 v "port";
        log_level = text_field viper v "log_level";
        kafka_addresses = texts_field viper v "kafka_addresses";
        db_aggregates_addresses = texts_field viper v "db_aggregates_addresses";
        id_getter_address = text_field viper v "id_getter_address";
      })

  unfoldable pub new_id_getter_config : V → Result IdGetterConfig
  new_id_getter_config v₀ =
      let v = fields viper id_getter_fields v₀ in
      ok (record {
        port = int_field viper 64 v "port";
        echo_mode = bool_field viper v "echo_mode";
        log_level = text_field viper v "log_level";
        db_null_client = bool_field viper v "db_null_client";
        db_addresses = texts_field viper v "db_addresses";
      })

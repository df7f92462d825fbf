-- ===== src/Programs/Api.antt =====
-- src/cmd/api/main.go, with `New` and `Run` of src/cmd/api/server/server.go.
use allezon.Base.{ℕ, String, Bool, List, Result, if◌then◌else◌}
use allezon.Base.Exec.{Exec, ◌>>=◌, ◌>>◌, return, lift}
use allezon.Types.{UserTag}
use allezon.Db.{Client}
use allezon.IdClient
use allezon.IdClient.{ClientState, on_remote, new_client, null_client}
use allezon.Messaging.{null_send}
use allezon.Messaging.Topic.{initialize}
use allezon.Api.{Server}
use allezon.Config.{ApiConfig, new_api_config}
use allezon.Config.Field.{Viper}
use allezon.Programs.{Outside, or_fatal, new_logger, new_db_client, new_producer, null_db_client}

-- The clients beside the client of the id service, whose cache is a part of the state
abbrev pub beside_ids : {S : Type 0} → Client S → Client (ClientState S)
beside_ids db = record {
  user_profiles = record {
    get = λ cookie. on_remote (db.user_profiles.get cookie);
    add = λ tag. on_remote (db.user_profiles.add tag);
    remove_over_limit =
        λ cookie action limit. on_remote (db.user_profiles.remove_over_limit cookie action limit);
  };
  aggregates = on_remote db.aggregates >>= λ client. return (record {
    get = λ t action. on_remote (client.get t action);
    add = λ key tag. on_remote (client.add key tag);
  });
}

module _ {S H V : Type 0} (outside : Outside S H) (viper : Viper V) where
  unfoldable pub producer : ApiConfig → Exec S (UserTag → Exec S (Unit {0}))
  producer conf =
      if conf.kafka_null_producer
      then return null_send
      else or_fatal (new_producer outside conf.kafka_addresses)

  unfoldable pub db_client : Bool → List String → Exec S (Client S)
  db_client null addresses =
      if null then return null_db_client else or_fatal (new_db_client outside addresses)

  unfoldable pub id_getter : ApiConfig → IdClient.Client (ClientState S)
  id_getter conf =
      if conf.id_getter_null_client
      then null_client
      else IdClient.client (outside.transport conf.id_getter_address)

  -- `server.New` with its dependencies
  abbrev pub new_server :
      ApiConfig → (UserTag → Exec S (Unit {0})) → Client S → Client S → Server (ClientState S)
  new_server conf send profiles_db aggregates_db = record {
    time_text = outside.time_text;
    send = λ tag. on_remote (send tag);
    profiles_db = beside_ids profiles_db;
    aggregates_db = beside_ids aggregates_db;
    id_getter = id_getter conf;
  }

  unfoldable pub prepare : ApiConfig → Exec S (Unit {0})
  prepare conf =
      or_fatal (new_logger outside conf.log_level)
      >> or_fatal (
          initialize (outside.cluster_admin conf.kafka_addresses) (record {
            num_partitions = conf.kafka_num_partitions;
            replication_factor = conf.kafka_replication_factor;
          }))

  -- Up to `server.New`
  unfoldable pub start : ApiConfig → Exec S (Server (ClientState S))
  start conf = do
    prepare conf
    send ← producer conf
    profiles_db ← db_client conf.db_null_client conf.db_profiles_addresses
    aggregates_db ← db_client conf.db_null_client conf.db_aggregates_addresses
    return (new_server conf send profiles_db aggregates_db)

  -- `engine` is `Run` of gin's engine with the routes of the server, on a port.
  module _ (engine : Server (ClientState S) → ℕ → Exec (ClientState S) (Unit {0})) where
    abbrev pub serve : ApiConfig → Server (ClientState S) → S → Result (Unit {0}) × S
    serve conf server s =
        let served =
          or_fatal (engine server conf.port)
            (new_client (outside.transport conf.id_getter_address) s) in
        (served.0, served.1.remote)

    unfoldable pub main : V → Exec S (Unit {0})
    main v = do
      conf ← or_fatal (lift (new_api_config viper v))
      server ← start conf
      serve conf server

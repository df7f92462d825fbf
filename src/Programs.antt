-- ===== src/Programs.antt =====
-- The entry points: main.go of src/cmd/api, src/cmd/worker and src/cmd/id_getter, and the constructors
-- of clients that they call. What the libraries open is a parameter (`Outside`).
pub mod Api
pub mod Worker
pub mod IdGetter
pub mod Starting
pub mod Running
use allezon.Base.{ℕ, String, Bool, List, Error, Result, ok, err, panic, wrapped, wrap}
use allezon.Base.Exec.{Exec, ◌>>=◌, return, lift, catch, wrapping}
use allezon.Types.{UserTag}
use allezon.Types.Marshal.{Protobuf}
use allezon.Db.{Client}
use allezon.Db.Aerospike.{Database}
use allezon.Db.Aggregates.Client.{aggregates}
use allezon.Db.Null.{null_user_profile_client, null_aggregates_client}
use allezon.Db.Profiles.Client.{user_profiles}
use allezon.Dto.{TimeText}
use allezon.IdClient.{Transport}
use allezon.Messaging.{send}
use allezon.Messaging.Topic.{ClusterAdmin}

abbrev pub user_tags_consumer_group : String
user_tags_consumer_group = "user-tags-consumer-group"

-- `sarama.OffsetOldest` of the configuration that `NewConsumer` makes
pub data InitialOffset : Type 0 where
  offset_newest offset_oldest : InitialOffset

-- A consumer group: a session of `Consume` on a topic, and whether its context is cancelled
pub record ConsumerGroup (S : Type 0) : Type 0 where
  pub session : String → Exec S (Unit {0})
  pub cancelled : S → Bool

-- What the libraries open: `S` is the world behind them, `H` a host of the database.
pub record Outside (S H : Type 0) : Type 1 where
  pub time_text : TimeText
  pub protobuf : Protobuf
  -- `zapcore.ParseLevel`
  pub parse_level : String → Result (Unit {0})
  -- `sarama.NewClusterAdmin` and its methods, `sarama.NewSyncProducer` with `SendMessage`, and
  -- `sarama.NewConsumerGroup`
  pub cluster_admin : List String → ClusterAdmin S
  pub new_sync_producer : List String → Exec S (String → List ℕ → Exec S (Unit {0}))
  pub new_consumer_group : List String → String → InitialOffset → Exec S (ConsumerGroup S)
  -- `as.NewHosts`, `as.NewClientWithPolicyAndHost` without a policy
  pub new_hosts : List String → Result (List H)
  pub new_client_with_hosts : List H → Exec S (Database S)
  -- an `http.Client` with a timeout, on an address
  pub transport : String → Transport S

-- `if err != nil { logger.Fatal(…) }` or `panic(…)`: the process ends.
abbrev pub or_fatal : {S A : Type 0} → Exec S A → Exec S A
or_fatal m = catch m (λ e. lift panic)

module _ {S H : Type 0} (outside : Outside S H) where
  -- src/pkg/logutils/logutils.go
  unfoldable pub new_logger : String → Exec S (Unit {0})
  new_logger log_level = lift (wrap (outside.parse_level log_level))

  -- src/pkg/db/db.go: `NewClientFromAddresses` with `NewClient`, and the methods of its client
  unfoldable pub new_db_client : List String → Exec S (Client S)
  new_db_client addresses = do
    hosts ← lift (wrap (outside.new_hosts addresses))
    database ← outside.new_client_with_hosts hosts
    return (record {
      user_profiles = user_profiles outside.protobuf database;
      aggregates = aggregates database;
    })

  -- src/pkg/messaging: `NewProducer`, whose `Send` is returned, and `NewConsumer`
  unfoldable pub new_producer : List String → Exec S (UserTag → Exec S (Unit {0}))
  new_producer addresses = do
    send_message ← wrapping (outside.new_sync_producer addresses)
    return (send outside.protobuf send_message)

  unfoldable pub new_consumer : List String → Exec S (ConsumerGroup S)
  new_consumer addresses =
      wrapping (outside.new_consumer_group addresses user_tags_consumer_group offset_oldest)

-- src/pkg/db/null.go: `NewNullClient`
unfoldable pub null_db_client : {S : Type 0} → Client S
null_db_client = record {
  user_profiles = null_user_profile_client;
  aggregates = return null_aggregates_client;
}

-- ===== src/Programs/Worker.antt =====
-- src/cmd/worker/main.go, with `New` and `Run` of src/cmd/worker/worker/worker.go.
use allezon.Base.{ℕ, Bool, true, false, List, [], ◌∷◌, Option}
use allezon.Base.Exec.{Exec, ◌>>=◌, ◌>>◌, return, lift}
use allezon.Http.{Route, get}
use allezon.Db.{Client, AggregatesClient}
use allezon.IdClient
use allezon.IdClient.{ClientState, on_remote, new_client}
use allezon.Messaging.{user_tags_topic}
use allezon.Worker.{run}
use allezon.Config.{WorkerConfig, new_worker_config}
use allezon.Config.Field.{Viper}
use allezon.Programs.{ConsumerGroup, Outside, or_fatal, new_logger, new_db_client, new_consumer}

-- The routes of `New` of src/cmd/worker/server/server.go: only `health`
abbrev pub health_routes : List (Route (Unit {0}))
health_routes = record { method = get; path = "/health"; handler = tt } ∷ []

-- `worker.Dependencies`; the client of the id service has its state beside the others'.
pub record Worker (S : Type 0) : Type 0 where
  pub consumer : ConsumerGroup S
  pub aggregates_db : Client S
  pub id_getter : IdClient.Client (ClientState S)

module _ {S H V : Type 0} (outside : Outside S H) (viper : Viper V) where
  unfoldable pub start : WorkerConfig → Exec S (Worker S)
  start conf = do
    or_fatal (new_logger outside conf.log_level)
    consumer ← or_fatal (new_consumer outside conf.kafka_addresses)
    aggregates_db ← or_fatal (new_db_client outside conf.db_aggregates_addresses)
    return (record {
      consumer = consumer;
      aggregates_db = aggregates_db;
      id_getter = IdClient.client (outside.transport conf.id_getter_address);
    })

  -- The goroutine of the worker, with at most `sessions` sessions; the processors' part is in
  -- `allezon.Worker`.
  unfoldable pub run_worker :
      ℕ → ℕ → Worker S → Exec S (List (AggregatesClient S) × Option (Unit {0}))
  run_worker num_processors sessions w = or_fatal (
      run w.aggregates_db.aggregates num_processors (w.consumer.session user_tags_topic)
        w.consumer.cancelled sessions)

  -- `engine` is the `Run` of the health server. The goroutines end in either order.
  module _ (engine : ℕ → Exec S (Unit {0})) where
    unfoldable pub run_both :
        Bool → ℕ → ℕ → ℕ → Worker S → Exec S (List (AggregatesClient S) × Option (Unit {0}))
    unfolding run_worker
    run_both true num_processors sessions port w =
        run_worker num_processors sessions w >>= λ ran. (or_fatal (engine port) >> return ran)
    run_both false num_processors sessions port w =
        or_fatal (engine port) >> run_worker num_processors sessions w

    unfoldable pub main : Bool → ℕ → ℕ → V → Exec S (List (AggregatesClient S) × Option (Unit {0}))
    main worker_first num_processors sessions v = do
      conf ← or_fatal (lift (new_worker_config viper v))
      w ← start conf
      run_both worker_first num_processors sessions conf.port w

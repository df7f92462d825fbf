-- ===== src/Container/Services.antt =====
-- The services of src/pkg/container/containerutils, and their ports.
use Prim.Native.String.{◌++◌ as ◌<>◌}
use allezon.Base.{String, none, some, List, [], ◌∷◌}
use allezon.Container.{RunOptions, Service, OnServiceCreated}
use allezon.Container.Waiting.{
  docker_repo, aerospike_port, aerospike_docker_port, id_getter_port, id_getter_docker_port,
  api_port, api_docker_port, worker_port, worker_docker_port, redpanda_port, redpanda_docker_port,
  redpanda_host_port, redpanda_docker_host_port, Tools, wait_for_service, wait_for_aerospike,
  wait_for_redpanda,
}

module _ {S : Type 0} (tools : Tools S) where
  abbrev plain_options : RunOptions
  plain_options = record {
    name = "";
    repository = "";
    tag = "latest";
    hostname = "";
    env = [];
    cmd = [];
    mounts = [];
    exposed_ports = [];
    port_bindings = [];
    networks = [];
  }

  unfoldable pub id_getter_service : Service (OnServiceCreated S)
  unfolding wait_for_service
  id_getter_service = record {
    name = "idgetter";
    options = record plain_options {
      repository = docker_repo <> "/idgetter";
      hostname = "idgetter";
      exposed_ports = id_getter_docker_port ∷ [];
      env =
          ("PORT=" <> id_getter_port)
          ∷ ("DB_ADDRESSES=aerospike:" <> aerospike_port)
          ∷ "LOG_LEVEL=DEBUG"
          ∷ [];
    };
    on_services_created = some (wait_for_service tools);
    resource = none;
  }

  -- The environment of the API and of the worker, but for the port
  abbrev service_env : List String
  service_env =
      ("KAFKA_ADDRESSES=redpanda:" <> redpanda_port)
      ∷ ("DB_PROFILES_ADDRESSES=aerospike:" <> aerospike_port)
      ∷ ("DB_AGGREGATES_ADDRESSES=aerospike:" <> aerospike_port)
      ∷ ("ID_GETTER_ADDRESS=idgetter:" <> id_getter_port)
      ∷ "LOG_LEVEL=DEBUG"
      ∷ []

  unfoldable pub api_service : Service (OnServiceCreated S)
  unfolding wait_for_service
  api_service = record {
    name = "api";
    options = record plain_options {
      repository = docker_repo <> "/api";
      hostname = "api";
      exposed_ports = api_docker_port ∷ [];
      env = ("PORT=" <> api_port) ∷ service_env;
    };
    on_services_created = some (wait_for_service tools);
    resource = none;
  }

  unfoldable pub worker_service : Service (OnServiceCreated S)
  unfolding wait_for_service
  worker_service = record {
    name = "worker";
    options = record plain_options {
      repository = docker_repo <> "/worker";
      hostname = "worker";
      exposed_ports = worker_docker_port ∷ [];
      env = ("PORT=" <> worker_port) ∷ service_env;
    };
    on_services_created = some (wait_for_service tools);
    resource = none;
  }

  -- `conf_dir` is what `pathToConfDir` has returned.
  unfoldable pub aerospike_service : String → Service (OnServiceCreated S)
  unfolding wait_for_aerospike
  aerospike_service conf_dir = record {
    name = "aerospike";
    options = record plain_options {
      repository = "aerospike/aerospike-server";
      tag = "5.5.0.7";
      hostname = "aerospike";
      mounts = (conf_dir <> ":/assets") ∷ [];
      exposed_ports = aerospike_docker_port ∷ [];
      cmd = "--config-file" ∷ "/assets/aerospike.conf" ∷ [];
    };
    on_services_created = some (wait_for_aerospike tools);
    resource = none;
  }

  unfoldable pub redpanda_service : Service (OnServiceCreated S)
  unfolding wait_for_redpanda
  redpanda_service = record {
    name = "redpanda";
    options = record plain_options {
      repository = "vectorized/redpanda";
      hostname = "redpanda";
      port_bindings =
          (redpanda_docker_port, ("localhost", redpanda_port))
          ∷ (redpanda_docker_host_port, ("localhost", redpanda_host_port))
          ∷ [];
      cmd =
          "redpanda"
          ∷ "start"
          ∷ "--kafka-addr"
          ∷ ("PLAINTEXT://0.0.0.0:"
              <> (redpanda_port <> (",OUTSIDE://0.0.0.0:" <> redpanda_host_port)))
          ∷ "--advertise-kafka-addr"
          ∷ ("PLAINTEXT://redpanda:"
              <> (redpanda_port <> (",OUTSIDE://localhost:" <> redpanda_host_port)))
          ∷ [];
    };
    on_services_created = some (wait_for_redpanda tools);
    resource = none;
  }

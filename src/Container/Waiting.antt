-- ===== src/Container/Waiting.antt =====
-- What src/pkg/container/containerutils waits for, its ports and its builds. HTTP, the clients of
-- Aerospike and Kafka, `make` and `Pool.Retry` are parameters (`Tools`).
use Prim.Native.String.{◌++◌ as ◌<>◌, count}
use allezon.Base.{
  ℕ, zero, suc, ◌+◌, String, Bool, true, false, ◌&&◌, Option, none, some, List, [], ◌∷◌, Result, ok,
  err, failed, str_eq, if◌then◌else◌,
}
use allezon.Base.Exec.{Exec, ◌>>=◌, ◌>>◌, return, lift, throw, wrapping}
use allezon.Messaging.Topic.{closing}
use allezon.Container.{OnServiceCreated, exposed_host_port}

abbrev pub docker_repo : String
docker_repo = "registry.gitlab.com/allezon/registry"

abbrev pub aerospike_port : String
aerospike_port = "3000"

abbrev pub aerospike_docker_port : String
aerospike_docker_port = "3000/tcp"

abbrev pub id_getter_port : String
id_getter_port = "8080"

abbrev pub id_getter_docker_port : String
id_getter_docker_port = id_getter_port <> "/tcp"

abbrev pub api_port : String
api_port = "8080"

abbrev pub api_docker_port : String
api_docker_port = api_port <> "/tcp"

abbrev pub worker_port : String
worker_port = "8082"

abbrev pub worker_docker_port : String
worker_docker_port = worker_port <> "/tcp"

abbrev pub redpanda_port : String
redpanda_port = "29092"

abbrev pub redpanda_docker_port : String
redpanda_docker_port = redpanda_port <> "/tcp"

abbrev pub redpanda_host_port : String
redpanda_host_port = "9092"

abbrev pub redpanda_docker_host_port : String
redpanda_docker_host_port = redpanda_host_port <> "/tcp"

-- `net.JoinHostPort`
abbrev pub redpanda_addr : String
redpanda_addr = "localhost:" <> redpanda_host_port

-- `prefix`: whether a text begins with another
abbrev pub has_prefix : String → String → Bool
has_prefix s String.[] = true
has_prefix String.[] (String.◌∷◌ c t) = false
has_prefix (String.◌∷◌ d s) (String.◌∷◌ c t) =
    let rest = has_prefix s t in str_eq (String.◌∷◌ d String.[]) (String.◌∷◌ c String.[]) && rest

abbrev pub index_here : Option ℕ → Bool → Option ℕ
index_here (some i) here = some (suc i)
index_here none true = some 0
index_here none false = none

-- `strings.LastIndex`, in characters; `none` for -1
abbrev pub last_index : String → String → Option ℕ
last_index String.[] sub = index_here none (has_prefix String.[] sub)
last_index (String.◌∷◌ c s) sub = index_here (last_index s sub) (has_prefix (String.◌∷◌ c s) sub)

-- `s[:n]`, in characters
abbrev pub first_chars : ℕ → String → String
first_chars zero s = ""
first_chars (suc n) String.[] = ""
first_chars (suc n) (String.◌∷◌ c s) = String.◌∷◌ c (first_chars n s)

abbrev pub project_name : String
project_name = "Allezon"

abbrev pub path_at : String → Option ℕ → Result String
path_at wd none = err failed
path_at wd (some i) = ok (first_chars (i + count project_name) wd)

-- What the package calls; `http_get` returns the status of a response, and `make` is given the
-- target and the directory.
pub record Tools (S : Type 0) : Type 0 where
  pub getwd : Exec S String
  pub make : String → String → Exec S (Unit {0})
  pub http_get : String → Exec S ℕ
  pub retry : Exec S (Unit {0}) → Exec S (Unit {0})
  pub new_hosts : String → Exec S (List String)
  pub new_aerospike_client : List String → Exec S (Unit {0})
  pub new_kafka_client : List String → Exec S (Unit {0})
  pub refresh_metadata : Exec S (Unit {0})
  pub close_kafka_client : Exec S (Unit {0})

module _ {S : Type 0} (tools : Tools S) where
  unfoldable pub find_project_path : Exec S String
  find_project_path = wrapping tools.getwd >>= λ wd. lift (path_at wd (last_index wd project_name))

  unfoldable pub run_make_target : String → Exec S (Unit {0})
  unfolding find_project_path
  run_make_target target = wrapping find_project_path >>= λ dir. wrapping (tools.make target dir)

  unfoldable pub build_api_image : Exec S (Unit {0})
  unfolding run_make_target
  build_api_image = run_make_target "docker-build-api"

  unfoldable pub build_worker_image : Exec S (Unit {0})
  unfolding run_make_target
  build_worker_image = run_make_target "docker-build-worker"

  unfoldable pub build_id_getter_image : Exec S (Unit {0})
  unfolding run_make_target
  build_id_getter_image = run_make_target "docker-build-idgetter"

  -- The status of the response is not read.
  abbrev pub get_health : String → Exec S (Unit {0})
  get_health url = wrapping (tools.http_get url) >> return tt

  abbrev pub wait_at : String → Exec S (Unit {0})
  wait_at hostport =
      if str_eq hostport ""
      then throw failed
      else wrapping (tools.retry (get_health ("http://" <> (hostport <> "/health"))))

  unfoldable pub wait_for_service : OnServiceCreated S
  wait_for_service service = lift (exposed_host_port service) >>= wait_at

  unfoldable pub aerospike_ready : String → Exec S (Unit {0})
  aerospike_ready address =
      wrapping (tools.new_hosts address) >>= λ hosts. wrapping (tools.new_aerospike_client hosts)

  abbrev pub wait_for_address : String → Exec S (Unit {0})
  wait_for_address address =
      if str_eq address "" then throw failed else wrapping (tools.retry (aerospike_ready address))

  unfoldable pub wait_for_aerospike : OnServiceCreated S
  unfolding aerospike_ready
  wait_for_aerospike service = lift (exposed_host_port service) >>= wait_for_address

  unfoldable pub redpanda_hearth_check : String → Exec S (Unit {0})
  redpanda_hearth_check address =
      wrapping (tools.new_kafka_client (address ∷ []))
      >> closing tools.close_kafka_client (wrapping tools.refresh_metadata)

  unfoldable pub wait_for_redpanda : OnServiceCreated S
  unfolding redpanda_hearth_check
  wait_for_redpanda service = wrapping (tools.retry (redpanda_hearth_check redpanda_addr))

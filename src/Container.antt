-- ===== src/Container.antt =====
-- src/pkg/container: environments of Docker containers for the integration tests. Docker, the random numbers and
-- `backoff.Retry` are parameters (`Docker`); a function of an environment is one of the environment and of the
-- state `S` of what is outside.
pub mod Running
pub mod Closing
pub mod Invariant
pub mod Tracked
pub mod Started
pub mod Torn
pub mod Waiting
pub mod Services
use Prim.Native.Char.{Char}
use Prim.Native.String.{count}
use allezon.Base.{
  ℕ, zero, suc, ◌*◌, String, Bool, true, false, Option, none, some, List, [], ◌∷◌, ◌++◌, Error,
  Result, ok, err, panic, failed, str_eq, if◌then◌else◌,
}
use allezon.Base.Exec.{Exec, ◌>>=◌, ◌>>◌, return, lift, throw, catch, wrapping}
use allezon.Time.{seconds}
use Prim.Native.String.{◌++◌ as ◌<>◌}

pub record Config : Type 0 where
  pub service_start_max_time : ℕ
  pub service_start_max_interval : ℕ
  pub service_name_random_suffix : Bool
  pub service_name_random_suffix_length : ℕ

unfoldable pub new_config : Config
new_config = record {
  service_start_max_time = 80 * seconds;
  service_start_max_interval = 1 * seconds;
  service_name_random_suffix = true;
  service_name_random_suffix_length = 8;
}

-- `dockertest.RunOptions`, the fields that are set; a network is its id, a binding a port with the
-- host and the port that it is bound to.
pub record RunOptions : Type 0 where
  pub name : String
  pub repository : String
  pub tag : String
  pub hostname : String
  pub env : List String
  pub cmd : List String
  pub mounts : List String
  pub exposed_ports : List String
  pub port_bindings : List (String × (String × String))
  pub networks : List String

-- `dockertest.Resource`
pub record Resource : Type 0 where
  pub id : String
  pub get_host_port : String → String

-- `F` is the type of the callback.
pub record Service (F : Type 0) : Type 0 where
  pub name : String
  pub options : RunOptions
  pub on_services_created : Option F
  pub resource : Option Resource

abbrev pub host_port : List String → Option Resource → Result String
host_port [] resource = ok ""
host_port (port ∷ ports) (some r) = ok (r.get_host_port port)
host_port (port ∷ ports) none = panic

unfoldable pub exposed_host_port : {F : Type 0} → Service F → Result String
exposed_host_port service = host_port service.options.exposed_ports service.resource

-- A callback is called with the service as it is then, and uses no other part of the environment
-- than its pool and its logger.
abbrev pub OnServiceCreated : Type 0 → Type 0
OnServiceCreated S = Service (Unit {0}) → Exec S (Unit {0})

pub record Environment (S : Type 0) : Type 0 where
  pub name : String
  pub config : Config
  pub services : List (Service (OnServiceCreated S))
  pub resources : List (Option Resource)
  pub network : Option String

abbrev pub config_or_new : Option Config → Config
config_or_new none = new_config
config_or_new (some config) = config

unfoldable pub new_environment :
    {S : Type 0} → String → List (Service (OnServiceCreated S)) → Option Config → Environment S
unfolding new_config
new_environment name services config = record {
  name = name;
  config = config_or_new config;
  services = services;
  resources = [];
  network = none;
}

unfoldable pub get_service : {F : Type 0} → List (Service F) → String → Option (Service F)
get_service [] name = none
get_service (service ∷ services) name =
    if str_eq service.name name then some service else get_service services name

-- What the package calls: dockertest and its client, `zap.NewDevelopment`, `rand.Intn` and
-- `backoff.Retry` with the times of a configuration.
pub record Docker (S : Type 0) : Type 0 where
  pub new_logger : Exec S (Unit {0})
  pub new_pool : Exec S (Unit {0})
  pub ping : Exec S (Unit {0})
  pub create_network : String → Exec S String
  pub remove_container_by_name : String → Exec S (Unit {0})
  pub run_with_options : RunOptions → Exec S Resource
  pub logs : String → Exec S (String × String)
  pub close_resource : Resource → Exec S (Unit {0})
  pub close_network : String → Exec S (Unit {0})
  pub intn : ℕ → Exec S ℕ
  pub retry : Config → Exec S Resource → Exec S Resource

abbrev pub letter_runes : String
letter_runes = "abcdefghijklmnopqrstuvwxyzABCDEFGHIJKLMNOPQRSTUVWXYZ"

-- `letterRunes[i]`
abbrev pub rune_at : String → ℕ → Result Char
rune_at String.[] i = panic
rune_at (String.◌∷◌ c s) zero = ok c
rune_at (String.◌∷◌ c s) (suc i) = rune_at s i

-- `strings.Replace(s, "/", "-", -1)`
abbrev pub with_dashes : String → String
with_dashes String.[] = ""
with_dashes (String.◌∷◌ c s) =
    String.◌∷◌ (if str_eq (String.◌∷◌ c String.[]) "/" then "-" else c) (with_dashes s)

module _ {S : Type 0} (docker : Docker S) where
  unfoldable pub rand_string : ℕ → Exec S String
  rand_string zero = return ""
  rand_string (suc n) = do
    i ← docker.intn (count letter_runes)
    c ← lift (rune_at letter_runes i)
    rest ← rand_string n
    return (String.◌∷◌ c rest)

  unfoldable pub suffix : Config → Exec S String
  unfolding rand_string
  suffix config =
      if config.service_name_random_suffix
      then (rand_string config.service_name_random_suffix_length >>= λ r. return ("-" <> r))
      else return ""

  unfoldable pub docker_string : Environment S → String → Exec S String
  unfolding suffix
  docker_string env name =
      suffix env.config >>= λ s. return (with_dashes env.name <> ("-" <> (name <> s)))

-- ===== src/Tests/Configured.antt =====
-- A registry of settings with an environment, and the API service started by it.
use allezon.Base.{
  ℕ, ◌*◌, ◌^◌, ◌<◌, ltb, arith, ◌≡◌, ◌↔◌, refl, String, Bool, true, false, ◌||◌, Option, none, some,
  List, [], ◌∷◌, ok, err, failed, str_eq, if◌then◌else◌,
}
use allezon.Base.Exec.{Exec, return, throw}
use allezon.Config.{ApiConfig, new_api_config}
use allezon.Config.Field.{Viper, Setting, int, bool, text, texts, field, fields}
use allezon.Config.Read.{ViperLaws, api_configured}
use allezon.Api.{Server}
use allezon.IdClient.{ClientState, new_client}
use allezon.Messaging.Topic.{initialize}
use allezon.Programs.{Outside, new_logger}
use allezon.Programs.Api.{main, start, prepare, producer, db_client}
use allezon.Programs.Starting.{Started}
use allezon.Programs.Running.{main_iff}
use allezon.Tests.Data.{text as time_text}
use allezon.Tests.Wire.{wire}
use allezon.Tests.Piped.{admin}

-- The keys that are bound, and the defaults, the last first
record Registry : Type 0 where
  names : List String
  defaults : List (String × Setting)

abbrev is_in : List String → String → Bool
is_in [] n = false
is_in (m ∷ names) n = str_eq m n || is_in names n

abbrev default_at : List (String × Setting) → String → Option Setting
default_at [] n = none
default_at ((m, d) ∷ defaults) n = if str_eq m n then some d else default_at defaults n

-- The port cannot be read.
abbrev environment : String → Option String
environment n =
    if str_eq n "port"
    then some "x"
    else if str_eq n "log_level"
    then some ""
    else if str_eq n "kafka_null_producer"
    then some "true"
    else if str_eq n "db_null_client"
    then some "true"
    else if str_eq n "id_getter_null_client"
    then some "true"
    else none

abbrev or_default : Option String → Option Setting → Option Setting
or_default none d = d
or_default (some e) d = if str_eq e "" then d else some (text e)

abbrev read_int : ℕ → Setting → Option ℕ
read_int bits (int n) = if ltb (2 * n) (2 ^ bits) then some n else none
read_int bits _ = none

abbrev read_bool : Setting → Option Bool
read_bool (bool b) = some b
read_bool (text t) = some (str_eq t "true")
read_bool _ = none

abbrev read_text : Setting → Option String
read_text (text t) = some t
read_text _ = none

abbrev read_texts : Setting → Option (List String)
read_texts (texts ts) = some ts
read_texts (text t) = some (t ∷ [])
read_texts _ = none

abbrev viper : Viper Registry
viper = record {
  bind_env = λ n v. record v { names = n ∷ v.names };
  set_default = λ n d v. record v { defaults = (n, d) ∷ v.defaults };
  value = λ v n.
      if is_in v.names n
      then or_default (environment n) (default_at v.defaults n)
      else default_at v.defaults n;
  decode_int = read_int;
  decode_bool = read_bool;
  decode_text = read_text;
  decode_texts = read_texts;
}

unset_lem :
    (b : Bool) (e : Option String) (d : Option Setting)
    → e ≡ none
    → (if b then or_default e d else d) ≡ d
unset_lem true e d h = rw h
unset_lem false e d h = refl

empty_lem :
    (b : Bool) (e : Option String) (d : Option Setting)
    → e ≡ some ""
    → (if b then or_default e d else d) ≡ d
empty_lem true e d h = rw h refl
empty_lem false e d h = refl

fits_lem :
    (bits n : ℕ) → 2 * n < 2 ^ bits → (if ltb (2 * n) (2 ^ bits) then some n else none) ≡ some n
fits_lem bits n h = ground arith

laws : ViperLaws viper
laws = record {
  environment = environment;
  bound = λ v n. is_in v.names n;
  default_of = λ v n. default_at v.defaults n;
  bind_env-bound = λ n m v. refl;
  bind_env-default = λ n m v. refl;
  set_default-bound = λ n m d v. refl;
  set_default-default = λ n m d v. refl;
  value-set = λ v n e b h full. rw (b, h, full);
  value-unset = λ v n h. unset_lem (is_in v.names n) (environment n) (default_at v.defaults n) h;
  value-empty = λ v n h. empty_lem (is_in v.names n) (environment n) (default_at v.defaults n) h;
  int-itself = λ bits n h. fits_lem bits n h;
  bool-itself = λ b. refl;
  text-itself = λ t. refl;
  texts-itself = λ ts. refl;
}

abbrev registry : Registry
registry = record { names = []; defaults = [] }

abbrev conf : ApiConfig
conf = record {
  port = 0;
  echo_mode = false;
  log_level = "info";
  kafka_null_producer = true;
  kafka_addresses = [];
  kafka_num_partitions = 1;
  kafka_replication_factor = 1;
  db_profiles_addresses = [];
  db_aggregates_addresses = [];
  db_null_client = true;
  id_getter_address = "";
  id_getter_null_client = true;
}

api_configured_example : new_api_config viper registry ≡ ok conf
unfolding laws
api_configured_example = api_configured viper laws registry

-- Only the admin of the topics can be reached.
abbrev outside : Outside (List String) (Unit {0})
outside = record {
  time_text = time_text;
  protobuf = wire;
  parse_level = λ level. if str_eq level "info" then ok tt else err failed;
  cluster_admin = λ addresses. admin;
  new_sync_producer = λ addresses. throw failed;
  new_consumer_group = λ addresses group initial. throw failed;
  new_hosts = λ addresses. err failed;
  new_client_with_hosts = λ hosts. throw failed;
  transport = λ address. record {
    marshal = λ req. err failed;
    post = λ url bytes. throw failed;
    decode = λ bytes. err failed;
  };
}

-- A server that is shut down at once
abbrev engine : Server (ClientState (List String)) → ℕ → Exec (ClientState (List String)) (Unit {0})
engine server port = return tt

main_iff_example : (main outside viper engine registry [] ≡ (ok tt, "user-tags" ∷ [])) ↔ (
    (server : Server (ClientState (List String))) × (s₁ : List String) × (t : ClientState
      (List String))
    × Started outside viper conf [] s₁ server
    × (engine server 0 (new_client (outside.transport "") s₁) ≡ (ok tt, t))
    × (t.remote ≡ "user-tags" ∷ []))
main_iff_example =
    main_iff outside viper engine registry conf [] ("user-tags" ∷ []) api_configured_example

runs : main outside viper engine registry [] ≡ (ok tt, "user-tags" ∷ [])
unfolding main new_api_config start prepare new_logger fields field initialize producer db_client
    new_client
runs = refl

-- ===== src/Config/Read.antt =====
-- What the configurations of src/cmd are: the environment's values, or the defaults.
use allezon.Base.{
  ℕ, ◌*◌, ◌^◌, ◌<◌, ◌≡◌, refl, ap, ◌∙◌, eq_iff, String, Bool, true, false, ◌||◌, Option, none, some,
  List, [], ◌∷◌, ok, arith, str_eq, inl, inr, Bool-cases, if◌then◌else◌,
}
use allezon.Config.Field.{Setting, int, bool, text, texts, Viper, decoded, field, fields}
use allezon.Config.{
  api_fields, worker_fields, id_getter_fields, new_api_config, new_worker_config,
  new_id_getter_config,
}

-- What viper documents: a value is that of the environment if the key is bound and the variable is
-- set and not empty, and else the default. A default of the field's own type decodes to itself, a
-- number if it is one that a signed integer of the field's bits can have.
pub record ViperLaws {V : Type 0} (viper : Viper V) : Type 0 where
  pub environment : String → Option String
  pub bound : V → String → Bool
  pub default_of : V → String → Option Setting
  pub bind_env-bound :
      (n m : String) (v : V) → bound (viper.bind_env n v) m ≡ (str_eq n m || bound v m)
  pub bind_env-default : (n m : String) (v : V) → default_of (viper.bind_env n v) m ≡ default_of v m
  pub set_default-bound :
      (n m : String) (d : Setting) (v : V) → bound (viper.set_default n d v) m ≡ bound v m
  pub set_default-default :
      (n m : String) (d : Setting) (v : V)
      → default_of (viper.set_default n d v) m ≡ (if str_eq n m then some d else default_of v m)
  pub value-set :
      (v : V) (n e : String)
      → bound v n ≡ true
      → environment n ≡ some e
      → str_eq e "" ≡ false
      → viper.value v n ≡ some (text e)
  pub value-unset : (v : V) (n : String) → environment n ≡ none → viper.value v n ≡ default_of v n
  pub value-empty :
      (v : V) (n : String) → environment n ≡ some "" → viper.value v n ≡ default_of v n
  pub int-itself : (bits n : ℕ) → 2 * n < 2 ^ bits → viper.decode_int bits (int n) ≡ some n
  pub bool-itself : (b : Bool) → viper.decode_bool (bool b) ≡ some b
  pub text-itself : (t : String) → viper.decode_text (text t) ≡ some t
  pub texts-itself : (ts : List String) → viper.decode_texts (texts ts) ≡ some ts

-- The default of a name, the last that is given, and whether there is one
abbrev pub default_in : List (String × Setting) → String → Option Setting → Option Setting
default_in [] name before = before
default_in ((n, d) ∷ more) name before =
    default_in more name (if str_eq n name then some d else before)

abbrev pub is_field : List (String × Setting) → String → Bool
is_field [] name = false
is_field ((n, d) ∷ more) name = str_eq n name || is_field more name

module _ {V : Type 0} (viper : Viper V) (laws : ViperLaws viper) where
  open laws use {environment, bound, default_of}

  fields-default :
      (all : List (String × Setting)) (v : V) (name : String)
      → default_of (fields viper all v) name ≡ default_in all name (default_of v name)
  unfolding fields field
  fields-default [] v name = refl
  fields-default ((n, d) ∷ more) v name = rw (
    fields-default more (viper.set_default n d (viper.bind_env n v)) name,
    laws.set_default-default n name d (viper.bind_env n v),
    laws.bind_env-default n name v,
  )

  bound_before :
      (all : List (String × Setting)) (v : V) (name : String)
      → bound v name ≡ true
      → bound (fields viper all v) name ≡ true
  unfolding fields field
  bound_before [] v name h = h
  bound_before ((n, d) ∷ more) v name h =
      bound_before more (viper.set_default n d (viper.bind_env n v)) name (
        laws.set_default-bound n name d (viper.bind_env n v)
        ∙ laws.bind_env-bound n name v
        ∙ rw h (ground arith))

  fields-bound :
      (all : List (String × Setting)) (v : V) (name : String)
      → is_field all name ≡ true
      → bound (fields viper all v) name ≡ true
  unfolding fields field
  fields-bound [] v name h = cc
  fields-bound ((n, d) ∷ more) v name h = elim (Bool-cases (str_eq n name)) [
    | inl here ↦ bound_before more (viper.set_default n d (viper.bind_env n v)) name (
        laws.set_default-bound n name d (viper.bind_env n v)
        ∙ laws.bind_env-bound n name v
        ∙ rw here)
    | inr elsewhere ↦ fields-bound more _ name (rw elsewhere at h)
  ]

  -- The environment's value of a name, 0 if it cannot be decoded, or else the default
  abbrev pub configured : {A : Type 0} → A → (Setting → Option A) → A → Option String → A
  configured zero_value decode default_value none = default_value
  configured zero_value decode default_value (some e) =
      if str_eq e "" then default_value else decoded zero_value decode (some (text e))

  field-configured :
      {A : Type 0} (zero_value : A) (decode : Setting → Option A) (d : A) (setting : Setting)
      (all : List (String × Setting)) (v : V) (name : String)
      → decode setting ≡ some d
      → is_field all name ≡ true
      → default_in all name (default_of v name) ≡ some setting
      → (e : Option String) → environment name ≡ e
      → decoded zero_value decode (viper.value (fields viper all v) name)
        ≡ configured zero_value decode d e
  field-configured zero_value decode d setting all v name itself is given none env =
      rw (laws.value-unset (fields viper all v) name env, fields-default all v name, given, itself)
  field-configured zero_value decode d setting all v name itself is given (some e) env =
      elim (Bool-cases (str_eq e "")) [
        | inl empty ↦
            let unset = env ∙ ap some ((eq_iff e "").0 empty) in
            rw
              (
                laws.value-empty (fields viper all v) name unset,
                fields-default all v name,
                given,
                itself,
                empty,
              )
              refl
        | inr full ↦
            rw (
              laws.value-set (fields viper all v) name e (fields-bound all v name is) env full,
              full,
            )
      ]

  -- The configuration of the API service is always made; each field is the value of its
  -- environment variable, decoded at the width of the field, zero if that cannot be decoded, and
  -- the default if the variable is not set or empty, if the registry of settings does what it
  -- documents.
  pub api_configured :
      (v : V)
      → new_api_config viper v
        ≡ ok (record {
          port = configured 0 (viper.decode_int 64) 8080 (environment "port");
          echo_mode = configured false viper.decode_bool false (environment "echo_mode");
          log_level = configured "" viper.decode_text "info" (environment "log_level");
          kafka_null_producer =
              configured false viper.decode_bool false (environment "kafka_null_producer");
          kafka_addresses = configured [] viper.decode_texts [] (environment "kafka_addresses");
          kafka_num_partitions =
              configured 0 (viper.decode_int 32) 1 (environment "kafka_num_partitions");
          kafka_replication_factor =
              configured 0 (viper.decode_int 16) 1 (environment "kafka_replication_factor");
          db_profiles_addresses =
              configured [] viper.decode_texts [] (environment "db_profiles_addresses");
          db_aggregates_addresses =
              configured [] viper.decode_texts [] (environment "db_aggregates_addresses");
          db_null_client = configured false viper.decode_bool false (environment "db_null_client");
          id_getter_address = configured "" viper.decode_text "" (environment "id_getter_address");
          id_getter_null_client =
              configured false viper.decode_bool false (environment "id_getter_null_client");
        })
  unfolding new_api_config
  api_configured v = rw (
    field-configured 0 (viper.decode_int 64) 8080 (int 8080) api_fields v "port"
        (laws.int-itself 64 8080 (omega arith)) refl refl (environment "port") refl,
    field-configured false viper.decode_bool false (bool false) api_fields v "echo_mode"
        (laws.bool-itself false) refl refl (environment "echo_mode") refl,
    field-configured "" viper.decode_text "info" (text "info") api_fields v "log_level"
        (laws.text-itself "info") refl refl (environment "log_level") refl,
    field-configured false viper.decode_bool false (bool false) api_fields v "kafka_null_producer"
        (laws.bool-itself false) refl refl (environment "kafka_null_producer") refl,
    field-configured [] viper.decode_texts [] (texts []) api_fields v "kafka_addresses"
        (laws.texts-itself []) refl refl (environment "kafka_addresses") refl,
    field-configured 0 (viper.decode_int 32) 1 (int 1) api_fields v "kafka_num_partitions"
        (laws.int-itself 32 1 (omega arith)) refl refl (environment "kafka_num_partitions") refl,
    field-configured 0 (viper.decode_int 16) 1 (int 1) api_fields v "kafka_replication_factor"
        (laws.int-itself 16 1 (omega arith)) refl refl (environment "kafka_replication_factor")
        refl,
    field-configured [] viper.decode_texts [] (texts []) api_fields v "db_profiles_addresses"
        (laws.texts-itself []) refl refl (environment "db_profiles_addresses") refl,
    field-configured [] viper.decode_texts [] (texts []) api_fields v "db_aggregates_addresses"
        (laws.texts-itself []) refl refl (environment "db_aggregates_addresses") refl,
    field-configured false viper.decode_bool false (bool false) api_fields v "db_null_client"
        (laws.bool-itself false) refl refl (environment "db_null_client") refl,
    field-configured "" viper.decode_text "" (text "") api_fields v "id_getter_address"
        (laws.text-itself "") refl refl (environment "id_getter_address") refl,
    field-configured false viper.decode_bool false (bool false) api_fields v "id_getter_null_client"
        (laws.bool-itself false) refl refl (environment "id_getter_null_client") refl,
  )

  pub worker_configured :
      (v : V)
      → new_worker_config viper v
        ≡ ok (record {
          port = configured 0 (viper.decode_int 64) 8080 (environment "port");
          log_level = configured "" viper.decode_text "debug" (environment "log_level");
          kafka_addresses = configured [] viper.decode_texts [] (environment "kafka_addresses");
          db_aggregates_addresses =
              configured [] viper.decode_texts [] (environment "db_aggregates_addresses");
          id_getter_address = configured "" viper.decode_text "" (environment "id_getter_address");
        })
  unfolding new_worker_config
  worker_configured v = rw (
    field-configured 0 (viper.decode_int 64) 8080 (int 8080) worker_fields v "port"
        (laws.int-itself 64 8080 (omega arith)) refl refl (environment "port") refl,
    field-configured "" viper.decode_text "debug" (text "debug") worker_fields v "log_level"
        (laws.text-itself "debug") refl refl (environment "log_level") refl,
    field-configured [] viper.decode_texts [] (texts []) worker_fields v "kafka_addresses"
        (laws.texts-itself []) refl refl (environment "kafka_addresses") refl,
    field-configured [] viper.decode_texts [] (texts []) worker_fields v "db_aggregates_addresses"
        (laws.texts-itself []) refl refl (environment "db_aggregates_addresses") refl,
    field-configured "" viper.decode_text "" (text "") worker_fields v "id_getter_address"
        (laws.text-itself "") refl refl (environment "id_getter_address") refl,
  )

  pub id_getter_configured :
      (v : V)
      → new_id_getter_config viper v
        ≡ ok (record {
          port = configured 0 (viper.decode_int 64) 8080 (environment "port");
          echo_mode = configured false viper.decode_bool false (environment "echo_mode");
          log_level = configured "" viper.decode_text "debug" (environment "log_level");
          db_null_client = configured false viper.decode_bool false (environment "db_null_client");
          db_addresses = configured [] viper.decode_texts [] (environment "db_addresses");
        })
  unfolding new_id_getter_config
  id_getter_configured v = rw (
    field-configured 0 (viper.decode_int 64) 8080 (int 8080) id_getter_fields v "port"
        (laws.int-itself 64 8080 (omega arith)) refl refl (environment "port") refl,
    field-configured false viper.decode_bool false (bool false) id_getter_fields v "echo_mode"
        (laws.bool-itself false) refl refl (environment "echo_mode") refl,
    field-configured "" viper.decode_text "debug" (text "debug") id_getter_fields v "log_level"
        (laws.text-itself "debug") refl refl (environment "log_level") refl,
    field-configured false viper.decode_bool false (bool false) id_getter_fields v "db_null_client"
        (laws.bool-itself false) refl refl (environment "db_null_client") refl,
    field-configured [] viper.decode_texts [] (texts []) id_getter_fields v "db_addresses"
        (laws.texts-itself []) refl refl (environment "db_addresses") refl,
  )

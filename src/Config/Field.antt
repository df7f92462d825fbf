-- ===== src/Config/Field.antt =====
-- `field` of the three config.go of src/cmd, and the decoding of a struct by its keys. Viper is a
-- parameter: its registry of settings, and the decoding of a setting into a field.
use allezon.Base.{ℕ, String, Bool, false, Option, none, some, List, [], ◌∷◌}

-- A value of a setting: that of an environment variable is a text.
pub data Setting : Type 0 where
  int : ℕ → Setting
  bool : Bool → Setting
  text : String → Setting
  texts : List String → Setting

pub record Viper (V : Type 0) : Type 0 where
  -- the error of `BindEnv` is dropped
  pub bind_env : String → V → V
  pub set_default : String → Setting → V → V
  -- what `Unmarshal` finds under a key
  pub value : V → String → Option Setting
  -- its decoding into a field of each type, or an error: for an integer of as many bits
  pub decode_int : ℕ → Setting → Option ℕ
  pub decode_bool : Setting → Option Bool
  pub decode_text : Setting → Option String
  pub decode_texts : Setting → Option (List String)

-- The field of a struct that starts as `zero_value`: it keeps this if there is no setting, or none
-- that can be decoded.
abbrev pub or_else : {A : Type 0} → A → Option A → A
or_else zero_value none = zero_value
or_else zero_value (some a) = a

abbrev pub decoded : {A : Type 0} → A → (Setting → Option A) → Option Setting → A
decoded zero_value decode none = zero_value
decoded zero_value decode (some v) = or_else zero_value (decode v)

module _ {V : Type 0} (viper : Viper V) where
  unfoldable pub field : String → Setting → V → V
  field name default_value v = viper.set_default name default_value (viper.bind_env name v)

  -- One `field` after the other
  unfoldable pub fields : List (String × Setting) → V → V
  fields [] v = v
  fields ((name, default_value) ∷ more) v = fields more (field name default_value v)

  -- Of a signed integer, by its bits
  abbrev pub int_field : ℕ → V → String → ℕ
  int_field bits v name = decoded 0 (viper.decode_int bits) (viper.value v name)

  abbrev pub bool_field : V → String → Bool
  bool_field v name = decoded false viper.decode_bool (viper.value v name)

  abbrev pub text_field : V → String → String
  text_field v name = decoded "" viper.decode_text (viper.value v name)

  abbrev pub texts_field : V → String → List String
  texts_field v name = decoded [] viper.decode_texts (viper.value v name)

-- ===== src/Db/Aerospike.antt =====
-- The client of the Aerospike database (github.com/aerospike/aerospike-client-go/v6), a parameter:
-- the operations, policies and values that src/pkg/db and src/cmd/id_getter/db use.
use allezon.Base.{
  ℕ, String, Bool, Option, List, Result, ℤ, str_eq, none, some, [], ◌∷◌, if◌then◌else◌,
}
use allezon.Base.Exec.{Exec}

-- A value of a bin, as the code tells Go's dynamic types apart. An `int` is its 64-bit pattern.
pub data Scalar : Type 0 where
  nil : Scalar
  int : ℕ → Scalar
  text : String → Scalar
  blob : List ℕ → Scalar
  other : Scalar

pub data Value : Type 0 where
  scalar : Scalar → Value
  -- `[]interface{}`
  list : List Scalar → Value
  -- `[]as.MapPair`
  pairs : List (Scalar × Scalar) → Value

-- `as.BinMap`
abbrev pub Bins : Type 0
Bins = List (String × Value)

-- `bins[name]`
abbrev pub bin : String → Bins → Option Value
bin name [] = none
bin name ((other_name, v) ∷ bins) = if str_eq other_name name then some v else bin name bins

pub record Key : Type 0 where
  pub namespace : String
  pub set_name : String
  -- `key.Value()`, which is nil in a record that was stored without its key
  pub value : Option String

pub record Record : Type 0 where
  pub key : Key
  pub bins : Bins
  pub generation : ℕ

pub data RecordExistsAction : Type 0 where
  update update_only create_only : RecordExistsAction

pub data GenerationPolicy : Type 0 where
  none_expected expect_gen_equal : GenerationPolicy

pub data Expiration : Type 0 where
  ttl_server_default ttl_dont_expire : Expiration

pub record WritePolicy : Type 0 where
  pub generation : ℕ
  pub expiration : Expiration
  pub record_exists_action : RecordExistsAction
  pub generation_policy : GenerationPolicy
  pub send_key : Bool

pub data Operation : Type 0 where
  -- on a map with `MapOrder.KEY_ORDERED` and `MapWriteMode.UPDATE`
  map_put : String → ℤ → List ℕ → Operation
  map_size : String → Operation
  map_remove_by_index_range_count : String → ℕ → ℕ → Operation
  -- on a list with `ListOrderUnordered` and `ListWriteFlagsAddUnique`
  list_append : String → String → Operation
  add : String → ℕ → Operation

pub record Statement : Type 0 where
  pub namespace : String
  pub set_name : String
  pub bin_name : String
  -- `NewEqualFilter(name, value)`
  pub filter_bin : String
  pub filter_value : ℤ

pub record Database (S : Type 0) : Type 0 where
  pub new_key : String → String → String → Result Key
  pub get : Key → List String → S → Result Record
  pub operate : WritePolicy → Key → Operation → Exec S Record
  pub put : WritePolicy → Key → Bins → Exec S (Unit {0})
  -- the results of a query, each with its own error
  pub query : Statement → S → Result (List (Result Record))
  pub create_index : String → String → String → String → Exec S (Unit {0})
  -- `<-task.OnComplete()`
  pub on_complete : Exec S (Unit {0})

-- ===== src/Db.antt =====
-- src/pkg/db: the interfaces of db.go. Their implementations are the children `Aggregates` and
-- `Profiles`, over the database of `Aerospike`; `Null` is null.go.
pub mod Aerospike
pub mod Aggregates
pub mod Profiles
pub mod Null
use allezon.Base.{ℕ, ◌<◌, ◌^◌, String, List, Result}
use allezon.Base.Exec.{Exec}
use allezon.Time.{Time}
use allezon.Types.{Action, UserTag}

-- Tags are sorted in ascending order relative to time.
pub record UserProfile : Type 0 where
  pub views : List UserTag
  pub buys : List UserTag

pub record AggregateKey : Type 0 where
  pub category_id : ℕ
  pub brand_id : ℕ
  pub origin : ℕ

-- The fields are `uint16`.
pub record IsAggregateKey (k : AggregateKey) : Type 0 where
  pub category_id : k.category_id < 2 ^ 16
  pub brand_id : k.brand_id < 2 ^ 16
  pub origin : k.origin < 2 ^ 16

pub record ActionAggregates : Type 0 where
  pub key : AggregateKey
  pub sum : ℕ
  pub count : ℕ

-- The interfaces; `S` is the state of what stands behind them.
pub record UserProfileClient (S : Type 0) : Type 0 where
  pub get : String → Exec S UserProfile
  pub add : UserTag → Exec S ℕ
  pub remove_over_limit : String → Action → ℕ → Exec S (Unit {0})

pub record AggregatesClient (S : Type 0) : Type 0 where
  pub get : Time → Action → Exec S (List ActionAggregates)
  pub add : AggregateKey → UserTag → Exec S (Unit {0})

pub record Client (S : Type 0) : Type 0 where
  pub user_profiles : UserProfileClient S
  -- creates the index of the aggregates first
  pub aggregates : Exec S (AggregatesClient S)

-- ===== src/Types.antt =====
-- src/pkg/types/userTag.go: the domain types. An `int8`, `int` or `uint32` is its bit pattern, a
-- number below 2 ^ 8, 2 ^ 64 or 2 ^ 32.
pub mod Marshal
pub mod Roundtrip
use allezon.Base.{ℕ, ◌<◌, ◌^◌, String, ◌==◌, if◌then◌else◌}
use allezon.Time.{Time}

-- `type Device int8`, and its constants
abbrev pub Device : Type 0
Device = ℕ

abbrev pub pc : ℕ
pc = 0

abbrev pub mobile : ℕ
mobile = 1

abbrev pub tv : ℕ
tv = 2

unfoldable pub device_string : Device → String
device_string d =
    if d == pc then "PC" else if d == mobile then "MOBILE" else if d == tv then "TV" else "Unknown"

abbrev pub Aggregate : Type 0
Aggregate = ℕ

abbrev pub sum : ℕ
sum = 0

abbrev pub count : ℕ
count = 1

unfoldable pub aggregate_string : Aggregate → String
aggregate_string a = if a == sum then "SUM_PRICE" else if a == count then "COUNT" else "Unknown"

abbrev pub Action : Type 0
Action = ℕ

abbrev pub view : ℕ
view = 0

abbrev pub buy : ℕ
buy = 1

unfoldable pub action_string : Action → String
action_string a = if a == view then "VIEW" else if a == buy then "BUY" else "Unknown"

pub record ProductInfo : Type 0 where
  pub product_id : ℕ
  pub brand_id : String
  pub category_id : String
  pub price : ℕ

pub record UserTag : Type 0 where
  pub time : Time
  pub cookie : String
  pub country : String
  pub device : Device
  pub action : Action
  pub origin : String
  pub product_info : ProductInfo

-- The numbers are patterns of their types.
pub record IsUserTag (tag : UserTag) : Type 0 where
  pub device : tag.device < 2 ^ 8
  pub action : tag.action < 2 ^ 8
  pub product_id : tag.product_info.product_id < 2 ^ 64
  pub price : tag.product_info.price < 2 ^ 32

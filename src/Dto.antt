-- ===== src/Dto.antt =====
-- src/pkg/dto/dto.go: the transfer objects and their conversion to the domain types. A pointer
-- field is an `Option`. Texts of instants go through a parameter (`TimeText`).
pub mod Laws
pub mod Panicking
use allezon.Base.{
  ℕ, String, ◌≡◌, Option, none, some, List, Result, ok, err, panic, failed, ◌>>=◌, str_eq,
  if◌then◌else◌,
}
use allezon.Time.{Time}
use allezon.Types.{
  Device, Action, Aggregate, pc, mobile, tv, view, buy, sum, count, device_string, action_string,
  UserTag,
}

abbrev pub user_tag_time_layout : String
user_tag_time_layout = "2006-01-02T15:04:05.999Z"

abbrev pub time_range_milli_precision_layout : String
time_range_milli_precision_layout = "2006-01-02T15:04:05.999"

abbrev pub time_range_sec_precision_layout : String
time_range_sec_precision_layout = "2006-01-02T15:04:05"

-- `time.Parse(layout, text)` and `t.Format(layout)`
pub record TimeText : Type 0 where
  pub parse : String → String → Result Time
  pub format : String → Time → String

pub record ProductInfoDto : Type 0 where
  pub product_id : Option ℕ
  pub brand_id : String
  pub category_id : String
  pub price : ℕ

pub record UserTagDto : Type 0 where
  pub time : String
  pub cookie : String
  pub country : String
  pub device : String
  pub action : String
  pub origin : String
  pub product_info : ProductInfoDto

pub record UserProfileDto : Type 0 where
  pub cookie : String
  pub views : List UserTagDto
  pub buys : List UserTagDto

pub record AggregatesDto : Type 0 where
  pub columns : List String
  pub rows : List (List String)

unfoldable pub to_device : String → Result Device
to_device s =
    if str_eq s "PC"
    then ok pc
    else if str_eq s "MOBILE"
    then ok mobile
    else if str_eq s "TV"
    then ok tv
    else err failed

unfoldable pub to_action : String → Result Action
to_action s = if str_eq s "VIEW" then ok view else if str_eq s "BUY" then ok buy else err failed

unfoldable pub to_aggregate : String → Result Aggregate
to_aggregate s =
    if str_eq s "COUNT" then ok count else if str_eq s "SUM_PRICE" then ok sum else err failed

-- `*p`
abbrev pub dereference {ℓ} : {A : Type ℓ} → Option A → Result A
dereference none = panic
dereference (some a) = ok a

module _ (text : TimeText) where
  unfoldable pub from_user_tag_dto : UserTagDto → Result UserTag
  from_user_tag_dto dto = do
    t ← text.parse user_tag_time_layout dto.time
    device ← to_device dto.device
    action ← to_action dto.action
    product_id ← dereference dto.product_info.product_id
    ok (record {
      time = t;
      cookie = dto.cookie;
      country = dto.country;
      device = device;
      action = action;
      origin = dto.origin;
      product_info = record {
        product_id = product_id;
        brand_id = dto.product_info.brand_id;
        category_id = dto.product_info.category_id;
        price = dto.product_info.price;
      };
    })

  unfoldable pub into_user_tag_dto : UserTag → UserTagDto
  into_user_tag_dto tag = record {
    time = text.format user_tag_time_layout tag.time;
    cookie = tag.cookie;
    country = tag.country;
    device = device_string tag.device;
    action = action_string tag.action;
    origin = tag.origin;
    product_info = record {
      product_id = some tag.product_info.product_id;
      brand_id = tag.product_info.brand_id;
      category_id = tag.product_info.category_id;
      price = tag.product_info.price;
    };
  }

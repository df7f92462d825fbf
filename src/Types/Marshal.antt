-- ===== src/Types/Marshal.antt =====
-- src/pkg/types/userTag.go: `MarshalUserTag` and `UnmarshalUserTag`. The protobuf runtime is a
-- parameter. A pointer to a message is an `Option`.
use allezon.Base.{
  ℕ, String, ◌≡◌, Option, none, some, List, Result, ok, err, panic, failed, ◌>>=◌, wrap, ◌==◌,
  truncate, sign_extend, if◌then◌else◌,
}
use allezon.Time.{Time}
use allezon.Types.{Action, view, buy, ProductInfo, UserTag}

-- The messages that protoc generates from src/pkg/types/usertag.proto. An enum is an `int32`.
pub record PbProductInfo : Type 0 where
  pub product_id : ℕ
  pub brand_id : String
  pub category_id : String
  pub price : ℕ

pub record PbUserTag (Timestamp : Type 0) : Type 0 where
  pub time : Option Timestamp
  pub cookie : String
  pub country : String
  pub device : ℕ
  pub action : ℕ
  pub origin : String
  pub product_info : Option PbProductInfo

abbrev pub pb_view : ℕ
pb_view = 0

abbrev pub pb_buy : ℕ
pb_buy = 1

-- google.golang.org/protobuf: `timestamppb.New`, `AsTime` (of a nil pointer too), `proto.Marshal`
-- and `proto.Unmarshal` at the message `UserTag`.
pub record Protobuf : Type 1 where
  pub Timestamp : Type 0
  pub new : Time → Timestamp
  pub as_time : Option Timestamp → Time
  pub marshal : PbUserTag Timestamp → Result (List ℕ)
  pub unmarshal : List ℕ → Result (PbUserTag Timestamp)

-- What its documentation promises of texts in UTF-8.
pub record ProtobufLaws (p : Protobuf) : Type 0 where
  pub as_time-new : (t : Time) → p.as_time (some (p.new t)) ≡ t
  pub marshal_total : (m : PbUserTag p.Timestamp) → (bytes : List ℕ) × (p.marshal m ≡ ok bytes)
  pub unmarshal-marshal :
      (m : PbUserTag p.Timestamp) (bytes : List ℕ)
      → p.marshal m ≡ ok bytes
      → p.unmarshal bytes ≡ ok m

unfoldable pub product_info_into_proto : ProductInfo → PbProductInfo
product_info_into_proto info = record {
  product_id = truncate 32 info.product_id;
  brand_id = info.brand_id;
  category_id = info.category_id;
  price = info.price;
}

-- `info` is dereferenced with no test for nil.
unfoldable pub product_info_from_proto : Option PbProductInfo → Result ProductInfo
product_info_from_proto none = panic
product_info_from_proto (some info) = ok (record {
  product_id = sign_extend 32 64 info.product_id;
  brand_id = info.brand_id;
  category_id = info.category_id;
  price = info.price;
})

-- the switch of `userTagIntoProto`
unfoldable pub action_into_proto : Action → Result ℕ
action_into_proto a = if a == view then ok pb_view else if a == buy then ok pb_buy else err failed

-- the switch of `userTagFromProto`
unfoldable pub action_from_proto : ℕ → Result Action
action_from_proto a = if a == pb_view then ok view else if a == pb_buy then ok buy else err failed

module _ (p : Protobuf) where
  open p use {Timestamp, new, as_time, marshal, unmarshal}

  unfoldable pub user_tag_into_proto : UserTag → Result (PbUserTag Timestamp)
  unfolding action_into_proto product_info_into_proto
  user_tag_into_proto tag = do
    action ← action_into_proto tag.action
    ok (record {
      time = some (new tag.time);
      cookie = tag.cookie;
      country = tag.country;
      device = sign_extend 8 32 tag.device;
      action = action;
      origin = tag.origin;
      product_info = some (product_info_into_proto tag.product_info);
    })

  unfoldable pub user_tag_from_proto : PbUserTag Timestamp → Result UserTag
  unfolding action_from_proto product_info_from_proto
  user_tag_from_proto tag = do
    action ← action_from_proto tag.action
    product_info ← product_info_from_proto tag.product_info
    ok (record {
      time = as_time tag.time;
      cookie = tag.cookie;
      country = tag.country;
      device = truncate 8 tag.device;
      action = action;
      origin = tag.origin;
      product_info = product_info;
    })

  unfoldable pub marshal_user_tag : UserTag → Result (List ℕ)
  unfolding user_tag_into_proto
  marshal_user_tag tag = do message ← wrap (user_tag_into_proto tag); marshal message

  unfoldable pub unmarshal_user_tag : List ℕ → Result UserTag
  unfolding user_tag_from_proto
  unmarshal_user_tag bytes = do message ← wrap (unmarshal bytes); wrap (user_tag_from_proto message)

-- ===== src/Tests/Codes.antt =====
-- The encodings, the transfer objects and the marshalled tags.
use allezon.Base.{
  ℕ, ◌+◌, ◌/◌, ◌-◌, ◌%◌, ◌^◌, ◌≡◌, ◌↔◌, refl, inl, inr, some, none, List, [], ◌∷◌, ok, panic, pos,
  FitsInt32, arith,
}
use allezon.Base.Decimal.{parse_uint}
use allezon.Time.{millisecond}
use allezon.Types.{UserTag, IsUserTag}
use allezon.Types.Marshal.{marshal_user_tag, unmarshal_user_tag, PbUserTag}
use allezon.Types.Roundtrip.{unmarshal-marshal_iff, unmarshal_panics_iff, IsAction}
use allezon.Dto.{UserTagDto, from_user_tag_dto, into_user_tag_dto, user_tag_time_layout}
use allezon.Dto.Laws.{from-into}
use allezon.Dto.Panicking.{Dereferences, from_panics_iff}
use allezon.Db.{IsAggregateKey}
use allezon.Db.Aerospike.{Key}
use allezon.Db.Aggregates.Codec.{to_key, decode_sum_and_count}
use allezon.Db.Aggregates.Encoding.{decode-accumulate, accumulate}
use allezon.Tests.Data.{text_laws, sale, key, text, sale_dto}
use allezon.Tests.Wire.{wire, wire_laws}

sale-IsUserTag : IsUserTag sale
sale-IsUserTag = record {
  device = omega arith;
  action = omega arith;
  product_id = omega arith;
  price = omega arith;
}

unmarshal-marshal_iff_example :
    (bytes : List ℕ) × (marshal_user_tag wire sale ≡ ok bytes)
    × ((unmarshal_user_tag wire bytes ≡ ok sale) ↔ FitsInt32 7)
unmarshal-marshal_iff_example = unmarshal-marshal_iff wire wire_laws sale sale-IsUserTag (inr refl)

abbrev strange : UserTag
strange = record sale { action = 2 }

abbrev bare : PbUserTag ℕ
bare = record {
  time = none;
  cookie = "";
  country = "";
  device = 0;
  action = 1;
  origin = "";
  product_info = none;
}

-- An empty message but for its action.
unmarshal_panics_iff_example :
    (unmarshal_user_tag wire (0 ∷ 0 ∷ 0 ∷ 1 ∷ 0 ∷ 0 ∷ 0 ∷ []) ≡ panic)
    ↔ (IsAction 1 × (bare.product_info ≡ none))
unmarshal_panics_iff_example = unmarshal_panics_iff wire (0 ∷ 0 ∷ 0 ∷ 1 ∷ 0 ∷ 0 ∷ 0 ∷ []) bare refl

from-into_example :
    from_user_tag_dto text (into_user_tag_dto text sale)
    ≡ ok (record sale { time = sale.time - sale.time % millisecond })
from-into_example = from-into text sale text_laws (omega arith) (inr (inl refl)) (inr refl)

abbrev nameless : UserTagDto
nameless = record sale_dto { product_info = record sale_dto.product_info { product_id = none } }

time_parses : text.parse user_tag_time_layout nameless.time ≡ panic → ⊥
unfolding parse_uint
time_parses h = cc

from_panics_iff_example : (from_user_tag_dto text nameless ≡ panic) ↔ Dereferences text nameless
from_panics_iff_example = from_panics_iff text nameless time_parses

key-IsAggregateKey : IsAggregateKey key
key-IsAggregateKey = record {
  category_id = omega arith;
  brand_id = omega arith;
  origin = omega arith;
}

abbrev record_key : Key
record_key = record {
  namespace = "allezon";
  set_name = "aggregates";
  value = some (to_key (pos 17) key);
}

decode-accumulate_example :
    decode_sum_and_count (accumulate 0 (250 ∷ 30 ∷ []))
    ≡ (280 % 2 ^ 48, (2 + 280 / 2 ^ 48) % 2 ^ 16)
decode-accumulate_example = decode-accumulate (250 ∷ 30 ∷ []) (omega arith, (omega arith, tt))

-- ===== src/Tests/Data.antt =====
-- The values that the examples share.
use allezon.Base.{ℕ, some}
use allezon.Time.{Time, millisecond}
use allezon.Types.{UserTag, view, buy, mobile}
use allezon.Dto.{UserTagDto, TimeText, to_device, to_action, from_user_tag_dto}
use allezon.Base.{◌≡◌, refl, Result, ok, err, failed, ◌/◌, ◌*◌, ◌-◌, ◌%◌, ap, ◌∙◌, arith}
use allezon.Base.Decimal.{natural_before, parse_uint}
use allezon.Base.Decimal.Laws.{parse_uint-natural}
use allezon.Dto.Laws.{TimeTextLaws}
use allezon.Db.{AggregateKey}

-- 2022-03-22T12:15:00Z
abbrev pub noon : Time
noon = 63815170500 * 1000000000

abbrev pub sale : UserTag
sale = record {
  time = noon;
  cookie = "cookie";
  country = "PL";
  device = mobile;
  action = buy;
  origin = "shop";
  product_info = record { product_id = 7; brand_id = "brand"; category_id = "socks"; price = 250 };
}

abbrev pub visit : UserTag
visit = record sale { action = view }

abbrev pub key : AggregateKey
key = record { category_id = 1; brand_id = 2; origin = 3 }

abbrev pub other_key : AggregateKey
other_key = record key { origin = 4 }

abbrev pub text_time : Result ℕ → Result Time
text_time (ok n) = ok (n * 1000000)
text_time r = err failed

-- A text of an instant that is its number of milliseconds.
abbrev pub text : TimeText
text = record {
  parse = λ layout s. text_time (parse_uint s);
  format = λ layout t. natural_before (t / 1000000) "";
}

abbrev pub sale_dto : UserTagDto
sale_dto = record {
  time = "63815170500000";
  cookie = "cookie";
  country = "PL";
  device = "MOBILE";
  action = "BUY";
  origin = "shop";
  product_info = record {
    product_id = some 7;
    brand_id = "brand";
    category_id = "socks";
    price = 250;
  };
}

pub sale_dto_accepted : from_user_tag_dto text sale_dto ≡ ok sale
unfolding from_user_tag_dto parse_uint to_device to_action
sale_dto_accepted = refl

milliseconds : (t : Time) → t / 1000000 * 1000000 ≡ t - t % millisecond
milliseconds t = omega arith

pub text_laws : TimeTextLaws text
text_laws = record {
  parse-format = λ t h.
      ap text_time (parse_uint-natural (t / 1000000) (omega arith))
      ∙ ap (λ n. ok n) (milliseconds t);
}

-- ===== src/Tests/Counted.antt =====
-- The counting of tags in a store in memory.

use allezon.Base.{◌≡◌, refl, inl, inr, List, [], ◌∷◌, ok, pos, arith, length}
use allezon.Types.{buy}
use allezon.Db.{IsAggregateKey}
use allezon.Db.Aggregates.Client.{add_tag}
use allezon.Db.Aggregates.Codec.{encode, to_ts, to_key, encode_sum_and_count, decode_sum_and_count}
use allezon.Db.Aggregates.{action_to_bin}
use allezon.Base.{quot}
use allezon.Base.Decimal.{integer_before, natural_before}
use allezon.Db.Aggregates.Writing.{AddsTo, add_tag-AddsTo, action_bin}
use allezon.Db.Aggregates.Counting.{Event, IsEvent, add_all, counter}
use allezon.Db.Aggregates.Minutes.{clock_prices, add_all-minute}
use allezon.Base.Decimal.Laws.{IsInt64}
use allezon.Db.Aggregates.Encoding.{total}
use allezon.Tests.Data.{noon, sale, visit, key, other_key}
use allezon.Tests.Memory.{Store, store, laws}

abbrev pub empty : Store
empty = []

key-IsAggregateKey : IsAggregateKey key
key-IsAggregateKey = record {
  category_id = omega arith;
  brand_id = omega arith;
  origin = omega arith;
}

other_key-IsAggregateKey : IsAggregateKey other_key
other_key-IsAggregateKey = record {
  category_id = omega arith;
  brand_id = omega arith;
  origin = omega arith;
}

abbrev events : List Event
events = (key, sale) ∷ (other_key, sale) ∷ (key, visit) ∷ (key, sale) ∷ []

abbrev after_events : Store
after_events = (add_all store laws events empty).1

all_added : add_all store laws events empty ≡ (ok tt, after_events)
unfolding add_all add_tag action_to_bin to_key integer_before to_ts quot natural_before encode
all_added = refl

noon_minute : to_ts sale.time ≡ pos 27465855
unfolding to_ts quot
noon_minute = refl

sale-IsEvent : IsEvent (key, sale)
unfolding to_ts quot
sale-IsEvent = record {
  key = key-IsAggregateKey;
  minute = omega arith;
  action = inr refl;
  price = omega arith;
}

other_sale-IsEvent : IsEvent (other_key, sale)
unfolding to_ts quot
other_sale-IsEvent = record {
  key = other_key-IsAggregateKey;
  minute = omega arith;
  action = inr refl;
  price = omega arith;
}

visit-IsEvent : IsEvent (key, visit)
unfolding to_ts quot
visit-IsEvent = record {
  key = key-IsAggregateKey;
  minute = omega arith;
  action = inl refl;
  price = omega arith;
}

nothing_counted : counter store laws empty (to_ts noon) key buy ≡ 0
nothing_counted = refl

-- Two of the four tags are sales with the key.
two_prices : clock_prices noon key buy events ≡ 250 ∷ 250 ∷ []
unfolding clock_prices
two_prices = refl

noon-IsInt64 : IsInt64 (to_ts noon)
unfolding to_ts quot
noon-IsInt64 = omega arith

add_all-minute_example :
    decode_sum_and_count (counter store laws after_events (to_ts noon) key buy)
    ≡ (total (clock_prices noon key buy events), length (clock_prices noon key buy events))
add_all-minute_example =
    add_all-minute store laws noon key buy events empty after_events (omega arith) noon-IsInt64
      key-IsAggregateKey (inr refl)
      (sale-IsEvent, (other_sale-IsEvent, (visit-IsEvent, (sale-IsEvent, tt))))
      (omega arith, (omega arith, (omega arith, (omega arith, tt)))) all_added nothing_counted
      (rw two_prices (omega arith))

abbrev after_sale : Store
after_sale = (add_tag store key sale empty).1

sale_added : add_tag store key sale empty ≡ (ok tt, after_sale)
unfolding add_tag action_to_bin to_key integer_before to_ts quot natural_before encode
sale_added = refl

add_tag-AddsTo_example :
    AddsTo store laws
      (to_key (to_ts sale.time) key)
      (action_bin buy)
      (encode_sum_and_count 250)
      empty
      after_sale
add_tag-AddsTo_example =
    add_tag-AddsTo store laws key sale empty after_sale (inr refl) (omega arith) sale_added

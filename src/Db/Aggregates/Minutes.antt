-- ===== src/Db/Aggregates/Minutes.antt =====
-- The minutes of the clock, by which `Add` and `Get` of src/pkg/db/aggregates.go keep tags apart: those of
-- instants from 1970 on.
use allezon.Base.{
  ℕ, ◌-◌, ◌/◌, ◌^◌, ◌<◌, ◌≤◌, ◌≡◌, refl, ◌&&◌, List, [], ◌∷◌, ok, pos, eq_ℤ, quot, arith, length,
  ◌==◌, if◌then◌else◌,
}
use allezon.Time.{Time}
use allezon.Types.Roundtrip.{IsAction}
use allezon.Db.{AggregateKey, IsAggregateKey}
use allezon.Db.Aerospike.{Database}
use allezon.Db.Aggregates.Codec.{to_ts, decode_sum_and_count}
use allezon.Db.Aggregates.Encoding.{total}
use allezon.Db.Aggregates.Writing.{AggregatesLaws}
use allezon.Db.Aggregates.Counting.{
  Event, AllEvents, same_key, prices_of, add_all, counter, add_all_counts,
}
use allezon.Base.Decimal.Laws.{IsInt64}

-- The instant 1970-01-01T00:00:00Z, in nanoseconds
abbrev pub from_1970 : Time
from_1970 = 62_167_219_200_000_000_000

-- The minute of the clock that an instant is in, of 60 000 000 000 nanoseconds
abbrev pub clock_minute : Time → ℕ
clock_minute t = t / 60_000_000_000

pub to_ts-from_1970 : (t : Time) → from_1970 ≤ t → to_ts t ≡ pos (clock_minute t - 1_036_120_320)
unfolding to_ts quot
to_ts-from_1970 t h = ground arith

pub same_minute :
    (t u : Time)
    → from_1970 ≤ t
    → from_1970 ≤ u
    → eq_ℤ (to_ts t) (to_ts u) ≡ (clock_minute t == clock_minute u)
same_minute t u ht hu = rw (to_ts-from_1970 t ht, to_ts-from_1970 u hu) (ground arith)

abbrev pub AreLate : List Event → Type 0
AreLate [] = Unit {0}
AreLate (e ∷ events) = (from_1970 ≤ e.1.time) × AreLate events

-- The prices of the events of a minute of the clock, a key and an action
unfoldable pub clock_prices : Time → AggregateKey → ℕ → List Event → List ℕ
clock_prices t k a [] = []
clock_prices t k a ((k', tag) ∷ events) =
    if (clock_minute t == clock_minute tag.time && same_key k k') && a == tag.action
    then tag.product_info.price ∷ clock_prices t k a events
    else clock_prices t k a events

prices_of-clock :
    (t : Time) (k : AggregateKey) (a : ℕ) (events : List Event)
    → from_1970 ≤ t
    → AreLate events
    → prices_of (to_ts t) k a events ≡ clock_prices t k a events
unfolding clock_prices
prices_of-clock t k a [] ht h = refl
prices_of-clock t k a ((k', tag) ∷ events) ht h =
    rw (same_minute t tag.time ht h.0, prices_of-clock t k a events ht h.1)

module _ {S : Type 0} (db : Database S) (laws : AggregatesLaws db) where
  -- After any sequence of adds that succeed, of tags from 1970 on, from a store where the bin of an
  -- instant's minute, a key and an action is missing or 0, that bin decodes to the sum of the
  -- prices of exactly the tags of that key and action in the instant's minute of the clock, and to
  -- their number, if there are fewer than 2 ^ 16 of them.
  pub add_all-minute :
      (t : Time) (k : AggregateKey) (a : ℕ) (events : List Event) (s s' : S)
      → from_1970 ≤ t
      → IsInt64 (to_ts t)
      → IsAggregateKey k
      → IsAction a
      → AllEvents events
      → AreLate events
      → add_all db laws events s ≡ (ok tt, s')
      → counter db laws s (to_ts t) k a ≡ 0
      → length (clock_prices t k a events) < 2 ^ 16
      → decode_sum_and_count (counter db laws s' (to_ts t) k a)
        ≡ (total (clock_prices t k a events), length (clock_prices t k a events))
  add_all-minute t k a events s s' ht hts hk ha h late done empty few =
      let same = prices_of-clock t k a events ht late in
      rw (← same)
        (add_all_counts db laws (to_ts t) k a events s s' hts hk ha h done empty (rw same few))

-- ===== src/Db/Aggregates.antt =====
-- src/pkg/db/aggregates.go: `aggregatesClient`. `Codec` has the encodings, `Encoding` their laws.
pub mod Codec
pub mod Encoding
pub mod Client
pub mod Reading
pub mod Writing
pub mod Counting
pub mod Held
pub mod Tallied
pub mod Queried
pub mod Found
pub mod Indexed
pub mod Minutes
use allezon.Base.{
  ℕ, String, Bool, true, false, Option, none, some, List, [], ◌∷◌, Result, ok, err, panic, failed,
  wrapped, wrap, ◌>>=◌, ◌==◌, ℤ, eq_ℤ, if◌then◌else◌,
}
use allezon.Types.{Action, view, buy}
use allezon.Db.{ActionAggregates}
use allezon.Db.Aerospike.{Key, Record, Value, Scalar, scalar, int, bin}
use Codec.{decode, decode_sum_and_count, decode_key}

abbrev pub aggregates_namespace : String
aggregates_namespace = "allezon"

abbrev pub aggregates_set : String
aggregates_set = "aggregates"

abbrev pub aggregates_index : String
aggregates_index = "ts"

abbrev pub aggregates_ts_bin : String
aggregates_ts_bin = "ts"

abbrev pub aggregates_views_bin : String
aggregates_views_bin = "views"

abbrev pub aggregates_buys_bin : String
aggregates_buys_bin = "buys"

-- The default case logs a fatal error, which ends the process.
unfoldable pub action_to_bin : Action → Result String
action_to_bin action =
    if action == buy
    then ok aggregates_buys_bin
    else if action == view
    then ok aggregates_views_bin
    else panic

-- `raw.(aerospikeInt)`
abbrev pub as_int : Value → Result ℕ
as_int (scalar (int n)) = ok n
as_int _ = err failed

-- The part of the loop of `Get` for one record that has the bin.
unfoldable pub read_record : ℤ → Value → Key → Result ActionAggregates
read_record ts raw key = do
  sum_count ← as_int raw
  (r_ts, code) ← wrap (decode_key key)
  let counted = decode_sum_and_count sum_count
  if eq_ℤ ts r_ts
      then ok (record { key = decode code; sum = counted.0; count = counted.1 })
      else err failed

-- The part of the loop behind `raw, ok := r.Record.Bins[binName]`: `continue` if it is missing.
unfoldable pub read_bin :
    ℤ → Key → Option Value → Result (List ActionAggregates) → Result (List ActionAggregates)
unfolding read_record
read_bin ts key none rest = rest
read_bin ts key (some raw) rest = do a ← read_record ts raw key; aggs ← rest; ok (a ∷ aggs)

unfoldable pub read_result :
    ℤ → String → Result Record → Result (List ActionAggregates) → Result (List ActionAggregates)
unfolding read_bin
read_result ts bin_name (err e) rest = err (wrapped e)
read_result ts bin_name panic rest = panic
read_result ts bin_name (ok r) rest = read_bin ts r.key (bin bin_name r.bins) rest

-- The loop of `Get`, which returns at the first error.
unfoldable pub read_results : ℤ → String → List (Result Record) → Result (List ActionAggregates)
unfolding read_result
read_results ts bin_name [] = ok []
read_results ts bin_name (r ∷ results) =
    let rest = read_results ts bin_name results in read_result ts bin_name r rest

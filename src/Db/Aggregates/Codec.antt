-- ===== src/Db/Aggregates/Codec.antt =====
-- src/pkg/db/aggregates.go: the encodings of keys, of record names and of sums with counts.
use Prim.Native.Nat.{bit_or}
use allezon.Base.{
  ℕ, ◌*◌, ◌/◌, ◌^◌, String, List, [], ◌∷◌, Option, none, some, Result, ok, err, panic, failed,
  ◌>>=◌, ℤ, quot, truncate,
}
use allezon.Base.Decimal.{integer_before, natural_before, parse_int, parse_uint, split}
use allezon.Time.{Time, unix}
use allezon.Db.{AggregateKey}
use allezon.Db.Aerospike.{Key}

-- `(*AggregateKey).decode`
unfoldable pub decode : ℕ → AggregateKey
decode key =
    let origin = truncate 16 key in
    let key' = key / 2 ^ 16 in
    let brand_id = truncate 16 key' in
    let key'' = key' / 2 ^ 16 in
    record { category_id = truncate 16 key''; brand_id = brand_id; origin = origin }

-- `(*AggregateKey).encode`
unfoldable pub encode : AggregateKey → ℕ
encode a = bit_or (bit_or (a.category_id * 2 ^ 32) (a.brand_id * 2 ^ 16)) a.origin

unfoldable pub to_ts : Time → ℤ
to_ts t = quot (unix t) 60

unfoldable pub to_key : ℤ → AggregateKey → String
to_key ts key = integer_before ts (String.◌∷◌ "_" (natural_before (encode key) ""))

unfoldable pub encode_sum_and_count : ℕ → ℕ
encode_sum_and_count price = bit_or (1 * 2 ^ 48) price

-- The sum and the count of a uint64.
unfoldable pub decode_sum_and_count : ℕ → ℕ × ℕ
decode_sum_and_count v = (truncate 64 (v * 2 ^ 16) / 2 ^ 16, truncate 16 (v / 2 ^ 48))

-- `key.Value().String()`, of a value that may be nil
abbrev value_string : Option String → Result String
value_string none = panic
value_string (some s) = ok s

decode_parts : List String → Result (ℤ × ℕ)
decode_parts (first ∷ second ∷ []) = do ts ← parse_int first; key ← parse_uint second; ok (ts, key)
decode_parts _ = err failed

unfoldable pub decode_key : Key → Result (ℤ × ℕ)
unfolding decode_parts
decode_key key = do s ← value_string key.value; decode_parts (split b'_' s)

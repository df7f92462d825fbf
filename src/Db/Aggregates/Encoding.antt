-- ===== src/Db/Aggregates/Encoding.antt =====
-- The encodings of src/pkg/db/aggregates.go and their decodings.
use allezon.Base.{
  ℕ, ◌+◌, ◌-◌, ◌≤◌, ◌*◌, ◌/◌, ◌%◌, ◌^◌, ◌<◌, ◌≡◌, refl, ap, sym, ◌∙◌, List, [], ◌∷◌, some, ok, ℤ,
  arith, length,
}
use allezon.Base.Bits.{bit_or_disjoint}
use allezon.Base.Decimal.Laws.{IsInt64, parse_int-integer, parse_uint-natural, split_joined}
use allezon.Db.{AggregateKey, IsAggregateKey}
use allezon.Db.Aerospike.{Key}
use allezon.Db.Aggregates.Codec.{
  decode, encode, to_key, encode_sum_and_count, decode_sum_and_count, decode_key,
}

-- The fields stand side by side.
encode-sum :
    (k : AggregateKey)
    → IsAggregateKey k
    → encode k ≡ (k.category_id * 2 ^ 16 + k.brand_id) * 2 ^ 16 + k.origin
unfolding encode
encode-sum k h = ground (
  arith,
  bit_or_disjoint 32 k.category_id (k.brand_id * 2 ^ 16),
  bit_or_disjoint 16 (k.category_id * 2 ^ 16 + k.brand_id) k.origin,
)

encode-lt : (k : AggregateKey) → IsAggregateKey k → encode k < 2 ^ 48
encode-lt k h = omega (arith, encode-sum k h)

-- A key of 16-bit fields decodes to itself once it is encoded.
pub decode-encode : (k : AggregateKey) → IsAggregateKey k → decode (encode k) ≡ k
unfolding decode
decode-encode k h = rw (encode-sum k h) (ground arith)

-- The name of a record holds its minute and its key: both are read back from it.
pub decode_key-to_key :
    (ts : ℤ) (k : AggregateKey) (key : Key)
    → IsInt64 ts
    → IsAggregateKey k
    → key.value ≡ some (to_key ts k)
    → (e : ℕ) × (decode_key key ≡ ok (ts, e)) × (decode e ≡ k)
unfolding decode_key to_key
decode_key-to_key ts k key hts hk named = (
  encode k,
  rw (
    named,
    split_joined ts (encode k),
    parse_int-integer ts hts,
    parse_uint-natural (encode k) (omega (arith, encode-lt k hk)),
  ),
  decode-encode k hk,
)

-- Two buckets have one record name only if their minutes and their keys are the same.
pub to_key-injective :
    (ts ts' : ℤ) (k k' : AggregateKey)
    → IsInt64 ts
    → IsInt64 ts'
    → IsAggregateKey k
    → IsAggregateKey k'
    → to_key ts k ≡ to_key ts' k'
    → (ts ≡ ts') × (k ≡ k')
to_key-injective ts ts' k k' hts hts' hk hk' same =
    let key : Key = record { namespace = ""; set_name = ""; value = some (to_key ts k) } in
    let (e, read, is) = decode_key-to_key ts k key hts hk refl in
    let (e', read', is') = decode_key-to_key ts' k' key hts' hk' (ap some same) in
    (cc (read, read'), sym is ∙ ap decode (cc (read, read')) ∙ is')

-- What the database's `Add` makes of a bin: 64-bit addition of one encoded price after another.
abbrev pub accumulate : ℕ → List ℕ → ℕ
accumulate v [] = v
accumulate v (p ∷ prices) = accumulate ((v + encode_sum_and_count p) % 2 ^ 64) prices

abbrev pub total : List ℕ → ℕ
total [] = 0
total (p ∷ prices) = p + total prices

abbrev pub Below : ℕ → List ℕ → Type 0
Below n [] = Unit {0}
Below n (p ∷ prices) = (p < n) × Below n prices

pub encode_price : (p : ℕ) → p < 2 ^ 32 → encode_sum_and_count p ≡ 2 ^ 48 + p
unfolding encode_sum_and_count
encode_price p h = bit_or_disjoint 48 1 p (omega arith)

accumulate-sum :
    (v : ℕ) (prices : List ℕ)
    → v < 2 ^ 64
    → Below (2 ^ 32) prices
    → accumulate v prices ≡ (v + length prices * 2 ^ 48 + total prices) % 2 ^ 64
accumulate-sum v [] hv h = omega arith
accumulate-sum v (p ∷ prices) hv h = omega (
  arith,
  encode_price p h.0,
  accumulate-sum ((v + encode_sum_and_count p) % 2 ^ 64) prices (omega arith) h.1,
)

-- A bin that counted `prices` from nothing decodes to their sum, up to its overflow at 2 ^ 48, and
-- to their number, up to that overflow and its own at 2 ^ 16.
pub decode-accumulate :
    (prices : List ℕ)
    → Below (2 ^ 32) prices
    → decode_sum_and_count (accumulate 0 prices)
      ≡ (total prices % 2 ^ 48, (length prices + total prices / 2 ^ 48) % 2 ^ 16)
unfolding decode_sum_and_count
decode-accumulate prices h = rw (accumulate-sum 0 prices (omega arith) h) (ground arith)

-- Below those bounds the aggregates are exact.
pub aggregates_exact :
    (prices : List ℕ)
    → Below (2 ^ 32) prices
    → length prices < 2 ^ 16
    → total prices < 2 ^ 48
    → decode_sum_and_count (accumulate 0 prices) ≡ (total prices, length prices)
aggregates_exact prices h few small = rw (decode-accumulate prices h) (ground arith)

total-bound :
    (prices : List ℕ) → Below (2 ^ 32) prices → total prices ≤ length prices * (2 ^ 32 - 1)
total-bound [] h = omega arith
total-bound (p ∷ prices) h = omega (arith, h.0, total-bound prices h.1)

-- Fewer than 2 ^ 16 prices of 32 bits fit the 48 bits of the sum.
pub total-fits :
    (prices : List ℕ) → Below (2 ^ 32) prices → length prices < 2 ^ 16 → total prices < 2 ^ 48
total-fits prices h few = omega (arith, total-bound prices h)

pub decode-parts :
    (n t : ℕ) → n < 2 ^ 16 → t < 2 ^ 48 → decode_sum_and_count ((n * 2 ^ 48 + t) % 2 ^ 64) ≡ (t, n)
unfolding decode_sum_and_count
decode-parts n t hn ht = ground arith

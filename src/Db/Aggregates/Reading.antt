-- ===== src/Db/Aggregates/Reading.antt =====
-- `Get` of src/pkg/db/aggregates.go, on the records of a minute.
use allezon.Base.{ℕ, ◌≡◌, String, true, Option, none, some, List, [], ◌∷◌, ok, ℤ, eq_ℤ, arith}
use allezon.Base.Decimal.Laws.{IsInt64}
use allezon.Db.{ActionAggregates, AggregateKey, IsAggregateKey}
use allezon.Db.Aerospike.{Key, Bins, scalar, int}
use allezon.Db.Aggregates.{read_record}
use allezon.Db.Aggregates.Codec.{to_key, decode_sum_and_count}
use allezon.Db.Aggregates.Encoding.{decode_key-to_key}

-- What a record of one minute holds: its key, and the bin of one action if that is present.
abbrev pub Entry : Type 0
Entry = AggregateKey × Option ℕ

abbrev pub entry_bins : String → Option ℕ → Bins
entry_bins bin_name none = []
entry_bins bin_name (some v) = (bin_name, scalar (int v)) ∷ []

abbrev pub counted : AggregateKey → ℕ → ActionAggregates
counted k v = record {
  key = k;
  sum = (decode_sum_and_count v).0;
  count = (decode_sum_and_count v).1;
}

-- The entries that have the bin, decoded.
abbrev pub aggregates_of : List Entry → List ActionAggregates
aggregates_of [] = []
aggregates_of ((k, none) ∷ entries) = aggregates_of entries
aggregates_of ((k, some v) ∷ entries) = counted k v ∷ aggregates_of entries

eq_ℤ_refl : (a : ℤ) → eq_ℤ a a ≡ true
eq_ℤ_refl a = ground arith

pub read_record-entry :
    (ts : ℤ) (k : AggregateKey) (v : ℕ) (key : Key)
    → IsInt64 ts
    → IsAggregateKey k
    → key.value ≡ some (to_key ts k)
    → read_record ts (scalar (int v)) key ≡ ok (counted k v)
unfolding read_record
read_record-entry ts k v key hts hk named =
    let (code, read, is) = decode_key-to_key ts k key hts hk named in rw (read, eq_ℤ_refl ts, is)

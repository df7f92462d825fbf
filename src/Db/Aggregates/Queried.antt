-- ===== src/Db/Aggregates/Queried.antt =====
-- `Get` of src/pkg/db/aggregates.go, and the query that it makes.
use allezon.Base.{
  ℕ, ◌≡◌, inl, inr, refl, ap, String, Bool, true, false, ◌||◌, Option, none, some, List, [], ◌∷◌,
  map, All, Result, ok, err, panic, ℤ, int64_pattern, pos, negsuc, ◌>>=◌, arith, str_eq, eq_iff,
  eq_refl, Bool-cases, ◌==◌,
}
use allezon.Base.Decimal.Laws.{IsInt64}
use allezon.Db.{ActionAggregates}
use allezon.Db.Aerospike.{Database, Key, Record, Statement, Value, bin}
use allezon.Db.Aggregates.{
  aggregates_namespace, aggregates_set, aggregates_ts_bin, read_results, read_result, read_bin,
  read_record,
}
use allezon.Db.Aggregates.Reading.{entry_bins}
use allezon.Db.Aggregates.Writing.{AggregatesLaws}
use allezon.Db.Aggregates.Counting.{Event, IsEvent, AllEvents}
use allezon.Db.Aggregates.Held.{named, record_name}

unfoldable pub member : String → List String → Bool
member n [] = false
member n (m ∷ names) = str_eq m n || member n names

unfoldable pub DistinctNames : List String → Type 0
DistinctNames [] = Unit {0}
DistinctNames (n ∷ names) = (member n names ≡ false) × DistinctNames names

-- Whether a bin has the value of a filter
abbrev pub selects : ℕ → Option ℕ → Bool
selects v none = false
selects v (some w) = w == v

-- The query of `Get`
abbrev pub minute_statement : ℤ → String → Statement
minute_statement ts bin_name = record {
  namespace = aggregates_namespace;
  set_name = aggregates_set;
  bin_name = bin_name;
  filter_bin = aggregates_ts_bin;
  filter_value = ts;
}

-- What the database documents of the query: its results, if none is an error, are the records whose
-- bin has the value of the filter, each once and in any order, with the one bin that is asked for,
-- and with the key that `SendKey` has stored.
pub record QueryLaws {S : Type 0} (db : Database S) (laws : AggregatesLaws db) : Type 0 where
  pub stored : S → String → String → Record
  pub stored-value : (s : S) (b n : String) → (stored s b n).key.value ≡ some n
  pub stored-bins : (s : S) (b n : String) → (stored s b n).bins ≡ entry_bins b (laws.cell s n b)
  pub query-ok :
      (ts : ℤ) (b : String) (s : S) (records : List Record)
      → db.query (minute_statement ts b) s ≡ ok (map (λ r. ok r) records)
      → (names : List String) × (records ≡ map (stored s b) names)
        × DistinctNames names
        × ((n : String)
            → member n names ≡ selects (int64_pattern ts) (laws.cell s n aggregates_ts_bin))

rest_ok :
    (r : Result ActionAggregates) (rest : Result (List ActionAggregates))
    (aggs : List ActionAggregates)
    → (r >>= λ a. rest >>= λ aggs. ok (a ∷ aggs)) ≡ ok aggs
    → (others : List ActionAggregates) × (rest ≡ ok others)
rest_ok (ok a) (ok others) aggs h = (others, refl)
rest_ok (ok a) (err e) aggs h = cc
rest_ok (ok a) panic aggs h = cc
rest_ok (err e) rest aggs h = cc
rest_ok panic rest aggs h = cc

read_bin-rest :
    (ts : ℤ) (key : Key) (o : Option Value) (rest : Result (List ActionAggregates))
    (aggs : List ActionAggregates)
    → read_bin ts key o rest ≡ ok aggs
    → (others : List ActionAggregates) × (rest ≡ ok others)
unfolding read_bin
read_bin-rest ts key none rest aggs h = (aggs, h)
read_bin-rest ts key (some raw) rest aggs h = rest_ok (read_record ts raw key) rest aggs h

-- The loop of `Get` succeeds only if no result is an error.
pub all_ok :
    (ts : ℤ) (b : String) (results : List (Result Record)) (aggs : List ActionAggregates)
    → read_results ts b results ≡ ok aggs
    → (records : List Record) × (results ≡ map (λ r. ok r) records)
unfolding read_results read_result
all_ok ts b [] aggs h = ([], refl)
all_ok ts b (err e ∷ results) aggs h = cc
all_ok ts b (panic ∷ results) aggs h = cc
all_ok ts b (ok r ∷ results) aggs h =
    let (others, rest) = read_bin-rest ts r.key (bin b r.bins) (read_results ts b results) aggs h in
    let (records, is) = all_ok ts b results others rest in (r ∷ records, ap (λ l. ok r ∷ l) is)

pub pattern_injective :
    (a b : ℤ) → IsInt64 a → IsInt64 b → (int64_pattern a == int64_pattern b) ≡ true → a ≡ b
pattern_injective (pos m) (pos n) ha hb h = ground arith
pattern_injective (pos m) (negsuc n) ha hb h = ground arith
pattern_injective (negsuc m) (pos n) ha hb h = ground arith
pattern_injective (negsuc m) (negsuc n) ha hb h = ground arith

-- A name of an event's record is made of that event.
pub named-event :
    (n : String) (events : List Event)
    → AllEvents events
    → named n events ≡ true
    → (e : Event) × IsEvent e × (n ≡ record_name e)
unfolding named
named-event n [] h is = cc
named-event n (e ∷ events) h is = elim (Bool-cases (str_eq n (record_name e))) [
  | inl here ↦ (e, h.0, (eq_iff n (record_name e)).0 here)
  | inr elsewhere ↦ named-event n events h.1 (rw elsewhere at is)
]

pub members-All :
    (P : String → Type 0) (names : List String)
    → ((n : String) → member n names ≡ true → P n)
    → All P names
unfolding member
members-All P [] h = tt
members-All P (n ∷ names) h =
    (h n (rw (eq_refl n)), members-All P names (λ m is. h m (rw is (ground arith))))

-- ===== src/Api/Aggregates/Answered.antt =====
-- The aggregates that src/cmd/api/server/aggregates.go answers with, by the tags that
-- src/pkg/db/aggregates.go has added.
use allezon.Base.{
  ℕ, ◌+◌, ◌%◌, ◌^◌, ◌<◌, ◌≡◌, inl, inr, refl, sym, ap, ap₂, ◌∙◌, Option, none, some, List, [], ◌∷◌,
  All, ℤ, arith, length, Bool-cases, if◌then◌else◌,
}
use allezon.Base.Decimal.Laws.{IsInt64}
use allezon.Types.Roundtrip.{IsAction}
use allezon.Db.{AggregateKey, ActionAggregates, IsAggregateKey}
use allezon.Db.Aerospike.{Database}
use allezon.Db.Aggregates.Codec.{to_key, decode_sum_and_count}
use allezon.Db.Aggregates.Encoding.{total, total-fits, decode-parts}
use allezon.Db.Aggregates.Reading.{Entry, aggregates_of}
use allezon.Db.Aggregates.Writing.{AggregatesLaws, action_bin, or_zero}
use allezon.Db.Aggregates.Counting.{Event, AllEvents, prices_of, prices_of-Below, counter}
use allezon.Db.Aggregates.Held.{Counts}
use allezon.Db.Aggregates.Tallied.{
  weigh, weigh-total, weigh-length, matched, tally, tally-cong, tally-matched,
}
use allezon.Db.Aggregates.Queried.{QueryLaws}
use allezon.Db.Aggregates.Found.{entries_at, Finds}
use allezon.Api.Aggregates.{Filters, matches_key, filter_aggregates}
use allezon.Api.Aggregates.Filtered.{sums, counts, matching, filter_aggregates-sums}

-- At most 2 ^ 16 - 1 tags have a key in a minute and an action.
abbrev pub AreFew : ℤ → ℕ → List Event → Type 0
AreFew ts a events =
    (k : AggregateKey) → IsAggregateKey k → length (prices_of ts k a events) < 2 ^ 16

abbrev decoded : Option ℕ → ℕ × ℕ
decoded o = decode_sum_and_count (or_zero o)

-- A bin that is missing counts as 0.
one_entry :
    (f : Filters) (k : AggregateKey) (o : Option ℕ) (entries : List Entry)
    → let shown = λ (entries : List Entry). matching f (aggregates_of entries) in
      (sums (shown ((k, o) ∷ entries))
        ≡ (if matches_key f k then (decoded o).0 else 0) + sums (shown entries))
      × (counts (shown ((k, o) ∷ entries))
          ≡ (if matches_key f k then (decoded o).1 else 0) + counts (shown entries))
unfolding sums counts decode_sum_and_count
one_entry f k none entries = elim (Bool-cases (matches_key f k)) [
  | inl passes ↦ rw passes (omega arith, omega arith)
  | inr fails ↦ rw fails (omega arith, omega arith)
]
one_entry f k (some v) entries = elim (Bool-cases (matches_key f k)) [
  | inl passes ↦ rw passes (omega arith, omega arith)
  | inr fails ↦ rw fails (omega arith, omega arith)
]

module _ {S : Type 0} (db : Database S) (laws : AggregatesLaws db) where
  -- The sums and the counts that the filter lets through, bin by bin
  matching-tally :
      (f : Filters) (s : S) (ts : ℤ) (a : ℕ) (keys : List AggregateKey)
      → let shown = matching f (aggregates_of (entries_at db laws s ts a keys)) in
        let bins = λ (k : AggregateKey). decode_sum_and_count (counter db laws s ts k a) in
        (sums shown ≡ tally (matches_key f) (λ k. (bins k).0) keys)
        × (counts shown ≡ tally (matches_key f) (λ k. (bins k).1) keys)
  unfolding tally sums counts
  matching-tally f s ts a [] = (refl, refl)
  matching-tally f s ts a (k ∷ keys) =
      let (p, q) = matching-tally f s ts a keys in
      let (first, second) =
        one_entry f k (laws.cell s (to_key ts k) (action_bin a)) (entries_at db laws s ts a keys) in
      (rw p at first, rw q at second)

  -- A bin decodes to the price and the number of its tags.
  counter-decoded :
      (ts : ℤ) (k : AggregateKey) (a : ℕ) (events : List Event) (s : S)
      → IsInt64 ts
      → IsAggregateKey k
      → IsAction a
      → AllEvents events
      → Counts db laws s events
      → AreFew ts a events
      → decode_sum_and_count (counter db laws s ts k a)
        ≡ (total (prices_of ts k a events), length (prices_of ts k a events))
  counter-decoded ts k a events s hts hk ha h holds few =
      let prices = prices_of ts k a events in
      rw (holds.counters ts k a hts hk ha) (
        decode-parts (length prices) (total prices) (few k hk)
          (total-fits prices (prices_of-Below ts k a events h) (few k hk)))

  all_decoded :
      (ts : ℤ) (a : ℕ) (events : List Event) (s : S) (keys : List AggregateKey)
      → IsInt64 ts
      → IsAction a
      → AllEvents events
      → Counts db laws s events
      → AreFew ts a events
      → All IsAggregateKey keys
      → All
          (λ k.
            (decode_sum_and_count (counter db laws s ts k a)).0
            ≡ weigh (λ p. p) (prices_of ts k a events))
          keys
        × All
            (λ k.
              (decode_sum_and_count (counter db laws s ts k a)).1
              ≡ weigh (λ p. 1) (prices_of ts k a events))
            keys
  all_decoded ts a events s [] hts ha h holds few hk = (tt, tt)
  all_decoded ts a events s (k ∷ keys) hts ha h holds few hk =
      let (p, q) = all_decoded ts a events s keys hts ha h holds few hk.1 in
      let is = counter-decoded ts k a events s hts hk.0 ha h holds few in
      let prices = prices_of ts k a events in
      (
        (ap (λ d. d.0) is ∙ sym (weigh-total prices), p),
        (ap (λ d. d.1) is ∙ sym (weigh-length prices), q),
      )

  module _ (query : QueryLaws db laws) where
    -- What `Get` finds sums up to the tags of the minute that the filters let through.
    pub filter_aggregates-matched :
        (f : Filters) (ts : ℤ) (a : ℕ) (events : List Event) (s : S) (found : List ActionAggregates)
        → IsInt64 ts
        → IsAction a
        → AllEvents events
        → Counts db laws s events
        → AreFew ts a events
        → Finds db laws query s ts a events found
        → filter_aggregates found f ≡ (
          total (matched (matches_key f) ts a events) % 2 ^ 64,
          length (matched (matches_key f) ts a events) % 2 ^ 64,
        )
    filter_aggregates-matched f ts a events s found hts ha h holds few finds =
        let keys = finds.keys in
        let tags = matched (matches_key f) ts a events in
        let (p, q) = matching-tally f s ts a keys in
        let (decoded_sums, decoded_counts) =
          all_decoded ts a events s keys hts ha h holds few finds.valid in
        let sum_is : sums (matching f found) ≡ total tags =
          ap (λ found. sums (matching f found)) finds.is
          ∙ p
          ∙ tally-cong (matches_key f) _ _ keys decoded_sums
          ∙ tally-matched (matches_key f) (λ p. p) ts a events keys finds.distinct finds.covers
          ∙ weigh-total tags in
        let count_is : counts (matching f found) ≡ length tags =
          ap (λ found. counts (matching f found)) finds.is
          ∙ q
          ∙ tally-cong (matches_key f) _ _ keys decoded_counts
          ∙ tally-matched (matches_key f) (λ p. 1) ts a events keys finds.distinct finds.covers
          ∙ weigh-length tags in
        filter_aggregates-sums f found ∙ ap₂ (λ x y. (x % 2 ^ 64, y % 2 ^ 64)) sum_is count_is

-- ===== src/Api/Aggregates/Counted.antt =====
-- The table of `aggregates` of src/cmd/api/server/aggregates.go, over the database of
-- src/pkg/db/aggregates.go.
use allezon.Base.{
  ℕ, zero, suc, ◌+◌, ◌*◌, ◌%◌, ◌^◌, ◌<◌, ◌≤◌, ◌≡◌, sym, ap, ap₂, subst, ◌∙◌, String, true, false,
  List, [], ◌∷◌, map, ok, ℤ, pos, negsuc, quot, arith, length,
}
use allezon.Base.Exec.{Exec, ◌>>=◌, return, wrapping, >>=-ok, wrapping-ok, return-ok}
use allezon.Base.Decimal.Laws.{IsInt64}
use allezon.Time.{Time, unix, minute, before, seconds}
use allezon.Types.{Aggregate}
use allezon.Types.Roundtrip.{IsAction}
use allezon.Db.{ActionAggregates, AggregatesClient}
use allezon.Db.Aerospike.{Database}
use allezon.Db.Aggregates.Codec.{to_ts}
use allezon.Db.Aggregates.Client.{get, aggregates}
use allezon.Db.Aggregates.Encoding.{total}
use allezon.Db.Aggregates.Writing.{AggregatesLaws}
use allezon.Db.Aggregates.Counting.{Event, AllEvents}
use allezon.Db.Aggregates.Held.{Counts}
use allezon.Db.Aggregates.Tallied.{matched}
use allezon.Db.Aggregates.Queried.{QueryLaws}
use allezon.Db.Aggregates.Found.{get-Finds}
use allezon.Db.Aggregates.Indexed.{IndexLaws, Counts-same, aggregates-ok}
use allezon.Dto.{TimeText}
use allezon.Api.{Server}
use allezon.Api.Aggregates.{
  Filters, FetchParams, matches_key, filter_aggregates, row_of, minutes, rows_from,
}
use allezon.Api.Aggregates.Table.{instants, before-minutes, minutes-before, minutes-next}
use allezon.Api.Aggregates.Answered.{AreFew, filter_aggregates-matched}

-- The instants whose minute is an int64: Go's own have seconds that are.
abbrev pub last_instant : ℕ
last_instant = 2 ^ 63 * seconds

quot-IsInt64 : (a : ℤ) → IsInt64 a → IsInt64 (quot a 60)
unfolding quot
quot-IsInt64 (pos n) h = (omega (arith, h.0), omega arith)
quot-IsInt64 (negsuc n) h = ground arith

pub to_ts-IsInt64 : (t : Time) → t ≤ last_instant → IsInt64 (to_ts t)
unfolding to_ts
to_ts-IsInt64 t h = let in_range : IsInt64 (unix t) = ground arith in quot-IsInt64 (unix t) in_range

is_before : (t u : Time) → before t u ≡ true → t < u
is_before t u h = ground arith

-- The row of a minute by the tags that have been added
abbrev pub counted_row :
    TimeText → Filters → List Aggregate → FetchParams → List Event → Time → List String
counted_row text f aggs params events t =
    let tags = matched (matches_key f) (to_ts t) params.action events in
    row_of text aggs params t (total tags % 2 ^ 64) (length tags % 2 ^ 64)

module _ {S : Type 0} (s : Server S) (db : Database S) (laws : AggregatesLaws db)
    (query : QueryLaws db laws) (index : IndexLaws db laws)
    (client : s.aggregates_db.aggregates ≡ aggregates db) where
  -- One pass of the loop
  pass-counted :
      (f : Filters) (params : FetchParams) (events : List Event) (t : Time) (st st' : S)
      (c : AggregatesClient S) (st₁ : S) (found : List ActionAggregates)
      → t ≤ last_instant
      → IsAction params.action
      → AllEvents events
      → Counts db laws st events
      → ((ts : ℤ) → AreFew ts params.action events)
      → s.aggregates_db.aggregates st ≡ (ok c, st₁)
      → wrapping (c.get t params.action) st₁ ≡ (ok found, st')
      → (filter_aggregates found f ≡ (
        total (matched (matches_key f) (to_ts t) params.action events) % 2 ^ 64,
        length (matched (matches_key f) (to_ts t) params.action events) % 2 ^ 64,
      ))
        × Counts db laws st' events
  pass-counted f params events t st st' c st₁ found late ha h holds few opened got =
      let a = params.action in
      let hts = to_ts-IsInt64 t late in
      let (is, same) = aggregates-ok db laws st st₁ c index (rw client at opened) in
      let held = Counts-same db laws events st st₁ same holds in
      let asked : get db t a st₁ ≡ (ok found, st') =
        ap (λ (c : AggregatesClient S). c.get t a st₁) (sym is)
        ∙ wrapping-ok (c.get t a) st₁ found st' got in
      let (finds, left) = get-Finds db laws query t a events st₁ st' found hts ha h held asked in
      (
        filter_aggregates-matched db laws query f (to_ts t) a events st₁ found hts ha h held
            (few (to_ts t)) finds,
        subst (λ st. Counts db laws st events) (sym left) held,
      )

  -- The loop adds one row for each minute, of the tags that are counted in it.
  pub rows_from-counted :
      (f : Filters) (aggs : List Aggregate) (params : FetchParams) (events : List Event)
      (fuel n : ℕ) (t : Time) (st st' : S) (rows : List (List String))
      → n ≤ fuel
      → minutes t params.to ≡ n
      → params.to ≤ last_instant
      → IsAction params.action
      → AllEvents events
      → Counts db laws st events
      → ((ts : ℤ) → AreFew ts params.action events)
      → rows_from s f aggs params fuel t st ≡ (ok rows, st')
      → rows ≡ map (counted_row s.time_text f aggs params events) (instants n t)
  unfolding rows_from instants
  rows_from-counted f aggs params events zero zero t st st' rows le is late ha h holds few done =
      sym (return-ok [] rows st st' done).0
  rows_from-counted f aggs params events zero (suc n) t st st' rows le is late ha h holds few done =
      absurd (omega arith)
  rows_from-counted f aggs params events (suc fuel) zero t st st' rows le is late ha h holds few
        done =
      let stops : before t params.to ≡ false = before-minutes t params.to is in
      sym (return-ok [] rows st st' (rw stops at done)).0
  rows_from-counted f aggs params events (suc fuel) (suc n) t st st' rows le is late ha h holds few
        done =
      let goes : before t params.to ≡ true = minutes-before t params.to n is in
      let next : minutes (t + minute) params.to ≡ n = minutes-next t params.to n is in
      let row : List ActionAggregates → List String = λ found.
        row_of s.time_text aggs params t (filter_aggregates found f).0
          (filter_aggregates found f).1 in
      let finish : List ActionAggregates → List (List String) → Exec S (List (List String)) =
        λ found rest. return (row found ∷ rest) in
      let go : List ActionAggregates → Exec S (List (List String)) =
        λ found. rows_from s f aggs params fuel (t + minute) >>= finish found in
      let ask : AggregatesClient S → Exec S (List (List String)) =
        λ c. wrapping (c.get t params.action) >>= go in
      let (c, st₁, opened, asked) =
        >>=-ok s.aggregates_db.aggregates ask st rows st' (rw goes at done) in
      let (found, st₂, got, rest_done) =
        >>=-ok (wrapping (c.get t params.action)) go st₁ rows st' asked in
      let (rest, st₃, rest_is, returned) =
        >>=-ok (rows_from s f aggs params fuel (t + minute)) (finish found) st₂ rows st'
          rest_done in
      let (counted, held) =
        pass-counted f params events t st st₂ c st₁ found
          (omega (arith, is_before t params.to goes)) ha h holds few opened got in
      let others =
        rows_from-counted f aggs params events fuel n (t + minute) st₂ st₃ rest (omega (arith, le))
          next late ha h held few rest_is in
      sym (return-ok (row found ∷ rest) rows st₃ st' returned).0
      ∙ ap₂ (λ sums rest. row_of s.time_text aggs params t sums.0 sums.1 ∷ rest) counted others

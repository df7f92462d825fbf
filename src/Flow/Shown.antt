-- ===== src/Flow/Shown.antt =====
-- From the tags that src/cmd/worker/worker has processed to the rows that src/cmd/api/server/aggregates.go
-- answers with, by the minutes of the clock.
use allezon.Base.{ℕ, ◌^◌, ◌<◌, ◌≤◌, ◌≡◌, ap₂, ◌∙◌, String, false, List, map, All, ok}
use allezon.Types.{UserTag, Aggregate}
use allezon.Types.Roundtrip.{IsAction}
use allezon.Db.{AggregateKey}
use allezon.Db.Aerospike.{Database}
use allezon.Db.Aggregates.Client.{add_tag, aggregates}
use allezon.Db.Aggregates.Writing.{AggregatesLaws}
use allezon.Db.Aggregates.Held.{RecordsLaws}
use allezon.Db.Aggregates.Queried.{QueryLaws}
use allezon.Db.Aggregates.Indexed.{records_of, IndexLaws}
use allezon.Db.Aggregates.Minutes.{from_1970}
use allezon.Dto.{AggregatesDto}
use allezon.Api.{Server}
use allezon.Api.Aggregates.{FetchParams, minutes}
use allezon.Api.Aggregates.Table.{instants}
use allezon.Api.Aggregates.Counted.{last_instant}
use allezon.Flow.{NumbersLaws, Stays}
use allezon.Flow.Processed.{IsCountable, process, aggregates_client}
use allezon.Flow.Counted.{processed-answered}
use allezon.Flow.Clock.{
  IsLate, clock_tags, row_shown, columns_shown, few_at, columns-shown, rows-shown,
}
use allezon.Api

module _ {S : Type 0} (s : Server S) (db : Database S) (laws : AggregatesLaws db)
    (more : RecordsLaws db laws) (query : QueryLaws db laws) (index : IndexLaws db laws)
    (numbers : NumbersLaws (records_of db laws) s.id_getter)
    (opens : s.aggregates_db.aggregates ≡ aggregates db)
    (add-stays : (k : AggregateKey) (tag : UserTag) (st : S)
      → Stays (records_of db laws) s.id_getter numbers st (add_tag db k tag st).1)
    (add-ready : (k : AggregateKey) (tag : UserTag) (st : S)
      → numbers.is_ready st
      → numbers.is_ready (add_tag db k tag st).1) where
  -- If the database starts without aggregates and behaves as documented, and the service of ids is
  -- ready, keeps what it has numbered and tells it apart, then after the worker has processed tags
  -- from 1970 on with success, an aggregates answer of the API service that starts in 1970 or later
  -- has the columns of the request and one row for each instant, a minute apart, from the start of
  -- the request to before its end. The row has the text of the instant, the action, the strings
  -- that the request names, and, in the order of the request, the sum of the prices and the number,
  -- wrapped at 64 bits, of exactly the processed tags in the instant's minute of the clock that have
  -- the action and the origin, the brand and the category that the request names. Each minute has
  -- fewer than 2 ^ 16 tags of the action, and all values are in range.
  pub processed-shown :
      (aggs : List Aggregate) (params : FetchParams) (tags : List UserTag) (st₀ st st' : S)
      (answer : AggregatesDto)
      → from_1970 ≤ params.from
      → params.to ≤ last_instant
      → IsAction params.action
      → All IsCountable tags
      → All IsLate tags
      → ((m : ℕ) → clock_tags m params.action tags < 2 ^ 16)
      → numbers.is_ready st₀
      → ((n : String) → laws.has st₀ n ≡ false)
      → process s.id_getter (aggregates_client db) tags st₀ ≡ (ok tt, st)
      → Api.Aggregates.aggregates s aggs params st ≡ (ok answer, st')
      → answer ≡ record {
        columns = columns_shown aggs params;
        rows =
            map
              (row_shown s.time_text aggs params tags)
              (instants (minutes params.from params.to) params.from);
      }
  processed-shown aggs params tags st₀ st st' answer from to ha valid late few ready empty processed
        done =
      processed-answered s db laws more query index numbers opens add-stays add-ready aggs params
        tags st₀ st st' answer to ha valid (few_at params.action tags late few) ready empty
        processed done
      ∙ ap₂ (λ columns rows. record { columns = columns; rows = rows }) (columns-shown aggs params)
          (rows-shown s.time_text aggs params tags (minutes params.from params.to) params.from ha
            late from)

-- ===== src/Flow/Counted.antt =====
-- From the tags that the worker has processed to the rows of the API service's answer.
use allezon.Base.{
  ◌%◌, ◌^◌, ◌<◌, ◌≤◌, ◌≡◌, ap, ◌∙◌, String, false, List, map, All, ok, ℤ, arith, length,
}
use allezon.Time.{Time}
use allezon.Types.{UserTag, Aggregate}
use allezon.Types.Roundtrip.{IsAction}
use allezon.Db.{AggregateKey}
use allezon.Db.Aerospike.{Database}
use allezon.Db.Aggregates.Client.{add_tag, aggregates}
use allezon.Db.Aggregates.Codec.{to_ts}
use allezon.Db.Aggregates.Encoding.{total}
use allezon.Db.Aggregates.Writing.{AggregatesLaws}
use allezon.Db.Aggregates.Held.{RecordsLaws}
use allezon.Db.Aggregates.Tallied.{matched}
use allezon.Db.Aggregates.Queried.{QueryLaws}
use allezon.Db.Aggregates.Indexed.{records_of, IndexLaws}
use allezon.Dto.{AggregatesDto}
use allezon.Api.{Server}
use allezon.Api.Aggregates.{
  Filters, FetchParams, check_filter, matches_key, row_of, minutes, get_id, new_filters,
  new_columns,
}
use allezon.Api.Aggregates.Table.{instants}
use allezon.Api.Aggregates.Answered.{AreFew}
use allezon.Api.Aggregates.Counted.{last_instant, counted_row}
use allezon.Api.Aggregates.Shown.{aggregates-Counts}
use allezon.Flow.{NumbersLaws, Names-Stays, Stays}
use allezon.Flow.Processed.{IsCountable, process, aggregates_client, Holds, process-Holds}
use allezon.Api
use allezon.Flow.Answered.{
  tag_row, tags_at, prices_shown, prices_of-few, new_filters-Filtered, matched-prices_shown,
}

module _ {S : Type 0} (s : Server S) (db : Database S) (laws : AggregatesLaws db)
    (more : RecordsLaws db laws) (query : QueryLaws db laws) (index : IndexLaws db laws)
    (numbers : NumbersLaws (records_of db laws) s.id_getter)
    (opens : s.aggregates_db.aggregates ≡ aggregates db)
    (add-stays : (k : AggregateKey) (tag : UserTag) (st : S)
      → Stays (records_of db laws) s.id_getter numbers st (add_tag db k tag st).1)
    (add-ready : (k : AggregateKey) (tag : UserTag) (st : S)
      → numbers.is_ready st
      → numbers.is_ready (add_tag db k tag st).1) where
  answer-Holds :
      (aggs : List Aggregate) (params : FetchParams) (tags : List UserTag) (st st' : S)
      (answer : AggregatesDto)
      → params.to ≤ last_instant
      → IsAction params.action
      → ((ts : ℤ) → tags_at ts params.action tags < 2 ^ 16)
      → Holds db laws more s.id_getter numbers add-stays add-ready st tags
      → Api.Aggregates.aggregates s aggs params st ≡ (ok answer, st')
      → answer ≡ record {
        columns = new_columns aggs params;
        rows =
            map
              (tag_row s.time_text aggs params tags)
              (instants (minutes params.from params.to) params.from);
      }
  answer-Holds aggs params tags st st' answer late ha few holds done =
      let events = holds.events in
      let few_events : (ts : ℤ) → AreFew ts params.action events = λ ts k hk. omega (
        arith,
        prices_of-few ts k params.action events,
        few ts,
        ap (tags_at ts params.action) holds.are,
      ) in
      let (f, st₁, made, is) =
        aggregates-Counts s db laws query index opens numbers.get_id-Keeps aggs params events st st'
          answer late ha holds.valid holds.counts few_events done in
      let (chosen, stays) =
        new_filters-Filtered s db laws numbers params f st st₁ holds.ready made in
      let named =
        Names-Stays (records_of db laws) s.id_getter numbers st st₁ stays events holds.named in
      let prices : (ts : ℤ)
          → matched (matches_key f) ts params.action events ≡ prices_shown params ts tags =
        λ ts.
          matched-prices_shown s db laws numbers st₁ params f ts events chosen named
          ∙ ap (prices_shown params ts) holds.are in
      let row : (t : Time)
          → counted_row s.time_text f aggs params events t
            ≡ tag_row s.time_text aggs params tags t =
        λ t.
          ap (λ p. row_of s.time_text aggs params t (total p % 2 ^ 64) (length p % 2 ^ 64))
            (prices (to_ts t)) in
      is
      ∙ ap
          (λ (row : Time → List String). record {
            columns = new_columns aggs params;
            rows = map row (instants (minutes params.from params.to) params.from);
          })
          (λ i t. row t i)

  -- If the database starts without aggregates and behaves as documented, and the service of ids
  -- is ready, keeps what it has numbered and tells it apart, then after the worker has processed
  -- tags with success, an aggregates answer of the API service has the columns of the request and
  -- one row for each of its minutes, with the number and the prices' sum, wrapped at 64 bits, of
  -- exactly the processed tags of that minute and action that have the origin, the brand and the
  -- category that the request names; each minute has fewer than 2 ^ 16 tags of the action, and
  -- all values are in range.
  pub processed-answered :
      (aggs : List Aggregate) (params : FetchParams) (tags : List UserTag) (st₀ st st' : S)
      (answer : AggregatesDto)
      → params.to ≤ last_instant
      → IsAction params.action
      → All IsCountable tags
      → ((ts : ℤ) → tags_at ts params.action tags < 2 ^ 16)
      → numbers.is_ready st₀
      → ((n : String) → laws.has st₀ n ≡ false)
      → process s.id_getter (aggregates_client db) tags st₀ ≡ (ok tt, st)
      → Api.Aggregates.aggregates s aggs params st ≡ (ok answer, st')
      → answer ≡ record {
        columns = new_columns aggs params;
        rows =
            map
              (tag_row s.time_text aggs params tags)
              (instants (minutes params.from params.to) params.from);
      }
  processed-answered aggs params tags st₀ st st' answer late ha valid few ready empty processed
        done =
      answer-Holds aggs params tags st st' answer late ha few
        (process-Holds db laws more s.id_getter numbers add-stays add-ready tags st₀ st ready empty
          valid processed)
        done

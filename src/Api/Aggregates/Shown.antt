-- ===== src/Api/Aggregates/Shown.antt =====
-- The whole answer of `aggregates` of src/cmd/api/server/aggregates.go, over the database of
-- src/pkg/db/aggregates.go.
use allezon.Base.{
  ℕ, ◌≤◌, ◌≡◌, refl, sym, ap, ◌∙◌, String, Bool, false, Option, none, some, List, map, Result, ok,
  ℤ, arith,
}
use allezon.Base.Exec.{Exec, lift, ◌>>=◌, return, wrapping, >>=-ok, wrapping-ok, return-ok}
use allezon.Base.Keeps.{Keeps, >>=-Keeps, wrapping-Keeps}
use allezon.Types.{Aggregate}
use allezon.Types.Roundtrip.{IsAction}
use allezon.Db.Aerospike.{Database}
use allezon.Db.Aggregates.Client.{aggregates}
use allezon.Db.Aggregates.Writing.{AggregatesLaws}
use allezon.Db.Aggregates.Counting.{Event, AllEvents}
use allezon.Db.Aggregates.Held.{Counts}
use allezon.Db.Aggregates.Queried.{QueryLaws}
use allezon.Db.Aggregates.Indexed.{records_of, IndexLaws, Counts-same}
use allezon.Dto.{AggregatesDto}
use allezon.IdClient.{
  get_u16_id, check_u16, origin_collection, brand_collection, category_collection,
}
use allezon.Api
use allezon.Api.{Server}
use allezon.Api.Aggregates.{
  Filters, FetchParams, matches_key, filter_aggregates, row_of, minutes, rows_from, get_id,
  new_filters, new_columns,
}
use allezon.Api.Aggregates.Table.{instants}
use allezon.Api.Aggregates.Answered.{AreFew}
use allezon.Api.Aggregates.Counted.{last_instant, counted_row, rows_from-counted}

module _ {S : Type 0} (s : Server S) (db : Database S) (laws : AggregatesLaws db)
    (query : QueryLaws db laws) (index : IndexLaws db laws)
    (client : s.aggregates_db.aggregates ≡ aggregates db)
    (ids : (c e : String) (b : Bool) → Keeps (records_of db laws) (s.id_getter.get_id c e b)) where
  get_id-Keeps : (c : String) (o : Option String) → Keeps (records_of db laws) (get_id s c o)
  unfolding get_id get_u16_id
  get_id-Keeps c none = λ st. refl
  get_id-Keeps c (some e) =
      let v = records_of db laws in
      let ask = s.id_getter.get_id c e false in
      >>=-Keeps v (wrapping (ask >>= λ id. lift (check_u16 id))) (λ id. return (some id))
        (wrapping-Keeps v (ask >>= λ id. lift (check_u16 id))
          (>>=-Keeps v ask (λ id. lift (check_u16 id)) (ids c e false) (λ id st. refl)))
        (λ id st. refl)

  new_filters-Keeps :
      (origin brand category : Option String)
      → Keeps (records_of db laws) (new_filters s origin brand category)
  unfolding new_filters
  new_filters-Keeps origin brand category =
      let v = records_of db laws in
      let done : Option ℕ → Option ℕ → Option ℕ → Exec S Filters =
        λ o c b. return (record { origin_id = o; brand_id = b; category_id = c }) in
      let last : Option ℕ → Option ℕ → Exec S Filters =
        λ o c. get_id s brand_collection brand >>= done o c in
      let after : Option ℕ → Exec S Filters =
        λ o. get_id s category_collection category >>= last o in
      >>=-Keeps v (get_id s origin_collection origin) after (get_id-Keeps origin_collection origin)
        (λ o.
          >>=-Keeps v (get_id s category_collection category) (last o)
            (get_id-Keeps category_collection category)
            (λ c.
              >>=-Keeps v (get_id s brand_collection brand) (done o c)
                (get_id-Keeps brand_collection brand) (λ b st. refl)))

  pub aggregates-Counts :
      (aggs : List Aggregate) (params : FetchParams) (events : List Event) (st st' : S)
      (answer : AggregatesDto)
      → params.to ≤ last_instant
      → IsAction params.action
      → AllEvents events
      → Counts db laws st events
      → ((ts : ℤ) → AreFew ts params.action events)
      → Api.Aggregates.aggregates s aggs params st ≡ (ok answer, st')
      → (f : Filters) × (st₁ : S) × (new_filters s params.origin params.brand_id params.category_id
            st
          ≡ (ok f, st₁))
        × (answer ≡ record {
          columns = new_columns aggs params;
          rows =
              map
                (counted_row s.time_text f aggs params events)
                (instants (minutes params.from params.to) params.from);
        })
  unfolding Api.Aggregates.aggregates
  aggregates-Counts aggs params events st st' answer late ha h holds few done =
      let filters = new_filters s params.origin params.brand_id params.category_id in
      let n = minutes params.from params.to in
      let finish : List (List String) → Exec S AggregatesDto =
        λ rows. return (record { columns = new_columns aggs params; rows = rows }) in
      let go : Filters → Exec S AggregatesDto =
        λ f. rows_from s f aggs params n params.from >>= finish in
      let (f, st₁, made, rest) = >>=-ok (wrapping filters) go st answer st' done in
      let (rows, st₂, looped, returned) =
        >>=-ok (rows_from s f aggs params n params.from) finish st₁ answer st' rest in
      let made_ok = wrapping-ok filters st f st₁ made in
      let same : records_of db laws st₁ ≡ records_of db laws st =
        ap (λ (o : Result Filters × S). records_of db laws o.1) (sym made_ok)
        ∙ new_filters-Keeps params.origin params.brand_id params.category_id st in
      let held = Counts-same db laws events st st₁ same holds in
      let rows_are =
        rows_from-counted s db laws query index client f aggs params events n n params.from st₁ st₂
          rows (omega arith) refl late ha h held few looped in
      (
        f,
        st₁,
        made_ok,
        sym
              (return-ok (record { columns = new_columns aggs params; rows = rows }) answer st₂ st'
                returned).0
            ∙ ap (λ rows. record { columns = new_columns aggs params; rows = rows }) rows_are,
      )

-- ===== src/Api/Aggregates.antt =====
-- src/cmd/api/server/aggregates.go. An identifier or count is its bit pattern; `uint64` sums wrap.
pub mod Filtered
pub mod Table
pub mod Shaped
pub mod Answered
pub mod Counted
pub mod Shown
use allezon.Base.{
  ℕ, zero, suc, ◌+◌, ◌-◌, ◌/◌, ◌%◌, ◌^◌, String, Bool, true, false, ◌&&◌, not, Option, none, some,
  List, [], ◌∷◌, ◌++◌, map, Error, Result, ok, err, panic, ltb, ◌==◌, if◌then◌else◌,
}
use allezon.Base.Exec.{Exec, ◌>>=◌, return, lift, wrapping}
use allezon.Base.Decimal.{natural_before}
use allezon.Time.{Time, minute, before}
use allezon.Types.{Action, Aggregate, sum, count, action_string}
use allezon.Db.{AggregateKey, ActionAggregates}
use allezon.Dto.{TimeText, AggregatesDto, to_action, to_aggregate, time_range_sec_precision_layout}
use allezon.Http.{
  Response, json, status_ok, status_bad_request, status_internal_server_error, or_abort,
}
use allezon.IdClient.{get_u16_id, origin_collection, brand_collection, category_collection}
use allezon.Api.{Server}
use allezon.Api.Requested.{convert_aggregates}
use allezon.Api.TimeRange.{parse_time_range, validate_aggregates_time_range}

pub record AggregatesRequest : Type 0 where
  pub time_range : String
  pub action : String
  pub aggregates : List String
  pub origin : Option String
  pub brand_id : Option String
  pub category_id : Option String

pub record FetchParams : Type 0 where
  pub from : Time
  pub to : Time
  pub action : Action
  pub origin : Option String
  pub brand_id : Option String
  pub category_id : Option String

pub record Filters : Type 0 where
  pub origin_id : Option ℕ
  pub brand_id : Option ℕ
  pub category_id : Option ℕ

unfoldable pub check_filter : Option ℕ → ℕ → Bool
check_filter none k = true
check_filter (some f) k = f == k

-- `filters.match`
unfoldable pub matches_key : Filters → AggregateKey → Bool
unfolding check_filter
matches_key f key =
    check_filter f.origin_id key.origin
    && check_filter f.brand_id key.brand_id
    && check_filter f.category_id key.category_id

-- The loop of `filterAggregates`, from the sums so far
unfoldable pub filter_from : Filters → List ActionAggregates → ℕ → ℕ → ℕ × ℕ
filter_from f [] sum count = (sum, count)
filter_from f (agg ∷ aggs) sum count =
    filter_from f aggs (if matches_key f agg.key then (sum + agg.sum) % 2 ^ 64 else sum)
      (if matches_key f agg.key then (count + agg.count) % 2 ^ 64 else count)

unfoldable pub filter_aggregates : List ActionAggregates → Filters → ℕ × ℕ
unfolding filter_from
filter_aggregates aggs f = filter_from f aggs 0 0

-- The value of a pointer, if it is there: what `if p != nil` appends
abbrev pub if_some {ℓ κ} : {A : Type ℓ} {B : Type κ} → Option A → (A → B) → List B
if_some none f = []
if_some (some a) f = f a ∷ []

-- `strings.ToLower(a.String())`: the two names the constants have, and "unknown"
unfoldable pub column_of : Aggregate → String
column_of a = if a == sum then "sum_price" else if a == count then "count" else "unknown"

-- `newAggregatesResponseBuilder`, whose other fields are the arguments
unfoldable pub new_columns : List Aggregate → FetchParams → List String
unfolding column_of
new_columns aggregates params =
    ("1m_bucket" ∷ "action" ∷ [])
    ++ if_some params.origin (λ _. "origin")
    ++ if_some params.brand_id (λ _. "brand_id")
    ++ if_some params.category_id (λ _. "category_id")
    ++ map column_of aggregates

-- The switch of `appendAggregates`; an aggregate of another number has no cell.
unfoldable pub cells : List Aggregate → ℕ → ℕ → List String
cells [] s c = []
cells (a ∷ more) s c =
    let rest = cells more s c in
    if a == count
    then natural_before c "" ∷ rest
    else if a == sum
    then natural_before s "" ∷ rest
    else rest

-- The row that `appendAggregates` adds
unfoldable pub row_of : TimeText → List Aggregate → FetchParams → Time → ℕ → ℕ → List String
unfolding cells
row_of text aggs params t sum count =
    (text.format time_range_sec_precision_layout t ∷ action_string params.action ∷ [])
    ++ if_some params.origin (λ x. x)
    ++ if_some params.brand_id (λ x. x)
    ++ if_some params.category_id (λ x. x)
    ++ cells aggs sum count

-- How often the loop's body runs at most: the minutes from `from` to `to`, rounded up.
unfoldable pub minutes : Time → Time → ℕ
minutes from to = (to - from + (minute - 1)) / minute

module _ {S : Type 0} (s : Server S) where
  unfoldable pub get_id : String → Option String → Exec S (Option ℕ)
  get_id collection none = return none
  get_id collection (some element) =
      wrapping (get_u16_id s.id_getter collection element false) >>= λ id. return (some id)

  unfoldable pub new_filters : Option String → Option String → Option String → Exec S Filters
  unfolding get_id
  new_filters origin brand_id category_id = get_id origin_collection origin >>= λ origin_id.
      (get_id category_collection category_id >>= λ category.
      (get_id brand_collection brand_id >>= λ brand.
      return (record { origin_id = origin_id; brand_id = brand; category_id = category })))

  -- The loop of `aggregates` from `t` on; it returns the rows. The fuel bounds the passes.
  unfoldable pub rows_from :
      Filters → List Aggregate → FetchParams → ℕ → Time → Exec S (List (List String))
  rows_from f aggs params zero t = return []
  rows_from f aggs params (suc fuel) t =
      if before t params.to
      then (s.aggregates_db.aggregates >>= λ client.
          (wrapping (client.get t params.action) >>= λ found.
          (rows_from f aggs params fuel (t + minute) >>= λ rest. return (
            row_of s.time_text aggs params t (filter_aggregates found f).0
              (filter_aggregates found f).1
            ∷ rest))))
      else return []

  unfoldable pub aggregates : List Aggregate → FetchParams → Exec S AggregatesDto
  unfolding new_filters rows_from
  aggregates aggs params =
      wrapping (new_filters params.origin params.brand_id params.category_id) >>= λ f.
      (rows_from f aggs params (minutes params.from params.to) params.from >>= λ rows.
      return (record { columns = new_columns aggs params; rows = rows }))

  -- `bound` is the result of `c.BindQuery`.
  unfoldable pub aggregates_handler : Result AggregatesRequest → Exec S (Response AggregatesDto)
  unfolding aggregates
  aggregates_handler bound = or_abort status_bad_request (lift bound) λ req.
      or_abort status_bad_request (lift (to_action req.action)) λ action.
        or_abort status_bad_request (lift (convert_aggregates req.aggregates)) λ aggs.
          or_abort status_bad_request
            (lift (parse_time_range s.time_text time_range_sec_precision_layout req.time_range))
            λ range.
              or_abort status_bad_request (lift (validate_aggregates_time_range range.0 range.1))
                λ valid.
                  or_abort status_internal_server_error
                    (aggregates aggs (record {
                      from = range.0;
                      to = range.1;
                      action = action;
                      origin = req.origin;
                      brand_id = req.brand_id;
                      category_id = req.category_id;
                    }))
                    λ resp. return (json status_ok resp)

-- ===== src/Api/Aggregates/Shaped.antt =====
-- The shape of the table of `aggregates` of src/cmd/api/server/aggregates.go.
use allezon.Base.{
  ℕ, zero, suc, ◌+◌, ◌≡◌, inl, inr, subst, String, List, [], ◌∷◌, All, ok, length, Bool-cases,
}
use allezon.Base.Exec.{Exec, ◌>>=◌, return, wrapping, >>=-ok, return-ok}
use allezon.Time.{Time, minute, before}
use allezon.Types.{Aggregate}
use allezon.Db.{ActionAggregates, AggregatesClient}
use allezon.Dto.{AggregatesDto}
use allezon.Api.{Server}
use allezon.Api.Aggregates.{
  Filters, FetchParams, filter_aggregates, row_of, new_columns, minutes, new_filters, rows_from,
  aggregates,
}
use allezon.Api.Aggregates.Table.{IsAggregate, length-row_of}

-- Every row has so many cells.
abbrev pub AreWide : ℕ → List (List String) → Type 0
AreWide n rows = All (λ row. length row ≡ n) rows

module _ {S : Type 0} (s : Server S) (f : Filters) (aggs : List Aggregate) (params : FetchParams)
    (known : All IsAggregate aggs) where
  rows_from-AreWide :
      (fuel : ℕ) (t : Time) (st st' : S) (rows : List (List String))
      → rows_from s f aggs params fuel t st ≡ (ok rows, st')
      → AreWide (length (new_columns aggs params)) rows
  unfolding rows_from
  rows_from-AreWide zero t st st' rows h =
      subst (AreWide (length (new_columns aggs params))) (return-ok [] rows st st' h).0 tt
  rows_from-AreWide (suc fuel) t st st' rows h = elim (Bool-cases (before t params.to)) [
    | inl goes ↦
        let row : List ActionAggregates → List String = λ found.
          row_of s.time_text aggs params t (filter_aggregates found f).0
            (filter_aggregates found f).1 in
        let finish : List ActionAggregates → List (List String) → Exec S (List (List String)) =
          λ found rest. return (row found ∷ rest) in
        let go : List ActionAggregates → Exec S (List (List String)) =
          λ found. rows_from s f aggs params fuel (t + minute) >>= finish found in
        let ask : AggregatesClient S → Exec S (List (List String)) =
          λ c. wrapping (c.get t params.action) >>= go in
        let (c, st₁, opened, asked) =
          >>=-ok s.aggregates_db.aggregates ask st rows st' (rw goes at h) in
        let (found, st₂, got, left) =
          >>=-ok (wrapping (c.get t params.action)) go st₁ rows st' asked in
        let (rest, st₃, looped, returned) =
          >>=-ok (rows_from s f aggs params fuel (t + minute)) (finish found) st₂ rows st' left in
        let sums = filter_aggregates found f in
        subst (AreWide (length (new_columns aggs params)))
          (return-ok (row found ∷ rest) rows st₃ st' returned).0
          (
            length-row_of s.time_text aggs params t sums.0 sums.1 known,
            rows_from-AreWide fuel (t + minute) st₂ st₃ rest looped,
          )
    | inr stops ↦
        subst (AreWide (length (new_columns aggs params)))
          (return-ok [] rows st st' (rw stops at h)).0 tt
  ]

module _ {S : Type 0} (s : Server S) where
  -- If the aggregates of a request are known ones, every row of an aggregates answer has as many
  -- cells as the answer has columns.
  pub aggregates-AreWide :
      (aggs : List Aggregate) (params : FetchParams) (st st' : S) (answer : AggregatesDto)
      → All IsAggregate aggs
      → aggregates s aggs params st ≡ (ok answer, st')
      → AreWide (length answer.columns) answer.rows
  unfolding aggregates
  aggregates-AreWide aggs params st st' answer known h =
      let filters = new_filters s params.origin params.brand_id params.category_id in
      let n = minutes params.from params.to in
      let finish : List (List String) → Exec S AggregatesDto =
        λ rows. return (record { columns = new_columns aggs params; rows = rows }) in
      let go : Filters → Exec S AggregatesDto =
        λ f. rows_from s f aggs params n params.from >>= finish in
      let (f, st₁, made, left) = >>=-ok (wrapping filters) go st answer st' h in
      let (rows, st₂, looped, returned) =
        >>=-ok (rows_from s f aggs params n params.from) finish st₁ answer st' left in
      let wide = rows_from-AreWide s f aggs params known n params.from st₁ st₂ rows looped in
      subst (λ (answer : AggregatesDto). AreWide (length answer.columns) answer.rows)
        (return-ok (record { columns = new_columns aggs params; rows = rows }) answer st₂ st'
          returned).0
        wide

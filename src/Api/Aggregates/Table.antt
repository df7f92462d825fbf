-- ===== src/Api/Aggregates/Table.antt =====
-- The table that `aggregates` of src/cmd/api/server/aggregates.go answers with.
use allezon.Base.{
  ℕ, zero, suc, ◌+◌, ◌*◌, ◌<◌, ◌≤◌, ◌≡◌, ◌↔◌, ◌⊎◌, refl, sym, ◌∙◌, ◌++◌, String, true, false,
  Option, none, some, List, [], ◌∷◌, map, ok, arith, length, length-append, length-map, All,
}
use allezon.Time.{Time, minute, before}
use allezon.Types.{Aggregate, sum, count, action_string}
use allezon.Db.{AggregatesClient, ActionAggregates}
use allezon.Dto.{TimeText, time_range_sec_precision_layout}
use allezon.Api.{Server}
use allezon.Api.Aggregates.{
  Filters, FetchParams, filter_aggregates, if_some, column_of, new_columns, cells, row_of, minutes,
  rows_from, aggregates,
}

unfoldable pub IsAggregate : Aggregate → Type 0
IsAggregate a = (a ≡ sum) ⊎ (a ≡ count)

length-if_some :
    {A B : Type 0} (o : Option A) (f g : A → B) → length (if_some o f) ≡ length (if_some o g)
length-if_some none f g = refl
length-if_some (some a) f g = refl

length-five :
    (x a b c d : List String)
    → length (x ++ a ++ b ++ c ++ d) ≡ length x + length a + length b + length c + length d
length-five x a b c d = omega (
  arith,
  length-append x a,
  length-append (x ++ a) b,
  length-append (x ++ a ++ b) c,
  length-append (x ++ a ++ b ++ c) d,
)

length-cells :
    (aggs : List Aggregate) (s c : ℕ) → All IsAggregate aggs → length (cells aggs s c) ≡ length aggs
unfolding cells IsAggregate
length-cells [] s c h = refl
length-cells (a ∷ more) s c h = ground (arith, length-cells more s c h.1)

-- A row has as many cells as there are columns, if the aggregates are known ones.
pub length-row_of :
    (text : TimeText) (aggs : List Aggregate) (params : FetchParams) (t : Time) (s c : ℕ)
    → All IsAggregate aggs
    → length (row_of text aggs params t s c) ≡ length (new_columns aggs params)
unfolding row_of new_columns
length-row_of text aggs params t s c h =
    let named = map column_of aggs in
    let shown = cells aggs s c in
    let same : length shown ≡ length named =
      length-cells aggs s c h ∙ sym (length-map aggs column_of) in
    let origin = length-if_some params.origin (λ x. x) (λ _. "origin") in
    let brand = length-if_some params.brand_id (λ x. x) (λ _. "brand_id") in
    let category = length-if_some params.category_id (λ x. x) (λ _. "category_id") in
    let row =
      length-five (text.format time_range_sec_precision_layout t ∷ action_string params.action ∷ [])
        (if_some params.origin (λ x. x)) (if_some params.brand_id (λ x. x))
        (if_some params.category_id (λ x. x)) shown in
    let columns =
      length-five ("1m_bucket" ∷ "action" ∷ []) (if_some params.origin (λ _. "origin"))
        (if_some params.brand_id (λ _. "brand_id"))
        (if_some params.category_id (λ _. "category_id")) named in
    omega (arith, row, columns, origin, brand, category, same)

-- The minute `i` of a range begins before its end exactly when `i` is below the number of minutes.
pub minutes_iff : (from to : Time) (i : ℕ) → (from + i * minute < to) ↔ (i < minutes from to)
unfolding minutes
minutes_iff from to i = (λ h. omega arith, λ h. omega arith)

pub before-minutes : (from to : Time) → minutes from to ≡ 0 → before from to ≡ false
unfolding minutes
before-minutes from to h = ground arith

pub minutes-before : (from to : Time) (n : ℕ) → minutes from to ≡ suc n → before from to ≡ true
unfolding minutes
minutes-before from to n h = ground arith

pub minutes-next :
    (from to : Time) (n : ℕ) → minutes from to ≡ suc n → minutes (from + minute) to ≡ n
unfolding minutes
minutes-next from to n h = omega arith

-- `n` instants a minute apart
unfoldable pub instants : ℕ → Time → List Time
instants zero t = []
instants (suc n) t = t ∷ instants n (t + minute)

-- The row of a minute at which `found` are the aggregates.
abbrev pub row_at :
    TimeText
    → Filters
    → List Aggregate
    → FetchParams
    → (Time → List ActionAggregates)
    → Time
    → List String
row_at text f aggs params found t =
    let (sum, count) = filter_aggregates (found t) f in row_of text aggs params t sum count

module _ {S : Type 0} (s : Server S) (f : Filters) (aggs : List Aggregate) (params : FetchParams)
    (client : AggregatesClient S) (found : Time → List ActionAggregates)
    (opens : (st : S) → s.aggregates_db.aggregates st ≡ (ok client, st))
    (answers : (t : Time) (st : S) → client.get t params.action st ≡ (ok (found t), st)) where
  -- A pass is made while the instant is before the end, so as many as there are minutes.
  pub rows_from-instants :
      (fuel n : ℕ) (t : Time) (st : S)
      → n ≤ fuel
      → minutes t params.to ≡ n
      → rows_from s f aggs params fuel t st
        ≡ (ok (map (row_at s.time_text f aggs params found) (instants n t)), st)
  unfolding rows_from instants
  rows_from-instants zero zero t st le is = refl
  rows_from-instants zero (suc n) t st le is = absurd (omega arith)
  rows_from-instants (suc fuel) zero t st le is =
      let done : before t params.to ≡ false = before-minutes t params.to is in rw done
  rows_from-instants (suc fuel) (suc n) t st le is =
      let goes : before t params.to ≡ true = minutes-before t params.to n is in
      let next : minutes (t + minute) params.to ≡ n = minutes-next t params.to n is in
      let rest = rows_from-instants fuel n (t + minute) st (omega (arith, le)) next in
      rw (goes, opens st, answers t st, rest)

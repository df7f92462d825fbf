-- ===== src/Flow/Clock.antt =====
-- The answer of src/cmd/api/server/aggregates.go by the minutes of the clock, from the tags that
-- src/cmd/worker/worker has processed.
use allezon.Base.{
  ℕ, zero, suc, ◌+◌, ◌%◌, ◌^◌, ◌<◌, ◌≤◌, ◌≡◌, refl, ap₂, inl, inr, String, ◌&&◌, List, [], ◌∷◌,
  ◌++◌, map, All, ℤ, pos, negsuc, arith, length, ◌==◌, if◌then◌else◌,
}
use allezon.Base.Decimal.{natural_before}
use allezon.Time.{Time, minute}
use allezon.Types.{UserTag, Aggregate, action_string}
use allezon.Types.Roundtrip.{IsAction}
use allezon.Db.Aggregates.Codec.{to_ts}
use allezon.Db.Aggregates.Encoding.{total}
use allezon.Db.Aggregates.Minutes.{from_1970, clock_minute, to_ts-from_1970, same_minute}
use allezon.Dto.{TimeText}
use allezon.Api.Aggregates.{FetchParams, if_some, column_of, new_columns, cells, row_of}
use allezon.Api.Aggregates.Table.{instants}
use allezon.Flow.Answered.{wanted, prices_shown, tags_at, tag_row}

abbrev pub IsLate : UserTag → Type 0
IsLate tag = from_1970 ≤ tag.time

-- The prices of the tags of a minute of the clock that a request asks for
unfoldable pub prices_at : FetchParams → Time → List UserTag → List ℕ
prices_at params t [] = []
prices_at params t (tag ∷ tags) =
    if (clock_minute t == clock_minute tag.time && params.action == tag.action) && wanted params tag
    then tag.product_info.price ∷ prices_at params t tags
    else prices_at params t tags

-- How many tags the minute `m` of the clock has of an action
unfoldable pub clock_tags : ℕ → ℕ → List UserTag → ℕ
clock_tags m a [] = 0
clock_tags m a (tag ∷ tags) =
    (if m == clock_minute tag.time && a == tag.action then 1 else 0) + clock_tags m a tags

-- What a cell of a row shows of the prices: their sum for 0, their number for 1
abbrev pub value_shown : List ℕ → Aggregate → List String
value_shown prices zero = natural_before (total prices % 2 ^ 64) "" ∷ []
value_shown prices (suc zero) = natural_before (length prices % 2 ^ 64) "" ∷ []
value_shown prices (suc (suc a)) = []

unfoldable pub values_shown : List ℕ → List Aggregate → List String
values_shown prices [] = []
values_shown prices (a ∷ aggs) = value_shown prices a ++ values_shown prices aggs

abbrev pub name_shown : Aggregate → String
name_shown zero = "sum_price"
name_shown (suc zero) = "count"
name_shown (suc (suc a)) = "unknown"

-- The row of an instant by the tags: its text, the action, the strings that the request names, and
-- the values that it asks for
abbrev pub row_shown : TimeText → List Aggregate → FetchParams → List UserTag → Time → List String
row_shown text aggs params tags t =
    (text.format "2006-01-02T15:04:05" t ∷ (if params.action == 1 then "BUY" else "VIEW") ∷ [])
    ++ if_some params.origin (λ x. x)
    ++ if_some params.brand_id (λ x. x)
    ++ if_some params.category_id (λ x. x)
    ++ values_shown (prices_at params t tags) aggs

abbrev pub columns_shown : List Aggregate → FetchParams → List String
columns_shown aggs params =
    ("1m_bucket" ∷ "action" ∷ [])
    ++ if_some params.origin (λ x. "origin")
    ++ if_some params.brand_id (λ x. "brand_id")
    ++ if_some params.category_id (λ x. "category_id")
    ++ map name_shown aggs

prices_shown-clock :
    (params : FetchParams) (t : Time) (tags : List UserTag)
    → from_1970 ≤ t
    → All IsLate tags
    → prices_shown params (to_ts t) tags ≡ prices_at params t tags
unfolding prices_shown prices_at
prices_shown-clock params t [] ht h = refl
prices_shown-clock params t (tag ∷ tags) ht h =
    rw (same_minute t tag.time ht h.0, prices_shown-clock params t tags ht h.1)

tags_at-clock :
    (n a : ℕ) (tags : List UserTag)
    → All IsLate tags
    → tags_at (pos n) a tags ≡ clock_tags (n + 1_036_120_320) a tags
unfolding tags_at clock_tags
tags_at-clock n a [] h = refl
tags_at-clock n a (tag ∷ tags) h =
    rw (to_ts-from_1970 tag.time h.0, tags_at-clock n a tags h.1) (ground arith)

tags_at-before : (n a : ℕ) (tags : List UserTag) → All IsLate tags → tags_at (negsuc n) a tags ≡ 0
unfolding tags_at
tags_at-before n a [] h = refl
tags_at-before n a (tag ∷ tags) h =
    rw (to_ts-from_1970 tag.time h.0, tags_at-before n a tags h.1) (ground arith)

pub few_at :
    (a : ℕ) (tags : List UserTag)
    → All IsLate tags
    → ((m : ℕ) → clock_tags m a tags < 2 ^ 16)
    → (ts : ℤ) → tags_at ts a tags < 2 ^ 16
few_at a tags h few (pos n) = rw (tags_at-clock n a tags h) (few (n + 1_036_120_320))
few_at a tags h few (negsuc n) = rw (tags_at-before n a tags h) (omega arith)

cells-shown :
    (aggs : List Aggregate) (prices : List ℕ)
    → cells aggs (total prices % 2 ^ 64) (length prices % 2 ^ 64) ≡ values_shown prices aggs
unfolding cells values_shown
cells-shown [] prices = refl
cells-shown (zero ∷ aggs) prices = rw (cells-shown aggs prices)
cells-shown (suc zero ∷ aggs) prices = rw (cells-shown aggs prices)
cells-shown (suc (suc a) ∷ aggs) prices = rw (← cells-shown aggs prices) (ground arith)

name-column : (a : Aggregate) → column_of a ≡ name_shown a
unfolding column_of
name-column zero = refl
name-column (suc zero) = refl
name-column (suc (suc a)) = ground arith

names-columns : (aggs : List Aggregate) → map column_of aggs ≡ map name_shown aggs
names-columns [] = refl
names-columns (a ∷ aggs) = ap₂ ◌∷◌ (name-column a) (names-columns aggs)

action_shown : (a : ℕ) → IsAction a → action_string a ≡ (if a == 1 then "BUY" else "VIEW")
unfolding action_string
action_shown a (inl is) = rw is
action_shown a (inr is) = rw is

pub columns-shown :
    (aggs : List Aggregate) (params : FetchParams)
    → new_columns aggs params ≡ columns_shown aggs params
unfolding new_columns
columns-shown aggs params = rw (names-columns aggs)

tag_row-shown :
    (text : TimeText) (aggs : List Aggregate) (params : FetchParams) (tags : List UserTag)
    (t : Time)
    → IsAction params.action
    → All IsLate tags
    → from_1970 ≤ t
    → tag_row text aggs params tags t ≡ row_shown text aggs params tags t
unfolding row_of
tag_row-shown text aggs params tags t ha h ht = rw (
  prices_shown-clock params t tags ht h,
  action_shown params.action ha,
  cells-shown aggs (prices_at params t tags),
)

pub rows-shown :
    (text : TimeText) (aggs : List Aggregate) (params : FetchParams) (tags : List UserTag) (n : ℕ)
    (t : Time)
    → IsAction params.action
    → All IsLate tags
    → from_1970 ≤ t
    → map (tag_row text aggs params tags) (instants n t)
      ≡ map (row_shown text aggs params tags) (instants n t)
unfolding instants
rows-shown text aggs params tags zero t ha h ht = refl
rows-shown text aggs params tags (suc n) t ha h ht =
    ap₂ ◌∷◌ (tag_row-shown text aggs params tags t ha h ht)
      (rows-shown text aggs params tags n (t + minute) ha h (omega arith))

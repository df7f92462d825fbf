-- ===== src/Flow/Answered.antt =====
-- The aggregates that the API service answers with, by the tags that the worker has processed.
use allezon.Base.{
  ℕ, ◌+◌, ◌%◌, ◌^◌, ◌≤◌, ◌≡◌, refl, sym, subst, String, Bool, true, false, ◌&&◌, Option, none, some,
  List, [], ◌∷◌, All, ok, ℤ, eq_ℤ, arith, str_eq, eq_iff, test_ext, length, ◌==◌, if◌then◌else◌,
}
use allezon.Base.Exec.{Exec, ◌>>=◌, return, wrapping, wrapping-ok, >>=-ok, return-ok}
use allezon.Time.{Time}
use allezon.Types.{UserTag, Aggregate}
use allezon.Db.{AggregateKey}
use allezon.Db.Aerospike.{Database}
use allezon.Db.Aggregates.Codec.{to_ts}
use allezon.Db.Aggregates.Encoding.{total}
use allezon.Db.Aggregates.Writing.{AggregatesLaws}
use allezon.Db.Aggregates.Counting.{Event, prices_of}
use allezon.Db.Aggregates.Tallied.{matched}
use allezon.Db.Aggregates.Indexed.{records_of}
use allezon.Dto.{TimeText}
use allezon.IdClient.{get_u16_id, origin_collection, brand_collection, category_collection}
use allezon.IdClient.Laws.{get_u16_id_iff}
use allezon.Api.{Server}
use allezon.Api.Aggregates.{
  Filters, FetchParams, check_filter, matches_key, row_of, get_id, new_filters,
}
use allezon.Flow.{NumbersLaws, Names, Stays, tags_of}

-- A string that a request gives asks for itself.
abbrev pub is_wanted : Option String → String → Bool
is_wanted none x = true
is_wanted (some y) x = str_eq y x

-- Whether a tag has the origin, the brand and the category of a request
abbrev pub wanted : FetchParams → UserTag → Bool
wanted params tag =
    is_wanted params.origin tag.origin
    && is_wanted params.brand_id tag.product_info.brand_id
    && is_wanted params.category_id tag.product_info.category_id

abbrev pub in_minute : ℤ → ℕ → UserTag → Bool
in_minute ts a tag = eq_ℤ ts (to_ts tag.time) && a == tag.action

-- The prices of the tags of a minute that a request asks for
unfoldable pub prices_shown : FetchParams → ℤ → List UserTag → List ℕ
prices_shown params ts [] = []
prices_shown params ts (tag ∷ tags) =
    if in_minute ts params.action tag && wanted params tag
    then tag.product_info.price ∷ prices_shown params ts tags
    else prices_shown params ts tags

-- How many tags a minute has of an action
unfoldable pub tags_at : ℤ → ℕ → List UserTag → ℕ
tags_at ts a [] = 0
tags_at ts a (tag ∷ tags) = (if in_minute ts a tag then 1 else 0) + tags_at ts a tags

-- The row of a minute by the tags
abbrev pub tag_row : TimeText → List Aggregate → FetchParams → List UserTag → Time → List String
tag_row text aggs params tags t =
    let prices = prices_shown params (to_ts t) tags in
    row_of text aggs params t (total prices % 2 ^ 64) (length prices % 2 ^ 64)

pub prices_of-few :
    (ts : ℤ) (k : AggregateKey) (a : ℕ) (events : List Event)
    → length (prices_of ts k a events) ≤ tags_at ts a (tags_of events)
unfolding tags_at
prices_of-few ts k a [] = omega arith
prices_of-few ts k a (e ∷ events) = ground (arith, prices_of-few ts k a events)

module _ {S : Type 0} (s : Server S) (db : Database S) (laws : AggregatesLaws db)
    (numbers : NumbersLaws (records_of db laws) s.id_getter) where
  -- What the filter of a collection is in a state
  unfoldable pub Chosen : S → String → Option String → Option ℕ → Type 0
  Chosen st c none o = o ≡ none
  Chosen st c (some y) o = (n : ℕ) × (o ≡ some n) × numbers.has_id st c y n

  get_id-Chosen :
      (c : String) (p : Option String) (o : Option ℕ) (st st' : S)
      → numbers.is_ready st
      → get_id s c p st ≡ (ok o, st')
      → numbers.is_ready st'
        × Chosen st' c p o
        × Stays (records_of db laws) s.id_getter numbers st st'
  unfolding get_id Chosen
  get_id-Chosen c none o st st' ready h =
      let (is, same) = return-ok none o st st' h in
      (
        subst numbers.is_ready (sym same) ready,
        sym is,
        λ d x n had. subst (λ st. numbers.has_id st d x n) (sym same) had,
      )
  get_id-Chosen c (some y) o st st' ready h =
      let ask = get_u16_id s.id_getter c y false in
      let (n, st₁, got, rest) = >>=-ok (wrapping ask) (λ id. return (some id)) st o st' h in
      let (is, same) = return-ok (some n) o st₁ st' rest in
      let given =
        ((get_u16_id_iff s.id_getter c y false n st st₁).0 (wrapping-ok ask st n st₁ got)).0 in
      let (still, had, stays) = numbers.get_id-ok c y false n st st₁ ready given in
      (
        subst numbers.is_ready (sym same) still,
        (n, sym is, subst (λ st. numbers.has_id st c y n) (sym same) had),
        λ d x m had. subst (λ st. numbers.has_id st d x m) (sym same) (stays d x m had),
      )

  check_filter-wanted :
      (st : S) (c : String) (p : Option String) (o : Option ℕ) (x : String) (k : ℕ)
      → Chosen st c p o
      → numbers.has_id st c x k
      → check_filter o k ≡ is_wanted p x
  unfolding Chosen check_filter
  check_filter-wanted st c none o x k h had = rw h
  check_filter-wanted st c (some y) o x k (n, is, has) had = rw is (
      test_ext (n == k) (str_eq y x)
        (λ e.
          let same : n ≡ k = ground arith in
          (eq_iff y x).1 (numbers.distinct st c y x k (subst (numbers.has_id st c y) same has) had))
        (λ e.
          let same : n ≡ k =
            numbers.unique st c x n k (subst (λ x. numbers.has_id st c x n) ((eq_iff y x).0 e) has)
              had in
          rw same (ground arith)))

  -- The filters are made of ids that the strings of the request have.
  pub record Filtered (st : S) (params : FetchParams) (f : Filters) : Type 0 where
    pub origin : Chosen st origin_collection params.origin f.origin_id
    pub brand : Chosen st brand_collection params.brand_id f.brand_id
    pub category : Chosen st category_collection params.category_id f.category_id

  Chosen-Stays :
      (c : String) (p : Option String) (o : Option ℕ) (st st' : S)
      → Stays (records_of db laws) s.id_getter numbers st st'
      → Chosen st c p o
      → Chosen st' c p o
  unfolding Chosen
  Chosen-Stays c none o st st' stays h = h
  Chosen-Stays c (some y) o st st' stays (n, is, had) = (n, is, stays c y n had)

  pub new_filters-Filtered :
      (params : FetchParams) (f : Filters) (st st' : S)
      → numbers.is_ready st
      → new_filters s params.origin params.brand_id params.category_id st ≡ (ok f, st')
      → Filtered st' params f × Stays (records_of db laws) s.id_getter numbers st st'
  unfolding new_filters
  new_filters-Filtered params f st st' ready h =
      let made : Option ℕ → Option ℕ → Option ℕ → Filters =
        λ o c b. record { origin_id = o; brand_id = b; category_id = c } in
      let last : Option ℕ → Option ℕ → Exec S Filters =
        λ o c. get_id s brand_collection params.brand_id >>= λ b. return (made o c b) in
      let after : Option ℕ → Exec S Filters =
        λ o. get_id s category_collection params.category_id >>= last o in
      let (o, st₁, first, h₁) =
        >>=-ok (get_id s origin_collection params.origin) after st f st' h in
      let (c, st₂, second, h₂) =
        >>=-ok (get_id s category_collection params.category_id) (last o) st₁ f st' h₁ in
      let (b, st₃, third, h₃) =
        >>=-ok (get_id s brand_collection params.brand_id) (λ b. return (made o c b)) st₂ f st'
          h₂ in
      let (is, same) = return-ok (made o c b) f st₃ st' h₃ in
      let (ready₁, o_is, stays₁) =
        get_id-Chosen origin_collection params.origin o st st₁ ready first in
      let (ready₂, c_is, stays₂) =
        get_id-Chosen category_collection params.category_id c st₁ st₂ ready₁ second in
      let (ready₃, b_is, stays₃) =
        get_id-Chosen brand_collection params.brand_id b st₂ st₃ ready₂ third in
      let chosen : Filtered st₃ params (made o c b) = record {
        origin =
            Chosen-Stays origin_collection params.origin o st₁ st₃
              (λ d x n had. stays₃ d x n (stays₂ d x n had)) o_is;
        brand = b_is;
        category = Chosen-Stays category_collection params.category_id c st₂ st₃ stays₃ c_is;
      } in
      (
        subst (λ f. Filtered st' params f) is
            (subst (λ st. Filtered st params (made o c b)) (sym same) chosen),
        λ d x n had.
            subst (λ st. numbers.has_id st d x n) (sym same)
              (stays₃ d x n (stays₂ d x n (stays₁ d x n had))),
      )

  -- The filters let through the keys of the tags that the request asks for.
  pub matched-prices_shown :
      (st : S) (params : FetchParams) (f : Filters) (ts : ℤ) (events : List Event)
      → Filtered st params f
      → All (Names (records_of db laws) s.id_getter numbers st) events
      → matched (matches_key f) ts params.action events ≡ prices_shown params ts (tags_of events)
  unfolding matched prices_shown matches_key
  matched-prices_shown st params f ts [] chosen h = refl
  matched-prices_shown st params f ts ((k, tag) ∷ events) chosen ((c, b, o), h) = rw (
    check_filter-wanted st origin_collection params.origin f.origin_id tag.origin k.origin
        chosen.origin o,
    check_filter-wanted st brand_collection params.brand_id f.brand_id tag.product_info.brand_id
        k.brand_id chosen.brand b,
    check_filter-wanted st category_collection params.category_id f.category_id
        tag.product_info.category_id k.category_id chosen.category c,
    matched-prices_shown st params f ts events chosen h,
  )

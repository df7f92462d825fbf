-- ===== src/Api/Requested.antt =====
-- `convertAggregates` of src/cmd/api/server/aggregates.go
use allezon.Base.{
  ◌≤◌, ◌≡◌, ◌⊎◌, ◌↔◌, inl, inr, refl, sym, ◌∙◌, Bool-cases, str_eq, eq_iff, ap, subst, Bool, true,
  false, String, List, [], ◌∷◌, Result, ok, err, panic, failed, ◌>>=◌, arith, length, ◌==◌,
  if◌then◌else◌,
}
use allezon.Types.{Aggregate, sum, count}
use allezon.Dto.{to_aggregate}

-- `make(map[types.Aggregate]struct{})` of a list: its elements, each once
unfoldable pub is_in : Aggregate → List Aggregate → Bool
is_in a [] = false
is_in a (b ∷ bs) = if a == b then true else is_in a bs

unfoldable pub set_of : List Aggregate → List Aggregate
unfolding is_in
set_of [] = []
set_of (a ∷ more) = let rest = set_of more in if is_in a rest then rest else a ∷ rest

unfoldable pub to_aggregates : List String → Result (List Aggregate)
to_aggregates [] = ok []
to_aggregates (a ∷ more) = do first ← to_aggregate a; rest ← to_aggregates more; ok (first ∷ rest)

unfoldable pub convert_aggregates : List String → Result (List Aggregate)
unfolding to_aggregates set_of
convert_aggregates req = do
  aggregates ← to_aggregates req
  if length aggregates == length (set_of aggregates) then ok aggregates else err failed

-- No element stands twice.
unfoldable pub IsDistinct : List Aggregate → Type 0
unfolding is_in
IsDistinct [] = Unit
IsDistinct (a ∷ more) = (is_in a more ≡ false) × IsDistinct more

set_of-is_in : (a : Aggregate) (xs : List Aggregate) → is_in a (set_of xs) ≡ is_in a xs
unfolding set_of is_in
set_of-is_in a [] = refl
set_of-is_in a (x ∷ xs) = ground (arith, set_of-is_in a xs, set_of-is_in x xs)

set_of-le : (xs : List Aggregate) → length (set_of xs) ≤ length xs
unfolding set_of
set_of-le [] = omega arith
set_of-le (x ∷ xs) = ground (arith, set_of-le xs)

set_of-IsDistinct : (xs : List Aggregate) → length xs ≡ length (set_of xs) → IsDistinct xs
unfolding set_of IsDistinct
set_of-IsDistinct [] h = tt
set_of-IsDistinct (x ∷ xs) h = ground (arith, set_of-is_in x xs, set_of-le xs, set_of-IsDistinct xs)

IsDistinct-set_of : (xs : List Aggregate) → IsDistinct xs → length xs ≡ length (set_of xs)
unfolding set_of IsDistinct
IsDistinct-set_of [] h = refl
IsDistinct-set_of (x ∷ xs) h = ground (arith, set_of-is_in x xs, IsDistinct-set_of xs)

accepted :
    (b : Bool) (xs aggs : List Aggregate)
    → (if b then ok xs else err failed) ≡ ok aggs
    → (b ≡ true) × (xs ≡ aggs)
accepted true xs aggs h = (refl, cc)
accepted false xs aggs h = cc

check-IsDistinct_iff :
    (r : Result (List Aggregate)) (aggs : List Aggregate)
    → ((do
      as_list ← r
      if length as_list == length (set_of as_list) then ok as_list else err failed)
        ≡ ok aggs)
      ↔ ((r ≡ ok aggs) × IsDistinct aggs)
check-IsDistinct_iff (ok xs) aggs = (
  λ h.
      let (same, is_aggs) = accepted (length xs == length (set_of xs)) xs aggs h in
      (ap ok is_aggs, subst IsDistinct is_aggs (set_of-IsDistinct xs (ground arith))),
  λ h.
      let is_aggs : xs ≡ aggs = cc in
      let same : (length aggs == length (set_of aggs)) ≡ true =
        ground (arith, IsDistinct-set_of aggs h.1) in
      rw (is_aggs, same),
)
check-IsDistinct_iff (err e) aggs = (λ h. cc, λ h. cc)
check-IsDistinct_iff panic aggs = (λ h. cc, λ h. cc)

ok-injective : {a b : Aggregate} → ok a ≡ ok b → a ≡ b
ok-injective h = cc

no_value : (a : Aggregate) → ◌≡◌ {A = Result Aggregate} (err failed) (ok a) → ⊥
no_value a h = cc

both-ok :
    (r : Result Aggregate) (more : Result (List Aggregate)) (aggs : List Aggregate)
    → (do first ← r; rest ← more; ok (first ∷ rest)) ≡ ok aggs
    → (a : Aggregate) × (rest : List Aggregate) × (r ≡ ok a) × (more ≡ ok rest) × (a ∷ rest ≡ aggs)
both-ok (ok a) (ok rest) aggs h = (a, rest, refl, refl, cc)
both-ok (ok a) (err e) aggs h = cc
both-ok (ok a) panic aggs h = cc
both-ok (err e) more aggs h = cc
both-ok panic more aggs h = cc

-- What the names of aggregates in a request mean
abbrev pub IsNamed : String → Aggregate → Type 0
IsNamed name a = ((name ≡ "COUNT") × (a ≡ count)) ⊎ ((name ≡ "SUM_PRICE") × (a ≡ sum))

-- Name by name, in order
unfoldable pub AreNamed : List String → List Aggregate → Type 0
AreNamed [] [] = Unit
AreNamed (name ∷ names) (a ∷ aggs) = IsNamed name a × AreNamed names aggs
AreNamed [] (a ∷ aggs) = ⊥
AreNamed (name ∷ names) [] = ⊥

to_aggregate_iff : (name : String) (a : Aggregate) → (to_aggregate name ≡ ok a) ↔ IsNamed name a
unfolding to_aggregate
to_aggregate_iff name a =
    let is_count = eq_iff name "COUNT" in
    let is_sum = eq_iff name "SUM_PRICE" in
    (
      λ h. elim (Bool-cases (str_eq name "COUNT")) [
        | inl here ↦ inl (is_count.0 here, sym (ok-injective (rw here at h)))
        | inr other ↦ elim (Bool-cases (str_eq name "SUM_PRICE")) [
          | inl here ↦ inr (is_sum.0 here, sym (ok-injective (rw (other, here) at h)))
          | inr neither ↦ absurd (no_value a (rw (other, neither) at h))
        ]
      ],
      λ h. elim h [ inl (named, is) ↦ rw (named, is) | inr (named, is) ↦ rw (named, is) ],
    )

to_aggregates_iff :
    (req : List String) (aggs : List Aggregate) → (to_aggregates req ≡ ok aggs) ↔ AreNamed req aggs
unfolding to_aggregates AreNamed
to_aggregates_iff [] [] = (λ h. tt, λ h. refl)
to_aggregates_iff [] (a ∷ aggs) = (λ h. cc, λ h. absurd h)
to_aggregates_iff (name ∷ req) [] = (
  λ h. let (a, rest, first, more, is) = both-ok (to_aggregate name) (to_aggregates req) [] h in cc,
  λ h. absurd h,
)
to_aggregates_iff (name ∷ req) (a ∷ aggs) = (
  λ h.
      let (b, rest, first, more, is) =
        both-ok (to_aggregate name) (to_aggregates req) (a ∷ aggs) h in
      (
        (to_aggregate_iff name a).0 (first ∙ ap ok cc),
        (to_aggregates_iff req aggs).0 (more ∙ ap ok cc),
      ),
  λ (first, more). rw ((to_aggregate_iff name a).1 first, (to_aggregates_iff req aggs).1 more),
)

-- `convertAggregates` returns a list exactly when each name is "COUNT" or "SUM_PRICE" and none
-- stands twice; the list has the aggregates that the names mean, in the order of the names.
pub convert_aggregates_iff :
    (req : List String) (aggs : List Aggregate)
    → (convert_aggregates req ≡ ok aggs) ↔ (AreNamed req aggs × IsDistinct aggs)
unfolding convert_aggregates
convert_aggregates_iff req aggs =
    let checked = check-IsDistinct_iff (to_aggregates req) aggs in
    let named = to_aggregates_iff req aggs in
    (
      λ h. (named.0 (checked.0 h).0, (checked.0 h).1),
      λ (are, distinct). checked.1 (named.1 are, distinct),
    )

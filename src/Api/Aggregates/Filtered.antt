-- ===== src/Api/Aggregates/Filtered.antt =====
-- Which aggregates of a minute are counted by `filterAggregates` of
-- src/cmd/api/server/aggregates.go.
use allezon.Base.{
  ℕ, ◌+◌, ◌%◌, ◌^◌, ◌<◌, ◌≡◌, ◌↔◌, refl, ap₂, ◌∙◌, Bool, ◌&&◌, true, inl, inr, Option, none, some,
  List, [], ◌∷◌, arith, filter, Bool-cases,
}
use allezon.Db.{AggregateKey, ActionAggregates}
use allezon.Api.Aggregates.{Filters, check_filter, matches_key, filter_from, filter_aggregates}

-- A filter that is given asks for its identifier.
unfoldable pub Admits : Option ℕ → ℕ → Type 0
Admits none k = Unit
Admits (some f) k = f ≡ k

check_filter_iff : (f : Option ℕ) (k : ℕ) → (check_filter f k ≡ true) ↔ Admits f k
unfolding check_filter Admits
check_filter_iff none k = (λ h. tt, λ h. refl)
check_filter_iff (some f) k = (λ h. ground arith, λ h. ground arith)

three_iff :
    {P Q R : Type 0} (a b c : Bool)
    → (a ≡ true) ↔ P
    → (b ≡ true) ↔ Q
    → (c ≡ true) ↔ R
    → (a && b && c ≡ true) ↔ (P × Q × R)
three_iff a b c p q r = (
  λ h. (p.0 (ground arith), q.0 (ground arith), r.0 (ground arith)),
  λ h.
      let (x, y, z) = h in
      let first = p.1 x in let second = q.1 y in let third = r.1 z in rw (first, second, third),
)

-- A key passes exactly when it has every identifier that the request asks for.
pub matches_key_iff :
    (f : Filters) (key : AggregateKey)
    → (matches_key f key ≡ true) ↔ (
        Admits f.origin_id key.origin
        × Admits f.brand_id key.brand_id
        × Admits f.category_id key.category_id)
unfolding matches_key
matches_key_iff f key =
    three_iff (check_filter f.origin_id key.origin) (check_filter f.brand_id key.brand_id)
      (check_filter f.category_id key.category_id) (check_filter_iff f.origin_id key.origin)
      (check_filter_iff f.brand_id key.brand_id) (check_filter_iff f.category_id key.category_id)

wrapped_sum : (a b c : ℕ) → ((a + b) % 2 ^ 64 + c) % 2 ^ 64 ≡ (a + (b + c)) % 2 ^ 64
wrapped_sum a b c = omega arith

wrapped_start : (a : ℕ) → a < 2 ^ 64 → a ≡ (a + 0) % 2 ^ 64
wrapped_start a h = omega arith

wrapped_fits : (a : ℕ) → a % 2 ^ 64 < 2 ^ 64
wrapped_fits a = omega arith

unfoldable pub sums : List ActionAggregates → ℕ
sums [] = 0
sums (agg ∷ aggs) = agg.sum + sums aggs

unfoldable pub counts : List ActionAggregates → ℕ
counts [] = 0
counts (agg ∷ aggs) = agg.count + counts aggs

module _ (f : Filters) where
  abbrev pub matching : List ActionAggregates → List ActionAggregates
  matching aggs = filter (λ agg. matches_key f agg.key) aggs

  filter_from-sums :
      (aggs : List ActionAggregates) (s c : ℕ)
      → s < 2 ^ 64
      → c < 2 ^ 64
      → filter_from f aggs s c
        ≡ ((s + sums (matching aggs)) % 2 ^ 64, (c + counts (matching aggs)) % 2 ^ 64)
  unfolding filter_from sums counts
  filter_from-sums [] s c hs hc = ap₂ (λ x y. (x, y)) (wrapped_start s hs) (wrapped_start c hc)
  filter_from-sums (agg ∷ aggs) s c hs hc = elim (Bool-cases (matches_key f agg.key)) [
    | inl counted ↦
        let rest =
          filter_from-sums aggs ((s + agg.sum) % 2 ^ 64) ((c + agg.count) % 2 ^ 64)
            (wrapped_fits (s + agg.sum)) (wrapped_fits (c + agg.count)) in
        rw (
          counted,
          rest,
          wrapped_sum s agg.sum (sums (matching aggs)),
          wrapped_sum c agg.count (counts (matching aggs)),
        )
    | inr skipped ↦ rw (skipped, filter_from-sums aggs s c hs hc)
  ]

  -- The sum and the count are those of the matching aggregates, up to the wrap of `uint64`.
  pub filter_aggregates-sums :
      (aggs : List ActionAggregates)
      → filter_aggregates aggs f ≡ (sums (matching aggs) % 2 ^ 64, counts (matching aggs) % 2 ^ 64)
  unfolding filter_aggregates
  filter_aggregates-sums aggs =
      let wrapped : (n : ℕ) → (0 + n) % 2 ^ 64 ≡ n % 2 ^ 64 = λ n. omega arith in
      filter_from-sums aggs 0 0 (omega arith) (omega arith)
      ∙ ap₂ (λ x y. (x, y)) (wrapped (sums (matching aggs))) (wrapped (counts (matching aggs)))

-- ===== src/Db/Aggregates/Tallied.antt =====
-- Sums over distinct keys of what each key's tags weigh: the aggregates of src/pkg/db/aggregates.go
-- against the tags themselves.
use allezon.Base.{
  ℕ, ◌+◌, ◌≡◌, inl, inr, refl, sym, ap, ◌∙◌, All, Bool, true, false, ◌||◌, ◌&&◌, List, [], ◌∷◌, ℤ,
  eq_ℤ, arith, length, ◌==◌, if◌then◌else◌, Bool-cases,
}
use allezon.Db.{AggregateKey}
use allezon.Db.Aggregates.Codec.{to_ts}
use allezon.Db.Aggregates.Encoding.{total}
use allezon.Db.Aggregates.Counting.{Event, same_key, same_key_iff, prices_of}

unfoldable pub has_key : AggregateKey → List AggregateKey → Bool
has_key k [] = false
has_key k (k' ∷ keys) = same_key k' k || has_key k keys

unfoldable pub Distinct : List AggregateKey → Type 0
Distinct [] = Unit {0}
Distinct (k ∷ keys) = (has_key k keys ≡ false) × Distinct keys

-- The events of a minute and an action.
abbrev pub at_minute : ℤ → ℕ → Event → Bool
at_minute ts a (k, tag) = eq_ℤ ts (to_ts tag.time) && a == tag.action

unfoldable pub weigh : (ℕ → ℕ) → List ℕ → ℕ
weigh w [] = 0
weigh w (p ∷ prices) = w p + weigh w prices

pub weigh-total : (prices : List ℕ) → weigh (λ p. p) prices ≡ total prices
unfolding weigh
weigh-total [] = refl
weigh-total (p ∷ prices) = rw (weigh-total prices)

pub weigh-length : (prices : List ℕ) → weigh (λ p. 1) prices ≡ length prices
unfolding weigh
weigh-length [] = refl
weigh-length (p ∷ prices) = omega (arith, weigh-length prices)

All-of :
    (P : AggregateKey → Type 0)
    → ((k : AggregateKey) → P k)
    → (keys : List AggregateKey) → All P keys
All-of P h [] = tt
All-of P h (k ∷ keys) = (h k, All-of P h keys)

module _ (p : AggregateKey → Bool) where
  -- The prices of the events of a minute and an action with a key that passes
  unfoldable pub matched : ℤ → ℕ → List Event → List ℕ
  matched ts a [] = []
  matched ts a (e ∷ events) =
      if at_minute ts a e && p e.0
      then e.1.product_info.price ∷ matched ts a events
      else matched ts a events

  unfoldable pub tally : (AggregateKey → ℕ) → List AggregateKey → ℕ
  tally g [] = 0
  tally g (k ∷ keys) = (if p k then g k else 0) + tally g keys

  tally-add :
      (g h : AggregateKey → ℕ) (keys : List AggregateKey)
      → tally (λ k. g k + h k) keys ≡ tally g keys + tally h keys
  unfolding tally
  tally-add g h [] = refl
  tally-add g h (k ∷ keys) = ground (arith, tally-add g h keys)

  pub tally-cong :
      (g h : AggregateKey → ℕ) (keys : List AggregateKey)
      → All (λ k. g k ≡ h k) keys
      → tally g keys ≡ tally h keys
  unfolding tally
  tally-cong g h [] same = refl
  tally-cong g h (k ∷ keys) same = rw (same.0, tally-cong g h keys same.1)

  tally-zero : (keys : List AggregateKey) → tally (λ k. 0) keys ≡ 0
  unfolding tally
  tally-zero [] = refl
  tally-zero (k ∷ keys) = ground (arith, tally-zero keys)

  -- One key among distinct ones counts once.
  tally-one :
      (c : ℕ) (k : AggregateKey) (keys : List AggregateKey)
      → Distinct keys
      → tally (λ k'. if same_key k' k then c else 0) keys ≡ (if has_key k keys && p k then c else 0)
  unfolding tally has_key Distinct
  tally-one c k [] h = refl
  tally-one c k (k' ∷ keys) h = elim (Bool-cases (same_key k' k)) [
    | inl here ↦
        let same : k' ≡ k = (same_key_iff k' k).0 here in
        let passes : p k' ≡ p k = ap p same in
        let others : has_key k keys ≡ false = ap (λ k. has_key k keys) (sym same) ∙ h.0 in
        let none_left : tally (λ k'. if same_key k' k then c else 0) keys ≡ 0 =
          tally-one c k keys h.1 ∙ rw others refl in
        rw (here, passes, none_left) (ground arith)
    | inr elsewhere ↦ rw (elsewhere, tally-one c k keys h.1) (ground arith)
  ]

  -- Summed over distinct keys, among them those of all events, the weights of the tags of each key
  -- are the weights of the tags whose keys pass.
  pub tally-matched :
      (w : ℕ → ℕ) (ts : ℤ) (a : ℕ) (events : List Event) (keys : List AggregateKey)
      → Distinct keys
      → All (λ e. at_minute ts a e ≡ true → has_key e.0 keys ≡ true) events
      → tally (λ k. weigh w (prices_of ts k a events)) keys ≡ weigh w (matched ts a events)
  unfolding weigh matched
  tally-matched w ts a [] keys h covered = tally-zero keys
  tally-matched w ts a (e ∷ events) keys h covered =
      let c = w e.1.product_info.price in
      let rest = tally-matched w ts a events keys h covered.1 in
      elim (Bool-cases (at_minute ts a e)) [
        | inl here ↦
            let one : (k : AggregateKey)
                → weigh w (prices_of ts k a (e ∷ events))
                  ≡ (if same_key k e.0 then c else 0) + weigh w (prices_of ts k a events) =
              λ k. ground arith in
            tally-cong _ _ keys (All-of _ one keys)
            ∙ tally-add (λ k. if same_key k e.0 then c else 0)
                (λ k. weigh w (prices_of ts k a events)) keys
            ∙ rw (tally-one c e.0 keys h, covered.0 here, here, rest) (ground arith)
        | inr elsewhere ↦
            let one : (k : AggregateKey)
                → weigh w (prices_of ts k a (e ∷ events)) ≡ weigh w (prices_of ts k a events) =
              λ k. ground arith in
            tally-cong _ _ keys (All-of _ one keys) ∙ rw (elsewhere, rest)
      ]

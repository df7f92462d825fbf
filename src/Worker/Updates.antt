-- ===== src/Worker/Updates.antt =====
-- What src/cmd/worker/worker/aggregatesProcessor.go does with its tags.
use allezon.Base.{
  ℕ, ◌^◌, ◌<◌, ◌≡◌, ◌↔◌, ◌≢◌, refl, String, true, List, [], ◌∷◌, Error, Result, ok, err, panic,
}
use allezon.Base.Exec.{Exec, return, handle, wrapping-ok, >>=-ok}
use allezon.Types.{UserTag}
use allezon.Db.{AggregateKey, AggregatesClient}
use allezon.IdClient.{Client, get_u16_id, origin_collection, brand_collection, category_collection}
use allezon.IdClient.Laws.{get_u16_id_iff}
use allezon.Worker.{get_id, update_aggregates, update_aggregates_backoff, run_aggregates_processor}

abbrev pub key_of : ℕ → ℕ → ℕ → AggregateKey
key_of category brand origin = record { category_id = category; brand_id = brand; origin = origin }

module _ {S : Type 0} (ids : Client S) (aggregates : AggregatesClient S) where
  -- The id service gives `id` to an element, and leaves `st'`.
  unfoldable pub Identified : String → String → ℕ → S → S → Type 0
  Identified collection element id st st' =
      (ids.get_id collection element true st ≡ (ok id, st')) × (id < 2 ^ 16)

  get_id_iff :
      (collection element : String) (id : ℕ) (st st' : S)
      → (get_id ids aggregates collection element st ≡ (ok id, st'))
        ↔ Identified collection element id st st'
  unfolding get_id Identified
  get_id_iff collection element id st st' = (
    λ h.
        (get_u16_id_iff ids collection element true id st st').0
          (wrapping-ok (get_u16_id ids collection element true) st id st' h),
    λ h. let got = (get_u16_id_iff ids collection element true id st st').1 h in rw got,
  )

  -- A tag is processed exactly when the id service gives an id of 16 bits to its category, its brand
  -- and its origin, in that order, and the aggregates take the tag under the key of these ids.
  pub update_aggregates_iff :
      (tag : UserTag) (st st' : S)
      → (update_aggregates ids aggregates tag st ≡ (ok tt, st')) ↔ (
          (category : ℕ) × (brand : ℕ) × (origin : ℕ) × (st₁ : S) × (st₂ : S) × (st₃ : S)
          × Identified category_collection tag.product_info.category_id category st st₁
          × Identified brand_collection tag.product_info.brand_id brand st₁ st₂
          × Identified origin_collection tag.origin origin st₂ st₃
          × (aggregates.add (key_of category brand origin) tag st₃ ≡ (ok tt, st')))
  unfolding update_aggregates
  update_aggregates_iff tag st st' = (
    λ h.
        let (category, st₁, first, h₁) =
          >>=-ok (get_id ids aggregates category_collection tag.product_info.category_id) _ st tt
            st' h in
        let (brand, st₂, second, h₂) =
          >>=-ok (get_id ids aggregates brand_collection tag.product_info.brand_id) _ st₁ tt st'
            h₁ in
        let (origin, st₃, third, h₃) =
          >>=-ok (get_id ids aggregates origin_collection tag.origin) _ st₂ tt st' h₂ in
        (
          category,
          brand,
          origin,
          st₁,
          st₂,
          st₃,
          (get_id_iff category_collection tag.product_info.category_id category st st₁).0 first,
          (get_id_iff brand_collection tag.product_info.brand_id brand st₁ st₂).0 second,
          (get_id_iff origin_collection tag.origin origin st₂ st₃).0 third,
          wrapping-ok (aggregates.add (key_of category brand origin) tag) st₃ tt st' h₃,
        ),
    λ (category, brand, origin, st₁, st₂, st₃, first, second, third, added).
        let got₁ =
          (get_id_iff category_collection tag.product_info.category_id category st st₁).1 first in
        let got₂ = (get_id_iff brand_collection tag.product_info.brand_id brand st₁ st₂).1 second in
        let got₃ = (get_id_iff origin_collection tag.origin origin st₂ st₃).1 third in
        rw (got₁, got₂, got₃, added),
  )

  -- Runs of which all but the last fail.
  pub data Tried (m : Exec S (Unit {0})) : S → S → Type 0 where
    succeeded : (st st' : S) → m st ≡ (ok tt, st') → Tried m st st'
    again : (e : Error) (st st₁ st' : S) → m st ≡ (err e, st₁) → Tried m st₁ st' → Tried m st st'

  last_run :
      (m : Exec S (Unit {0})) (st st' : S) → Tried m st st' → (st₁ : S) × (m st₁ ≡ (ok tt, st'))
  last_run m st st' (succeeded _ _ h) = (st, h)
  last_run m st st' (again e _ st₁ _ h more) = last_run m st₁ st' more

  module _ (retry : Exec S (Unit {0}) → Exec S (Unit {0}))
      (retries : (m : Exec S (Unit {0})) (st st' : S)
        → retry m st ≡ (ok tt, st')
        → Tried m st st') where
    -- If `retry` returns success only by a last run that succeeds after runs that failed, then a tag
    -- whose processing succeeds has been processed by a run that left the final state.
    pub backoff-adds :
        (tag : UserTag) (st st' : S)
        → update_aggregates_backoff ids aggregates retry tag st ≡ (ok tt, st')
        → (st₁ : S) × (update_aggregates ids aggregates tag st₁ ≡ (ok tt, st'))
    unfolding update_aggregates_backoff
    backoff-adds tag st st' h =
        let m = update_aggregates ids aggregates tag in
        last_run m st st' (retries m st st' (wrapping-ok (retry m) st tt st' h))

  logged :
      (o : Result (Unit {0}) × S) → o.0 ≢ panic → handle o.0 (λ e. return tt) o.1 ≡ (ok tt, o.1)
  logged (ok _, st) safe = refl
  logged (err e, st) safe = refl
  logged (panic, st) safe = absurd (safe refl)

  module _ (retry : Exec S (Unit {0}) → Exec S (Unit {0})) where
    abbrev pub state_after : List UserTag → S → S
    state_after [] st = st
    state_after (tag ∷ tags) st =
        state_after tags (update_aggregates_backoff ids aggregates retry tag st).1

    -- If processing a tag never panics, the processor returns when its channel is closed, and every
    -- tag has been tried, in order, whether those before it failed or not.
    pub run_aggregates_processor_lem :
        (tags : List UserTag) (st : S)
        → ((tag : UserTag) (st₁ : S)
            → (update_aggregates_backoff ids aggregates retry tag st₁).0 ≢ panic)
        → run_aggregates_processor ids aggregates retry tags st ≡ (ok tt, state_after tags st)
    unfolding run_aggregates_processor
    run_aggregates_processor_lem [] st safe = refl
    run_aggregates_processor_lem (tag ∷ tags) st safe =
        let o = update_aggregates_backoff ids aggregates retry tag st in
        let first = logged o (safe tag st) in
        let rest = run_aggregates_processor_lem tags o.1 safe in rw (first, rest)

-- ===== src/Flow.antt =====
-- The parts together: tags that the worker (src/cmd/worker/worker) has processed, and the aggregates
-- that the API service (src/cmd/api/server/aggregates.go) answers with, on one database and one
-- service of ids.
pub mod Processed
pub mod Profiled
pub mod Numbered
pub mod Answered
pub mod Counted
pub mod Clock
pub mod Shown
use allezon.Base.{ℕ, ◌≡◌, String, Bool, List, [], ◌∷◌, map, All, ok}
use allezon.Base.Keeps.{Keeps}
use allezon.Types.{UserTag}
use allezon.Db.Aggregates.Counting.{Event}
use allezon.IdClient.{Client, origin_collection, brand_collection, category_collection}

-- A service of ids: `has_id s c e n` says that in the state `s` the element `e` of `c` has the id
-- `n`. From a state that is ready, an id that is returned is had, and what was had stays; elements
-- of one collection have different ids, one each. The view `v` of the state stays as it is.
pub record NumbersLaws {S V : Type 0} (v : S → V) (ids : Client S) : Type 1 where
  pub is_ready : S → Type 0
  pub has_id : S → String → String → ℕ → Type 0
  pub get_id-ok :
      (c e : String) (create : Bool) (id : ℕ) (st st' : S)
      → is_ready st
      → ids.get_id c e create st ≡ (ok id, st')
      → is_ready st'
        × has_id st' c e id
        × ((d x : String) (n : ℕ) → has_id st d x n → has_id st' d x n)
  pub unique : (st : S) (c e : String) (n n' : ℕ) → has_id st c e n → has_id st c e n' → n ≡ n'
  pub distinct : (st : S) (c e e' : String) (n : ℕ) → has_id st c e n → has_id st c e' n → e ≡ e'
  pub get_id-Keeps : (c e : String) (create : Bool) → Keeps v (ids.get_id c e create)

module _ {S V : Type 0} (v : S → V) (ids : Client S) (numbers : NumbersLaws v ids) where
  open numbers use {has_id}

  -- The key of an event has the ids of its tag.
  abbrev pub Names : S → Event → Type 0
  Names st (k, tag) =
      has_id st category_collection tag.product_info.category_id k.category_id
      × has_id st brand_collection tag.product_info.brand_id k.brand_id
      × has_id st origin_collection tag.origin k.origin

  -- What is had in one state is had in another.
  abbrev pub Stays : S → S → Type 0
  Stays st st' = (c e : String) (n : ℕ) → has_id st c e n → has_id st' c e n

  pub Names-Stays :
      (st st' : S)
      → Stays st st'
      → (events : List Event) → All (Names st) events
      → All (Names st') events
  Names-Stays st st' stays [] h = tt
  Names-Stays st st' stays ((k, tag) ∷ events) ((c, b, o), h) = (
    (
      stays category_collection tag.product_info.category_id k.category_id c,
      stays brand_collection tag.product_info.brand_id k.brand_id b,
      stays origin_collection tag.origin k.origin o,
    ),
    Names-Stays st st' stays events h,
  )

-- The tags of events
abbrev pub tags_of : List Event → List UserTag
tags_of events = map (λ e. e.1) events

-- ===== src/Worker.antt =====
-- src/cmd/worker/worker: what a processor does with each tag. `backoff.Retry` with its settings is a
-- parameter (`retry`); a processor's channel is the list of the tags that come through it until it
-- is closed. The clients share the state `S`.
pub mod Updates
pub mod Pipeline
use allezon.Base.{ℕ, zero, suc, String, Bool, Option, true, List, [], ◌∷◌, Error, wrapped}
use allezon.Base.Exec.{Exec, ◌>>=◌, ◌>>◌, return, throw, catch, wrapping}
use allezon.Types.{UserTag}
use allezon.Messaging.Consuming.{consume}
use allezon.Db.{AggregateKey, AggregatesClient}
use allezon.IdClient.{Client, get_u16_id, origin_collection, brand_collection, category_collection}

module _ {S : Type 0} (ids_client : Client S) (aggregates : AggregatesClient S) where
  unfoldable pub get_id : String → String → Exec S ℕ
  get_id collection element = wrapping (get_u16_id ids_client collection element true)

  unfoldable pub update_aggregates : UserTag → Exec S (Unit {0})
  unfolding get_id
  update_aggregates tag = do
    category_id ← get_id category_collection tag.product_info.category_id
    brand_id ← get_id brand_collection tag.product_info.brand_id
    origin ← get_id origin_collection tag.origin
    wrapping (
        aggregates.add (record { category_id = category_id; brand_id = brand_id; origin = origin })
          tag)

  module _ (retry : Exec S (Unit {0}) → Exec S (Unit {0})) where
    unfoldable pub update_aggregates_backoff : UserTag → Exec S (Unit {0})
    update_aggregates_backoff tag = wrapping (retry (update_aggregates tag))

    -- The error of a tag is logged, and the next tag is taken.
    unfoldable pub run_aggregates_processor : List UserTag → Exec S (Unit {0})
    unfolding update_aggregates_backoff
    run_aggregates_processor [] = return tt
    run_aggregates_processor (tag ∷ tags) =
        catch (update_aggregates_backoff tag) (λ e. return tt) >> run_aggregates_processor tags

-- `runAggregatesProcessor` is started on the client that each call of `Aggregates` gives.
unfoldable pub start_processors :
    {S : Type 0} → Exec S (AggregatesClient S) → ℕ → Exec S (List (AggregatesClient S))
start_processors aggregates zero = return []
start_processors aggregates (suc n) = do
  client ← aggregates
  others ← start_processors aggregates n
  return (client ∷ others)

-- `Run`, with at most `sessions` sessions of the consumer: the clients of the processors, and how
-- `Consume` has returned.
unfoldable pub run :
    {S : Type 0}
    → Exec S (AggregatesClient S)
    → ℕ
    → Exec S (Unit {0})
    → (S → Bool)
    → ℕ
    → Exec S (List (AggregatesClient S) × Option (Unit {0}))
unfolding start_processors
run aggregates num_processors session cancelled sessions = do
  clients ← start_processors aggregates num_processors
  consumed ← wrapping (consume session cancelled sessions)
  return (clients, consumed)

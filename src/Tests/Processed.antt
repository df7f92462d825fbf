-- ===== src/Tests/Processed.antt =====
-- The worker and the consumer at small inputs.
use allezon.Base.{ℕ, ◌≡◌, ◌≢◌, ◌↔◌, refl, List, [], ◌∷◌, ◌++◌, map, Result, ok, panic}
use allezon.Base.Exec.{Exec, return}
use allezon.Types.{UserTag}
use allezon.Types.Marshal.{marshal_user_tag, unmarshal_user_tag}
use allezon.Db.{AggregatesClient, AggregateKey}
use allezon.IdClient.{Client, origin_collection, brand_collection, category_collection, get_u16_id}
use allezon.Worker.{update_aggregates, update_aggregates_backoff, run_aggregates_processor}
use allezon.Worker.Updates.{
  Identified, key_of, update_aggregates_iff, state_after, run_aggregates_processor_lem,
}
use allezon.Messaging.{Message, message, done, Claim, consume_claim}
use allezon.Messaging.Delivery.{delivered, consume_claim_delivers}
use allezon.Tests.Data.{sale, visit}
use allezon.Tests.Wire.{wire}

-- The keys and tags that were added.
abbrev pub Log : Type 0
Log = List (AggregateKey × UserTag)

abbrev pub log : AggregatesClient Log
log = record { get = λ t action. return []; add = λ k tag s. (ok tt, (k, tag) ∷ s) }

abbrev pub ids : Client Log
ids = record { get_id = λ collection element create_missing. return 5 }

abbrev logged : Log
logged = (key_of 5 5 5, sale) ∷ []

-- The body is run once.
abbrev pub once : Exec Log (Unit {0}) → Exec Log (Unit {0})
once m = m

update_aggregates_iff_example : (update_aggregates ids log sale [] ≡ (ok tt, logged)) ↔ (
    (category : ℕ) × (brand : ℕ) × (origin : ℕ) × (st₁ : Log) × (st₂ : Log) × (st₃ : Log)
    × Identified ids log category_collection "socks" category [] st₁
    × Identified ids log brand_collection "brand" brand st₁ st₂
    × Identified ids log origin_collection "shop" origin st₂ st₃
    × (log.add (key_of category brand origin) sale st₃ ≡ (ok tt, logged)))
update_aggregates_iff_example = update_aggregates_iff ids log sale [] logged

sale_updated : update_aggregates_backoff ids log once sale [] ≡ (ok tt, logged)
unfolding update_aggregates_backoff update_aggregates get_u16_id
sale_updated = refl

pub never_panics :
    (tag : UserTag) (st : Log) → (update_aggregates_backoff ids log once tag st).0 ≢ panic
unfolding update_aggregates_backoff update_aggregates get_u16_id
never_panics tag st h = cc

run_aggregates_processor_lem_example :
    run_aggregates_processor ids log once (sale ∷ visit ∷ []) []
    ≡ (ok tt, state_after ids log once (sale ∷ visit ∷ []) [])
run_aggregates_processor_lem_example =
    run_aggregates_processor_lem ids log once (sale ∷ visit ∷ []) [] never_panics

abbrev pub bytes_of : Result (List ℕ) → List ℕ
bytes_of (ok bytes) = bytes
bytes_of _ = []

abbrev pub letter : Message
letter = record { value = bytes_of (marshal_user_tag wire sale); offset = 0 }

abbrev pub noise : Message
noise = record { value = []; offset = 1 }

abbrev start : Claim
start = record { tags = []; marked = [] }

consume_claim_delivers_example :
    consume_claim wire (map message (letter ∷ noise ∷ []) ++ (done ∷ [])) start
    ≡ consume_claim wire (done ∷ []) (delivered wire start (letter ∷ noise ∷ []))
unfolding marshal_user_tag unmarshal_user_tag
consume_claim_delivers_example =
    consume_claim_delivers wire (letter ∷ noise ∷ []) (done ∷ []) start (refl, (refl, tt))

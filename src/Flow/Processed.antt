-- ===== src/Flow/Processed.antt =====
-- What the worker's processing of tags leaves in the records of the aggregates.
use allezon.Base.{
  ℕ, ◌^◌, ◌<◌, ◌≤◌, ◌≡◌, refl, sym, ap, subst, ◌∙◌, String, true, false, List, [], ◌∷◌, All, Result,
  ok,
}
use allezon.Base.Exec.{Exec, ◌>>◌, return, >>=-ok}
use allezon.Types.{UserTag}
use allezon.Types.Roundtrip.{IsAction}
use allezon.Db.{AggregateKey, AggregatesClient}
use allezon.Db.Aerospike.{Database}
use allezon.Db.Aggregates.Client.{get, add_tag}
use allezon.Db.Aggregates.Writing.{AggregatesLaws}
use allezon.Db.Aggregates.Counting.{Event, IsEvent, AllEvents}
use allezon.Db.Aggregates.Held.{RecordsLaws, Counts, nothing-Counts, add_tag-Counts}
use allezon.Db.Aggregates.Indexed.{records_of, Counts-same}
use allezon.IdClient.{Client}
use allezon.Api.Aggregates.Counted.{last_instant, to_ts-IsInt64}
use allezon.Worker.{update_aggregates}
use allezon.Worker.Updates.{Identified, update_aggregates_iff, key_of}
use allezon.Flow.{NumbersLaws, Names, Stays, Names-Stays, tags_of}

-- The values of a tag are in range.
pub record IsCountable (tag : UserTag) : Type 0 where
  pub time : tag.time ≤ last_instant
  pub action : IsAction tag.action
  pub price : tag.product_info.price < 2 ^ 32

module _ {S : Type 0} (ids : Client S) (aggregates : AggregatesClient S) where
  -- The tags, the newest first, are processed from the oldest on.
  unfoldable pub process : List UserTag → Exec S (Unit {0})
  process [] = return tt
  process (tag ∷ earlier) = process earlier >> update_aggregates ids aggregates tag

-- What `Aggregates` returns for a database
abbrev pub aggregates_client : {S : Type 0} → Database S → AggregatesClient S
aggregates_client db = record { get = get db; add = add_tag db }

module _ {S : Type 0} (db : Database S) (laws : AggregatesLaws db) (more : RecordsLaws db laws)
    (ids : Client S) (numbers : NumbersLaws (records_of db laws) ids)
    (add-stays : (k : AggregateKey) (tag : UserTag) (st : S)
      → Stays (records_of db laws) ids numbers st (add_tag db k tag st).1)
    (add-ready : (k : AggregateKey) (tag : UserTag) (st : S)
      → numbers.is_ready st
      → numbers.is_ready (add_tag db k tag st).1) where
  abbrev TagNames : S → Event → Type 0
  TagNames = Names (records_of db laws) ids numbers

  abbrev IdsStay : S → S → Type 0
  IdsStay = Stays (records_of db laws) ids numbers

  -- The records hold tags, under the ids of their categories, brands and origins.
  pub record Holds (st : S) (tags : List UserTag) : Type 0 where
    pub events : List Event
    pub are : tags_of events ≡ tags
    pub valid : AllEvents events
    pub named : All (TagNames st) events
    pub counts : Counts db laws st events
    pub ready : numbers.is_ready st

  -- An id that the service gives
  identified :
      (c e : String) (id : ℕ) (st st' : S)
      → numbers.is_ready st
      → Identified ids (aggregates_client db) c e id st st'
      → numbers.is_ready st'
        × numbers.has_id st' c e id
        × (id < 2 ^ 16)
        × IdsStay st st'
        × (records_of db laws st' ≡ records_of db laws st)
  unfolding Identified
  identified c e id st st' ready (got, fits) =
      let (still, had, stays) = numbers.get_id-ok c e true id st st' ready got in
      let after : (ids.get_id c e true st).1 ≡ st' = ap (λ (o : Result ℕ × S). o.1) got in
      (
        still,
        had,
        fits,
        stays,
        ap (records_of db laws) (sym after) ∙ numbers.get_id-Keeps c e true st,
      )

  update_aggregates-Holds :
      (tag : UserTag) (tags : List UserTag) (st st' : S)
      → IsCountable tag
      → Holds st tags
      → update_aggregates ids (aggregates_client db) tag st ≡ (ok tt, st')
      → Holds st' (tag ∷ tags)
  update_aggregates-Holds tag tags st st' valid holds h =
      let (category, brand, origin, st₁, st₂, st₃, first, second, third, added) =
        (update_aggregates_iff ids (aggregates_client db) tag st st').0 h in
      let k = key_of category brand origin in
      let (ready₁, c_had, c_fits, stays₁, same₁) =
        identified _ _ category st st₁ holds.ready first in
      let (ready₂, b_had, b_fits, stays₂, same₂) = identified _ _ brand st₁ st₂ ready₁ second in
      let (ready₃, o_had, o_fits, stays₃, same₃) = identified _ _ origin st₂ st₃ ready₂ third in
      let stays₄ : IdsStay st₃ st' = λ c e n had.
        subst (λ st. numbers.has_id st c e n) (ap (λ (o : Result (Unit {0}) × S). o.1) added)
          (add-stays k tag st₃ c e n had) in
      let is_event : IsEvent (k, tag) = record {
        key = record { category_id = c_fits; brand_id = b_fits; origin = o_fits };
        minute = to_ts-IsInt64 tag.time valid.time;
        action = valid.action;
        price = valid.price;
      } in
      let counted =
        add_tag-Counts db laws more (k, tag) holds.events st₃ st' is_event
          (Counts-same db laws holds.events st st₃ (same₃ ∙ same₂ ∙ same₁) holds.counts) added in
      record {
        events = (k, tag) ∷ holds.events;
        are = ap (λ tags. tag ∷ tags) holds.are;
        valid = (is_event, holds.valid);
        named = (
          (
            stays₄ _ _ _ (stays₃ _ _ _ (stays₂ _ _ _ c_had)),
            stays₄ _ _ _ (stays₃ _ _ _ b_had),
            stays₄ _ _ _ o_had,
          ),
          Names-Stays (records_of db laws) ids numbers st st'
              (λ c e n had. stays₄ c e n (stays₃ c e n (stays₂ c e n (stays₁ c e n had))))
              holds.events holds.named,
        );
        counts = counted;
        ready =
            subst numbers.is_ready (ap (λ (o : Result (Unit {0}) × S). o.1) added)
              (add-ready k tag st₃ ready₃);
      }

  -- On an empty set, tags that are processed with success are what the records hold.
  pub process-Holds :
      (tags : List UserTag) (st st' : S)
      → numbers.is_ready st
      → ((n : String) → laws.has st n ≡ false)
      → All IsCountable tags
      → process ids (aggregates_client db) tags st ≡ (ok tt, st')
      → Holds st' tags
  unfolding process
  process-Holds [] st st' ready empty h done =
      let same : st ≡ st' = ap (λ (o : Result (Unit {0}) × S). o.1) done in
      record {
        events = [];
        are = refl;
        valid = tt;
        named = tt;
        counts = subst (λ st. Counts db laws st []) same (nothing-Counts db laws st empty);
        ready = subst numbers.is_ready same ready;
      }
  process-Holds (tag ∷ earlier) st st' ready empty h done =
      let (u, st₁, before, last) =
        >>=-ok (process ids (aggregates_client db) earlier)
          (λ u. update_aggregates ids (aggregates_client db) tag) st tt st' done in
      update_aggregates-Holds tag earlier st₁ st' h.0
        (process-Holds earlier st st₁ ready empty h.1 before) last

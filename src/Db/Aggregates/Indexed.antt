-- ===== src/Db/Aggregates/Indexed.antt =====
-- `Aggregates` of src/pkg/db/db.go and `createIndex` of src/pkg/db/aggregates.go: what they keep.
use allezon.Base.{ℕ, ◌≡◌, sym, ap, ◌∙◌, String, Bool, Option, List, Error, Result, ok, arith}
use allezon.Base.Exec.{◌>>◌, return, catch, >>=-ok, return-ok}
use allezon.Base.Keeps.{Keeps, >>=-Keeps, catch-Keeps}
use allezon.Db.{AggregatesClient}
use allezon.Db.Aerospike.{Database}
use allezon.Db.Aggregates.{
  aggregates_namespace, aggregates_set, aggregates_index, aggregates_ts_bin,
}
use allezon.Db.Aggregates.Codec.{to_key}
use allezon.Db.Aggregates.Client.{get, add_tag, aggregates, create_index, index_error}
use allezon.Db.Aggregates.Writing.{AggregatesLaws, action_bin, or_zero}
use allezon.Db.Aggregates.Counting.{Event}
use allezon.Db.Aggregates.Held.{Counts}

module _ {S : Type 0} (db : Database S) (laws : AggregatesLaws db) where
  -- What the database has of the aggregates
  abbrev pub records_of : S → (String → Bool) × (String → String → Option ℕ)
  records_of s = (laws.has s, laws.cell s)

  -- The creation of an index changes no record.
  pub record IndexLaws : Type 0 where
    pub create_index-Keeps :
        Keeps records_of
          (db.create_index aggregates_namespace aggregates_set aggregates_index aggregates_ts_bin)
    pub on_complete-Keeps : Keeps records_of db.on_complete

  pub Counts-same :
      (events : List Event) (s s' : S)
      → records_of s' ≡ records_of s
      → Counts db laws s events
      → Counts db laws s' events
  Counts-same events s s' same holds =
      let had : (n : String) → laws.has s' n ≡ laws.has s n = λ n. ap (λ r. r.0 n) same in
      let held : (n b : String) → laws.cell s' n b ≡ laws.cell s n b =
        λ n b. ap (λ r. r.1 n b) same in
      record {
        counters = λ ts k a hts hk ha.
            ap or_zero (held (to_key ts k) (action_bin a)) ∙ holds.counters ts k a hts hk ha;
        records = λ n. had n ∙ holds.records n;
        minutes = λ ts k hts hk there.
            held (to_key ts k) aggregates_ts_bin
            ∙ holds.minutes ts k hts hk (sym (had (to_key ts k)) ∙ there);
      }

  index_error-Keeps : (e : Error) → Keeps records_of (index_error db e)
  unfolding index_error
  index_error-Keeps e s = ground arith

  create_index-Keeps : IndexLaws → Keeps records_of (create_index db)
  unfolding create_index
  create_index-Keeps index =
      let create =
        db.create_index aggregates_namespace aggregates_set aggregates_index aggregates_ts_bin in
      let wait = catch db.on_complete (index_error db) in
      catch-Keeps records_of (create >> wait) (index_error db)
        (>>=-Keeps records_of create (λ u. wait) index.create_index-Keeps
          (λ u.
            catch-Keeps records_of db.on_complete (index_error db) index.on_complete-Keeps
              index_error-Keeps))
        index_error-Keeps

  -- `client.Aggregates` returns the client of the database, and keeps the records.
  pub aggregates-ok :
      (s s' : S) (client : AggregatesClient S)
      → IndexLaws
      → aggregates db s ≡ (ok client, s')
      → (client ≡ record { get = get db; add = add_tag db }) × (records_of s' ≡ records_of s)
  unfolding aggregates
  aggregates-ok s s' client index h =
      let made : AggregatesClient S = record { get = get db; add = add_tag db } in
      let (u, s₁, created, done) = >>=-ok (create_index db) (λ u. return made) s client s' h in
      let (is, same) = return-ok made client s₁ s' done in
      (
        sym is,
        ap records_of same
            ∙ ap (λ (o : Result (Unit {0}) × S). records_of o.1) (sym created)
            ∙ create_index-Keeps index s,
      )

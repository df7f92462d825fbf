-- ===== src/Db/Aggregates/Found.antt =====
-- What `Get` of src/pkg/db/aggregates.go finds, by the tags that `Add` has added.
use allezon.Base.{
  ℕ, ◌≡◌, inl, inr, refl, sym, ap, ap₂, subst, ◌∙◌, String, true, Option, none, some, List, [], ◌∷◌,
  map, All, Result, ok, ℤ, eq_ℤ_iff, int64_pattern, arith, eq_refl, Bool-cases,
}
use allezon.Base.Exec.{reads, lift, wrapping, >>=-ok, lift-ok, wrapping-ok}
use allezon.Base.Decimal.Laws.{IsInt64}
use allezon.Time.{Time}
use allezon.Types.Roundtrip.{IsAction}
use allezon.Db.{AggregateKey, ActionAggregates, IsAggregateKey}
use allezon.Db.Aerospike.{Database, Record, bin}
use allezon.Db.Aggregates.{aggregates_ts_bin, read_results, read_result, read_bin}
use allezon.Db.Aggregates.Codec.{to_ts, to_key}
use allezon.Db.Aggregates.Client.{get}
use allezon.Db.Aggregates.Reading.{Entry, entry_bins, aggregates_of, read_record-entry}
use allezon.Db.Aggregates.Writing.{AggregatesLaws, action_bin, action_to_bin-action_bin}
use allezon.Db.Aggregates.Counting.{Event, AllEvents, to_key-eq}
use allezon.Db.Aggregates.Held.{Counts, named, record_name}
use allezon.Db.Aggregates.Tallied.{has_key, Distinct, at_minute}
use allezon.Db.Aggregates.Queried.{
  member, DistinctNames, selects, minute_statement, QueryLaws, all_ok, pattern_injective,
  named-event, members-All,
}

-- Names of records of one minute are told apart by their keys.
has_key-member :
    (ts : ℤ) (k : AggregateKey) (keys : List AggregateKey)
    → IsInt64 ts
    → IsAggregateKey k
    → All IsAggregateKey keys
    → has_key k keys ≡ member (to_key ts k) (map (to_key ts) keys)
unfolding has_key member
has_key-member ts k [] hts hk h = refl
has_key-member ts k (k' ∷ keys) hts hk h = rw (
  to_key-eq ts ts k' k hts hts h.0 hk,
  (eq_ℤ_iff ts ts).1 refl,
  has_key-member ts k keys hts hk h.1,
)

keys-Distinct :
    (ts : ℤ) (keys : List AggregateKey)
    → IsInt64 ts
    → All IsAggregateKey keys
    → DistinctNames (map (to_key ts) keys)
    → Distinct keys
unfolding DistinctNames Distinct
keys-Distinct ts [] hts h d = tt
keys-Distinct ts (k ∷ keys) hts h d =
    (has_key-member ts k keys hts h.0 h.1 ∙ d.0, keys-Distinct ts keys hts h.1 d.1)

-- The pass of the loop for one record
read_entry :
    (ts : ℤ) (b : String) (k : AggregateKey) (o : Option ℕ) (r : Record)
    (rest : Result (List ActionAggregates)) (entries : List Entry)
    → IsInt64 ts
    → IsAggregateKey k
    → r.key.value ≡ some (to_key ts k)
    → r.bins ≡ entry_bins b o
    → rest ≡ ok (aggregates_of entries)
    → read_bin ts r.key (bin b r.bins) rest ≡ ok (aggregates_of ((k, o) ∷ entries))
unfolding read_bin
read_entry ts b k none r rest entries hts hk value bins is = rw bins is
read_entry ts b k (some v) r rest entries hts hk value bins is =
    rw (bins, eq_refl b, read_record-entry ts k v r.key hts hk value, is)

module _ {S : Type 0} (db : Database S) (laws : AggregatesLaws db) where
  open laws use {has, cell}

  -- A record that the query of a minute selects is that of a key in this minute.
  selected :
      (ts : ℤ) (s : S) (events : List Event) (n : String)
      → IsInt64 ts
      → AllEvents events
      → Counts db laws s events
      → selects (int64_pattern ts) (cell s n aggregates_ts_bin) ≡ true
      → (k : AggregateKey) × IsAggregateKey k × (n ≡ to_key ts k)
  selected ts s events n hts h holds is = elim (Bool-cases (has s n)) [
    | inl there ↦
        let (e, he, name) = named-event n events h (sym (holds.records n) ∙ there) in
        let here : has s (record_name e) ≡ true = ap (has s) (sym name) ∙ there in
        let bin_is = holds.minutes (to_ts e.1.time) e.0 he.minute he.key here in
        let value : cell s n aggregates_ts_bin ≡ some (int64_pattern (to_ts e.1.time)) =
          ap (λ n. cell s n aggregates_ts_bin) name ∙ bin_is in
        let same : to_ts e.1.time ≡ ts =
          pattern_injective (to_ts e.1.time) ts he.minute hts (rw value at is) in
        (e.0, he.key, name ∙ ap (λ ts. to_key ts e.0) same)
    | inr missing ↦ cc (is, laws.cell-missing s n aggregates_ts_bin missing)
  ]

  minute_keys :
      (ts : ℤ) (s : S) (events : List Event) (names : List String)
      → IsInt64 ts
      → AllEvents events
      → Counts db laws s events
      → All (λ n. selects (int64_pattern ts) (cell s n aggregates_ts_bin) ≡ true) names
      → (keys : List AggregateKey) × (names ≡ map (to_key ts) keys) × All IsAggregateKey keys
  minute_keys ts s events [] hts h holds is = ([], refl, tt)
  minute_keys ts s events (n ∷ names) hts h holds is =
      let (k, hk, first) = selected ts s events n hts h holds is.0 in
      let (keys, rest, hkeys) = minute_keys ts s events names hts h holds is.1 in
      (k ∷ keys, ap₂ (λ x y. x ∷ y) first rest, (hk, hkeys))

  -- What the records of `keys` hold in a minute and the bin of an action
  abbrev pub entries_at : S → ℤ → ℕ → List AggregateKey → List Entry
  entries_at s ts a keys = map (λ k. (k, cell s (to_key ts k) (action_bin a))) keys

  module _ (query : QueryLaws db laws) where
    read_stored :
        (s : S) (ts : ℤ) (a : ℕ) (keys : List AggregateKey)
        → IsInt64 ts
        → All IsAggregateKey keys
        → read_results ts
            (action_bin a)
            (map (λ r. ok r) (map (query.stored s (action_bin a)) (map (to_key ts) keys)))
          ≡ ok (aggregates_of (entries_at s ts a keys))
    unfolding read_results read_result
    read_stored s ts a [] hts h = refl
    read_stored s ts a (k ∷ keys) hts h =
        read_entry ts (action_bin a) k (cell s (to_key ts k) (action_bin a))
          (query.stored s (action_bin a) (to_key ts k)) _ (entries_at s ts a keys) hts h.0
          (query.stored-value s (action_bin a) (to_key ts k))
          (query.stored-bins s (action_bin a) (to_key ts k)) (read_stored s ts a keys hts h.1)

    -- The query and the loop of a `Get` that succeeds
    queried :
        (t : Time) (a : ℕ) (s s' : S) (found : List ActionAggregates)
        → IsAction a
        → get db t a s ≡ (ok found, s')
        → (records : List Record) × (db.query (minute_statement (to_ts t) (action_bin a)) s
            ≡ ok (map (λ r. ok r) records))
          × (read_results (to_ts t) (action_bin a) (map (λ r. ok r) records) ≡ ok found)
          × (s' ≡ s)
    unfolding get
    queried t a s s' found ha done =
        let ts = to_ts t in
        let b = action_bin a in
        let ask = reads (db.query (minute_statement ts b)) in
        let (results, s₁, asked, rest) =
          >>=-ok (wrapping ask) (λ results. lift (read_results ts b results)) s found s'
            (rw (action_to_bin-action_bin a ha) at done) in
        let (answer, same) =
          lift-ok (db.query (minute_statement ts b) s) s results s₁
            (wrapping-ok ask s results s₁ asked) in
        let (read, left) = lift-ok (read_results ts b results) s₁ found s' rest in
        let (records, is) = all_ok ts b results found read in
        (records, answer ∙ ap (λ l. ok l) is, rw is at read, left ∙ same)

    covered :
        (s : S) (ts : ℤ) (a : ℕ) (keys : List AggregateKey) (events some_events : List Event)
        → IsInt64 ts
        → All IsAggregateKey keys
        → ((n : String)
            → member n (map (to_key ts) keys)
              ≡ selects (int64_pattern ts) (cell s n aggregates_ts_bin))
        → Counts db laws s events
        → AllEvents some_events
        → ((n : String) → named n some_events ≡ true → named n events ≡ true)
        → All (λ e. at_minute ts a e ≡ true → has_key e.0 keys ≡ true) some_events
    unfolding named
    covered s ts a keys events [] hts hk is holds h among = tt
    covered s ts a keys events (e ∷ others) hts hk is holds h among =
        let rest =
          covered s ts a keys events others hts hk is holds h.1
            (λ n there. among n (rw there (ground arith))) in
        (
          λ at_ts.
              let same : to_ts e.1.time ≡ ts =
                sym ((eq_ℤ_iff ts (to_ts e.1.time)).0 (ground arith)) in
              let there : has s (record_name e) ≡ true =
                holds.records (record_name e)
                ∙ among (record_name e) (rw (eq_refl (record_name e)) refl) in
              let value = holds.minutes (to_ts e.1.time) e.0 h.0.minute h.0.key there in
              let name : record_name e ≡ to_key ts e.0 = ap (λ ts. to_key ts e.0) same in
              has_key-member ts e.0 keys hts h.0.key hk
              ∙ is (to_key ts e.0)
              ∙ rw (← name, value, same) (ground arith),
          rest,
        )

    -- `found` is what the records of some keys hold, each key once, among them that of every tag of
    -- the minute.
    pub record Finds (s : S) (ts : ℤ) (a : ℕ) (events : List Event) (found : List ActionAggregates)
        : Type 0 where
      pub keys : List AggregateKey
      pub valid : All IsAggregateKey keys
      pub distinct : Distinct keys
      pub covers : All (λ e. at_minute ts a e ≡ true → has_key e.0 keys ≡ true) events
      pub is : found ≡ aggregates_of (entries_at s ts a keys)

    -- A `Get` that succeeds finds what the records of the minute hold.
    pub get-Finds :
        (t : Time) (a : ℕ) (events : List Event) (s s' : S) (found : List ActionAggregates)
        → IsInt64 (to_ts t)
        → IsAction a
        → AllEvents events
        → Counts db laws s events
        → get db t a s ≡ (ok found, s')
        → Finds s (to_ts t) a events found × (s' ≡ s)
    get-Finds t a events s s' found hts ha h holds done =
        let ts = to_ts t in
        let (records, asked, read, same) = queried t a s s' found ha done in
        let (names, these, apart, members) = query.query-ok ts (action_bin a) s records asked in
        let (keys, are, valid) =
          minute_keys ts s events names hts h holds
            (members-All _ names (λ n there. sym (members n) ∙ there)) in
        let members' =
          subst
            (λ names.
              (n : String)
              → member n names ≡ selects (int64_pattern ts) (cell s n aggregates_ts_bin))
            are members in
        let answer = read_stored s ts a keys hts valid in
        (
          record {
            keys = keys;
            valid = valid;
            distinct = keys-Distinct ts keys hts valid (subst DistinctNames are apart);
            covers =
                covered s ts a keys events events hts valid members' holds h (λ n there. there);
            is = cc (read, these, are, answer);
          },
          same,
        )

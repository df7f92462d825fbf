-- ===== src/Db/Aggregates/Held.antt =====
-- What the records of src/pkg/db/aggregates.go hold, by the tags that `Add` has added.
use allezon.Base.{
  ℕ, suc, ◌+◌, ◌*◌, ◌%◌, ◌^◌, ◌<◌, ◌≡◌, inl, inr, refl, sym, ap, subst, ◌∙◌, String, Bool, true,
  false, ◌||◌, some, List, [], ◌∷◌, Result, ok, ℤ, int64_pattern, arith, str_eq, eq_iff, length,
  Bool-cases, ◌==◌, if◌then◌else◌,
}
use allezon.Base.Exec.{>>=-ok}
use allezon.Base.Decimal.Laws.{IsInt64}
use allezon.Types.{buy}
use allezon.Types.Roundtrip.{IsAction}
use allezon.Db.{AggregateKey, IsAggregateKey}
use allezon.Db.Aerospike.{Database, Record, Bins, add}
use allezon.Db.Aggregates.{aggregates_ts_bin}
use allezon.Db.Aggregates.Codec.{to_ts, to_key, encode_sum_and_count}
use allezon.Db.Aggregates.Client.{update_policy, create_policy, add_tag}
use allezon.Db.Aggregates.Encoding.{total, encode_price, to_key-injective}
use allezon.Db.Aggregates.Writing.{
  AggregatesLaws, add_tag-ways, Updated, Created, action_bin, bins_of,
}
use allezon.Db.Aggregates.Counting.{
  Event, IsEvent, AllEvents, prices_of, add_all, counter, counter_step, belongs,
}

-- The name of the record that an event is counted in.
abbrev pub record_name : Event → String
record_name (k, tag) = to_key (to_ts tag.time) k

-- Whether a name is that of a record of an event.
unfoldable pub named : String → List Event → Bool
named n [] = false
named n (e ∷ events) = str_eq n (record_name e) || named n events

-- The events so far, the newest first, after more of them.
unfoldable pub logged : List Event → List Event → List Event
logged [] earlier = earlier
logged (e ∷ events) earlier = logged events (e ∷ earlier)

-- What the database documents of `has` beyond `AggregatesLaws`: an update finds its record, only a
-- creation makes one, and the bin of the index is as any other.
pub record RecordsLaws {S : Type 0} (db : Database S) (laws : AggregatesLaws db) : Type 0 where
  pub operate-found :
      (n b : String) (v : ℕ) (s s' : S) (r : Record)
      → db.operate update_policy (laws.open_key n) (add b v) s ≡ (ok r, s')
      → (laws.has s n ≡ true) × ((m : String) → laws.has s' m ≡ laws.has s m)
  pub put-has :
      (n : String) (bins : Bins) (s s' : S)
      → db.put create_policy (laws.open_key n) bins s ≡ (ok tt, s')
      → (m : String) → laws.has s' m ≡ (str_eq m n || laws.has s m)

-- One tag more in the encoded sum.
one_more :
    (n t p c : ℕ)
    → p < 2 ^ 32
    → c ≡ (n * 2 ^ 48 + t) % 2 ^ 64
    → (c + encode_sum_and_count p) % 2 ^ 64 ≡ (suc n * 2 ^ 48 + (p + t)) % 2 ^ 64
one_more n t p c h is = omega (arith, encode_price p h)

not_ts_bin : (a : ℕ) → str_eq aggregates_ts_bin (action_bin a) ≡ false
not_ts_bin a = elim (Bool-cases (a == buy)) [ inl e ↦ rw e | inr e ↦ rw e ]

module _ {S : Type 0} (db : Database S) (laws : AggregatesLaws db) where
  open laws use {has, cell}

  -- The records hold the numbers and prices of `events`, in bins that wrap at 64 bits, and no others.
  pub record Counts (s : S) (events : List Event) : Type 0 where
    pub counters :
        (ts : ℤ) (k : AggregateKey) (a : ℕ)
        → IsInt64 ts
        → IsAggregateKey k
        → IsAction a
        → counter db laws s ts k a
          ≡ (length (prices_of ts k a events) * 2 ^ 48 + total (prices_of ts k a events)) % 2 ^ 64
    pub records : (n : String) → has s n ≡ named n events
    pub minutes :
        (ts : ℤ) (k : AggregateKey)
        → IsInt64 ts
        → IsAggregateKey k
        → has s (to_key ts k) ≡ true
        → cell s (to_key ts k) aggregates_ts_bin ≡ some (int64_pattern ts)

  -- A store without records
  pub nothing-Counts : (s : S) → ((n : String) → has s n ≡ false) → Counts s []
  unfolding named
  nothing-Counts s none_there = record {
    counters = λ ts k a hts hk ha.
        rw (laws.cell-missing s (to_key ts k) (action_bin a) (none_there (to_key ts k))) refl;
    records = none_there;
    minutes = λ ts k hts hk there. cc (there, none_there (to_key ts k));
  }

  counters_step :
      (e : Event) (events : List Event) (s s' : S)
      → IsEvent e
      → Counts s events
      → add_tag db e.0 e.1 s ≡ (ok tt, s')
      → (ts : ℤ) (k : AggregateKey) (a : ℕ) → IsInt64 ts
      → IsAggregateKey k
      → IsAction a
      → counter db laws s' ts k a
        ≡ (length (prices_of ts k a (e ∷ events)) * 2 ^ 48 + total (prices_of ts k a (e ∷ events)))
          % 2 ^ 64
  counters_step e events s s' he holds done ts k a hts hk ha =
      let before = holds.counters ts k a hts hk ha in
      let step = counter_step db laws ts k a e s s' hts hk ha he done in
      elim (Bool-cases (belongs ts k a e)) [
        | inl here ↦
            rw (step, here)
              (one_more (length (prices_of ts k a events)) (total (prices_of ts k a events))
                e.1.product_info.price (counter db laws s ts k a) he.price before)
        | inr elsewhere ↦ rw (step, elsewhere) before
      ]

  module _ (more : RecordsLaws db laws) where
    kept_by_update :
        (e : Event) (events : List Event) (v : ℕ) (s s' : S)
        → Counts s events
        → Updated db laws (record_name e) (action_bin e.1.action) v s s'
        → ((n : String) → has s' n ≡ named n (e ∷ events))
          × ((n : String) → cell s' n aggregates_ts_bin ≡ cell s n aggregates_ts_bin)
          × ((n : String) → has s' n ≡ has s n)
    unfolding named
    kept_by_update e events v s s' holds (r, is) =
        let n = record_name e in
        let b = action_bin e.1.action in
        let (found, kept) = more.operate-found n b v s s' r is in
        (
          λ m.
              let same : has s' m ≡ has s m = kept m in
              let held = holds.records m in
              elim (Bool-cases (str_eq m n)) [
                | inl here ↦
                    let there : has s m ≡ true = ap (has s) ((eq_iff m n).0 here) ∙ found in
                    rw here (same ∙ there)
                | inr elsewhere ↦ rw elsewhere (same ∙ held)
              ],
          λ m.
              rw (laws.operate-ok n b v s s' r is m aggregates_ts_bin, not_ts_bin e.1.action)
                (ground arith),
          kept,
        )

    kept_by_creation :
        (e : Event) (events : List Event) (v : ℕ) (s s' : S)
        → Counts s events
        → Created db laws (to_ts e.1.time) (record_name e) (action_bin e.1.action) v s s'
        → ((n : String) → has s' n ≡ named n (e ∷ events))
          × ((n : String)
              → cell s' n aggregates_ts_bin ≡ (
                  if str_eq n (record_name e)
                  then some (int64_pattern (to_ts e.1.time))
                  else cell s n aggregates_ts_bin))
          × ((n : String) → has s' n ≡ (str_eq n (record_name e) || has s n))
    unfolding named
    kept_by_creation e events v s s' holds (fresh, is) =
        let n = record_name e in
        let b = action_bin e.1.action in
        let bins = bins_of db laws (to_ts e.1.time) b v in
        let have = more.put-has n bins s s' is in
        (
          λ m. rw (have m, holds.records m),
          λ m. rw (laws.put-ok n bins s s' is m aggregates_ts_bin) (
              ground (
                arith,
                eq_iff b aggregates_ts_bin,
                eq_iff aggregates_ts_bin b,
                not_ts_bin e.1.action,
              )),
          have,
        )

    -- The bin of the index stays that of the minute.
    minutes_step :
        (e : Event) (events : List Event) (s s' : S)
        → IsEvent e
        → Counts s events
        → add_tag db e.0 e.1 s ≡ (ok tt, s')
        → ((n : String) → has s' n ≡ named n (e ∷ events))
          × ((ts : ℤ) (k : AggregateKey)
              → IsInt64 ts
              → IsAggregateKey k
              → has s' (to_key ts k) ≡ true
              → cell s' (to_key ts k) aggregates_ts_bin ≡ some (int64_pattern ts))
    minutes_step e events s s' he holds done =
        let v = encode_sum_and_count e.1.product_info.price in
        elim (add_tag-ways db laws e.0 e.1 s s' he.action done) [
          | inl updated ↦
              let (have, kept, same) = kept_by_update e events v s s' holds updated in
              (
                have,
                λ ts k hts hk there.
                    kept (to_key ts k)
                    ∙ holds.minutes ts k hts hk (sym (same (to_key ts k)) ∙ there),
              )
          | inr made ↦
              let (have, cells, had) = kept_by_creation e events v s s' holds made in
              (
                have,
                λ ts k hts hk there. elim (Bool-cases (str_eq (to_key ts k) (record_name e))) [
                  | inl here ↦
                      let (p, q) =
                        to_key-injective ts (to_ts e.1.time) k e.0 hts he.minute hk he.key
                          ((eq_iff _ _).0 here) in
                      rw (cells (to_key ts k), here, p)
                  | inr elsewhere ↦
                      let before : has s (to_key ts k) ≡ true =
                        rw (had (to_key ts k), elsewhere) at there in
                      rw (cells (to_key ts k), elsewhere) (holds.minutes ts k hts hk before)
                ],
              )
        ]

    -- An `Add` that succeeds counts its tag.
    pub add_tag-Counts :
        (e : Event) (events : List Event) (s s' : S)
        → IsEvent e
        → Counts s events
        → add_tag db e.0 e.1 s ≡ (ok tt, s')
        → Counts s' (e ∷ events)
    add_tag-Counts e events s s' he holds done =
        let (have, minutes) = minutes_step e events s s' he holds done in
        record {
          counters = counters_step e events s s' he holds done;
          records = have;
          minutes = minutes;
        }

    pub add_all-Counts :
        (events earlier : List Event) (s s' : S)
        → AllEvents events
        → Counts s earlier
        → add_all db laws events s ≡ (ok tt, s')
        → Counts s' (logged events earlier)
    unfolding add_all logged
    add_all-Counts [] earlier s s' h holds done =
        subst (λ s. Counts s earlier) (ap (λ (o : Result (Unit {0}) × S). o.1) done) holds
    add_all-Counts ((k, tag) ∷ events) earlier s s' h holds done =
        let (u, s₁, first, rest) =
          >>=-ok (add_tag db k tag) (λ _. add_all db laws events) s tt s' done in
        add_all-Counts events ((k, tag) ∷ earlier) s₁ s' h.1
          (add_tag-Counts (k, tag) earlier s s₁ h.0 holds first) rest

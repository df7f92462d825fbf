-- ===== src/Db/Aggregates/Writing.antt =====
-- `Add` of src/pkg/db/aggregates.go, and what it asks of the database.
use allezon.Base.{
  ℕ, ◌+◌, ◌%◌, ◌^◌, ◌<◌, ◌≡◌, ◌⊎◌, ◌∙◌, inl, inr, refl, ap, String, Bool, true, false, ◌&&◌, Option,
  none, some, [], ◌∷◌, Error, Result, ok, err, panic, wrapped, matches, key_not_found_error, ℤ,
  int64_pattern, arith, str_eq, eq_iff, ◌==◌, if◌then◌else◌, Bool-cases,
}
use allezon.Base.Exec.{return, throw, handle, continue, wrapping, wrapping-ok}
use allezon.Types.{UserTag, buy}
use allezon.Types.Roundtrip.{IsAction}
use allezon.Db.{AggregateKey}
use allezon.Db.Aerospike.{Database, Key, Record, Bins, Value, scalar, int, bin, add}
use allezon.Db.Aggregates.{
  aggregates_namespace, aggregates_set, aggregates_ts_bin, aggregates_views_bin,
  aggregates_buys_bin, action_to_bin,
}
use allezon.Db.Aggregates.Codec.{to_ts, to_key, encode_sum_and_count}
use allezon.Db.Aggregates.Encoding.{encode_price}
use allezon.Db.Aggregates.Client.{update_policy, create_policy, add_tag}

abbrev pub or_zero : Option ℕ → ℕ
or_zero none = 0
or_zero (some v) = v

abbrev pub int_value : Option Value → Option ℕ
int_value (some (scalar (int v))) = some v
int_value _ = none

-- What the database documents of the operations of `Add`: `has s n` says that the set has a record
-- named `n`, `cell s n b` is the integer in its bin `b`.
pub record AggregatesLaws {S : Type 0} (db : Database S) : Type 0 where
  pub open_key : String → Key
  pub has : S → String → Bool
  pub cell : S → String → String → Option ℕ
  pub new_key_ok : (n : String) → db.new_key aggregates_namespace aggregates_set n ≡ ok (open_key n)
  pub cell-missing : (s : S) (n b : String) → has s n ≡ false → cell s n b ≡ none
  -- an `Add` that succeeds found the record, and added to one bin of it
  pub operate-ok :
      (n b : String) (v : ℕ) (s s' : S) (r : Record)
      → db.operate update_policy (open_key n) (add b v) s ≡ (ok r, s')
      → (m c : String)
      → cell s' m c ≡ (
          if str_eq m n && str_eq c b
          then some ((or_zero (cell s m c) + v) % 2 ^ 64)
          else cell s m c)
  -- one that does not find it changes nothing
  pub operate-not_found :
      (n b : String) (v : ℕ) (s s' : S) (e : Error)
      → db.operate update_policy (open_key n) (add b v) s ≡ (err e, s')
      → matches e key_not_found_error ≡ true
      → (has s n ≡ false) × (s' ≡ s)
  -- a `Put` that creates a record writes its bins and no other record
  pub put-ok :
      (n : String) (bins : Bins) (s s' : S)
      → db.put create_policy (open_key n) bins s ≡ (ok tt, s')
      → (m c : String) → cell s' m c ≡ (if str_eq m n then int_value (bin c bins) else cell s m c)

abbrev pub action_bin : ℕ → String
action_bin a = if a == buy then aggregates_buys_bin else aggregates_views_bin

pub action_to_bin-action_bin : (a : ℕ) → IsAction a → action_to_bin a ≡ ok (action_bin a)
unfolding action_to_bin
action_to_bin-action_bin a (inl e) = rw e
action_to_bin-action_bin a (inr e) = rw e

ts_bin_ne : (a : ℕ) → IsAction a → str_eq aggregates_ts_bin (action_bin a) ≡ false
ts_bin_ne a (inl e) = rw e
ts_bin_ne a (inr e) = rw e

error_not_ok :
    {S : Type 0} {e : Error} (s s' : S) → ◌≡◌ {A = Result (Unit {0}) × S} (err e, s) (ok tt, s') → ⊥
error_not_ok s s' h = cc

module _ {S : Type 0} (db : Database S) (laws : AggregatesLaws db) where
  open laws use {open_key, has, cell, new_key_ok}

  -- What `Add` makes of a cell.
  abbrev pub AddsTo : String → String → ℕ → S → S → Type 0
  AddsTo n b v s s' =
      (m : String) (a : ℕ)
      → IsAction a
      → cell s' m (action_bin a) ≡ (
          if str_eq m n && str_eq (action_bin a) b
          then some ((or_zero (cell s m (action_bin a)) + v) % 2 ^ 64)
          else cell s m (action_bin a))

  abbrev pub bins_of : ℤ → String → ℕ → Bins
  bins_of ts b v = (b, scalar (int v)) ∷ (aggregates_ts_bin, scalar (int (int64_pattern ts))) ∷ []

  created :
      (n b : String) (v : ℕ) (ts : ℤ) (s s' : S)
      → has s n ≡ false
      → v < 2 ^ 64
      → db.put create_policy (open_key n) (bins_of ts b v) s ≡ (ok tt, s')
      → AddsTo n b v s s'
  created n b v ts s s' fresh hv done m a known =
      rw (laws.put-ok n (bins_of ts b v) s s' done m (action_bin a)) (
        ground (
          arith,
          eq_iff m n,
          eq_iff b (action_bin a),
          eq_iff (action_bin a) b,
          ts_bin_ne a known,
          laws.cell-missing s n (action_bin a) fresh,
        ))

  -- The two ways in which an `Add` succeeds: the record is updated, or it is missing and created.
  abbrev pub Updated : String → String → ℕ → S → S → Type 0
  Updated n b v s s' =
      (r : Record) × (db.operate update_policy (open_key n) (add b v) s ≡ (ok r, s'))

  abbrev pub Created : ℤ → String → String → ℕ → S → S → Type 0
  Created ts n b v s s' =
      (has s n ≡ false) × (db.put create_policy (open_key n) (bins_of ts b v) s ≡ (ok tt, s'))

  outcome :
      (ts : ℤ) (n b : String) (v : ℕ) (s s' : S) (o : Result Record × S)
      → db.operate update_policy (open_key n) (add b v) s ≡ o
      → handle
          (continue o.0 (λ _. return tt) o.1).0
          (λ e.
            if matches e key_not_found_error
            then wrapping (db.put create_policy (open_key n) (bins_of ts b v))
            else throw (wrapped e))
          (continue o.0 (λ _. return tt) o.1).1
        ≡ (ok tt, s')
      → Updated n b v s s' ⊎ Created ts n b v s s'
  outcome ts n b v s s' (ok r, s₁) is h =
      inl (r, is ∙ ap (λ (o : Result (Unit {0}) × S). (ok r, o.1)) h)
  outcome ts n b v s s' (err e, s₁) is h = elim (Bool-cases (matches e key_not_found_error)) [
    | inl missing ↦
        let put = db.put create_policy (open_key n) (bins_of ts b v) in
        let (fresh, same) = laws.operate-not_found n b v s s₁ e is missing in
        let done = wrapping-ok put s₁ tt s' (rw missing at h) in inr (fresh, rw same at done)
    | inr found ↦ absurd (error_not_ok s₁ s' (rw found at h))
  ]
  outcome ts n b v s s' (panic, s₁) is h = cc

  pub add_tag-ways :
      (k : AggregateKey) (tag : UserTag) (s s' : S)
      → IsAction tag.action
      → add_tag db k tag s ≡ (ok tt, s')
      → let ts = to_ts tag.time in
        let v = encode_sum_and_count tag.product_info.price in
        Updated (to_key ts k) (action_bin tag.action) v s s'
        ⊎ Created ts (to_key ts k) (action_bin tag.action) v s s'
  unfolding add_tag
  add_tag-ways k tag s s' known h =
      outcome (to_ts tag.time) (to_key (to_ts tag.time) k) (action_bin tag.action)
        (encode_sum_and_count tag.product_info.price) s s' _ refl
        (rw (new_key_ok (to_key (to_ts tag.time) k), action_to_bin-action_bin tag.action known) at
          h)

  -- An `Add` that succeeds has added the encoded price to the cell of the tag's minute, key and
  -- action, 0 if there was none, and to no other cell of an action.
  pub add_tag-AddsTo :
      (k : AggregateKey) (tag : UserTag) (s s' : S)
      → IsAction tag.action
      → tag.product_info.price < 2 ^ 32
      → add_tag db k tag s ≡ (ok tt, s')
      → AddsTo
          (to_key (to_ts tag.time) k)
          (action_bin tag.action)
          (encode_sum_and_count tag.product_info.price)
          s
          s'
  add_tag-AddsTo k tag s s' known fits h = elim (add_tag-ways k tag s s' known h) [
    | inl (r, is) ↦ λ m a known'.
        laws.operate-ok (to_key (to_ts tag.time) k) (action_bin tag.action)
          (encode_sum_and_count tag.product_info.price) s s' r is m (action_bin a)
    | inr (fresh, done) ↦
        created (to_key (to_ts tag.time) k) (action_bin tag.action)
          (encode_sum_and_count tag.product_info.price) (to_ts tag.time) s s' fresh
          (omega (arith, encode_price tag.product_info.price fits)) done
  ]

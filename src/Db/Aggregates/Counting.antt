-- ===== src/Db/Aggregates/Counting.antt =====
-- Sequences of calls of `Add` of src/pkg/db/aggregates.go.
use allezon.Base.{
  ℕ, ◌+◌, ◌%◌, ◌^◌, ◌<◌, ◌≡◌, inl, inr, ◌↔◌, sym, ap, ap₂, Bool, true, ◌&&◌, List, [], ◌∷◌, Result,
  ok, ℤ, eq_ℤ, eq_ℤ_iff, and_iff, test_ext, arith, str_eq, eq_iff, length, ◌==◌, if◌then◌else◌,
}
use allezon.Base.Exec.{Exec, ◌>>◌, return, >>=-ok}
use allezon.Base.Decimal.Laws.{IsInt64}
use allezon.Types.{UserTag}
use allezon.Types.Roundtrip.{IsAction}
use allezon.Db.{AggregateKey, IsAggregateKey}
use allezon.Db.Aerospike.{Database}
use allezon.Db.Aggregates.Codec.{to_ts, to_key, encode_sum_and_count, decode_sum_and_count}
use allezon.Db.Aggregates.Client.{add_tag}
use allezon.Db.Aggregates.Encoding.{
  to_key-injective, accumulate, total, Below, aggregates_exact, total-fits,
}
use allezon.Db.Aggregates.Writing.{AggregatesLaws, add_tag-AddsTo, action_bin, or_zero}

abbrev pub Event : Type 0
Event = AggregateKey × UserTag

-- The values of an event are in range.
pub record IsEvent (e : Event) : Type 0 where
  pub key : IsAggregateKey e.0
  pub minute : IsInt64 (to_ts e.1.time)
  pub action : IsAction e.1.action
  pub price : e.1.product_info.price < 2 ^ 32

abbrev pub AllEvents : List Event → Type 0
AllEvents [] = Unit {0}
AllEvents (e ∷ events) = IsEvent e × AllEvents events

abbrev pub same_key : AggregateKey → AggregateKey → Bool
same_key k k' =
    k.category_id == k'.category_id && (k.brand_id == k'.brand_id && k.origin == k'.origin)

-- Whether an event belongs to a minute, a key and an action.
abbrev pub belongs : ℤ → AggregateKey → ℕ → Event → Bool
belongs ts k a (k', tag) = (eq_ℤ ts (to_ts tag.time) && same_key k k') && a == tag.action

-- The prices of the events that belong there.
abbrev pub prices_of : ℤ → AggregateKey → ℕ → List Event → List ℕ
prices_of ts k a [] = []
prices_of ts k a (e ∷ events) =
    if belongs ts k a e
    then e.1.product_info.price ∷ prices_of ts k a events
    else prices_of ts k a events

pub same_key_iff : (k k' : AggregateKey) → (same_key k k' ≡ true) ↔ (k ≡ k')
same_key_iff k k' = (λ e. ground arith, λ e. rw e (ground arith))

-- The name of a record tells minutes and keys apart.
pub to_key-eq :
    (ts ts' : ℤ) (k k' : AggregateKey)
    → IsInt64 ts
    → IsInt64 ts'
    → IsAggregateKey k
    → IsAggregateKey k'
    → str_eq (to_key ts k) (to_key ts' k') ≡ (eq_ℤ ts ts' && same_key k k')
to_key-eq ts ts' k k' hts hts' hk hk' =
    let fields = and_iff (eq_ℤ ts ts') (same_key k k') in
    test_ext _ _
      (λ e.
        let (p, q) = to_key-injective ts ts' k k' hts hts' hk hk' ((eq_iff _ _).0 e) in
        fields.1 ((eq_ℤ_iff ts ts').1 p, (same_key_iff k k').1 q))
      (λ e.
        let (p, q) = fields.0 e in
        (eq_iff _ _).1 (ap₂ to_key ((eq_ℤ_iff ts ts').0 p) ((same_key_iff k k').0 q)))

pub prices_of-Below :
    (ts : ℤ) (k : AggregateKey) (a : ℕ) (events : List Event)
    → AllEvents events
    → Below (2 ^ 32) (prices_of ts k a events)
prices_of-Below ts k a [] h = tt
prices_of-Below ts k a (e ∷ events) h = ground (arith, prices_of-Below ts k a events h.1)

action_bin-eq :
    (a b : ℕ) → IsAction a → IsAction b → str_eq (action_bin a) (action_bin b) ≡ (a == b)
action_bin-eq a b (inl p) (inl q) = rw (p, q)
action_bin-eq a b (inl p) (inr q) = rw (p, q)
action_bin-eq a b (inr p) (inl q) = rw (p, q)
action_bin-eq a b (inr p) (inr q) = rw (p, q)

module _ {S : Type 0} (db : Database S) (laws : AggregatesLaws db) where
  open laws use {cell}

  -- One add after another.
  unfoldable pub add_all : List Event → Exec S (Unit {0})
  add_all [] = return tt
  add_all ((k, tag) ∷ events) = add_tag db k tag >> add_all events

  -- The bin of an action in the record of a minute and a key.
  abbrev pub counter : S → ℤ → AggregateKey → ℕ → ℕ
  counter s ts k a = or_zero (cell s (to_key ts k) (action_bin a))

  pub counter_step :
      (ts : ℤ) (k : AggregateKey) (a : ℕ) (e : Event) (s s' : S)
      → IsInt64 ts
      → IsAggregateKey k
      → IsAction a
      → IsEvent e
      → add_tag db e.0 e.1 s ≡ (ok tt, s')
      → counter s' ts k a ≡ (
          if belongs ts k a e
          then (counter s ts k a + encode_sum_and_count e.1.product_info.price) % 2 ^ 64
          else counter s ts k a)
  counter_step ts k a (k', tag) s s' hts hk ha he done =
      rw
        (
          add_tag-AddsTo db laws k' tag s s' he.action he.price done (to_key ts k) a ha,
          to_key-eq ts (to_ts tag.time) k k' hts he.minute hk he.key,
          action_bin-eq a tag.action ha he.action,
        )
        (ground arith)

  counter-add_all :
      (ts : ℤ) (k : AggregateKey) (a : ℕ) (events : List Event) (s s' : S)
      → IsInt64 ts
      → IsAggregateKey k
      → IsAction a
      → AllEvents events
      → add_all events s ≡ (ok tt, s')
      → counter s' ts k a ≡ accumulate (counter s ts k a) (prices_of ts k a events)
  unfolding add_all
  counter-add_all ts k a [] s s' hts hk ha h done =
      ap (λ (o : Result (Unit {0}) × S). counter o.1 ts k a) (sym done)
  counter-add_all ts k a ((k', tag) ∷ events) s s' hts hk ha h done =
      let (u, s₁, first, rest) = >>=-ok (add_tag db k' tag) (λ _. add_all events) s tt s' done in
      rw
        (
          counter-add_all ts k a events s₁ s' hts hk ha h.1 rest,
          counter_step ts k a (k', tag) s s₁ hts hk ha h.0 first,
        )
        (ground arith)

  -- After any sequence of adds that succeed, from a store where the bin of a minute, key and
  -- action is missing or 0, that bin decodes to the sum of the prices of exactly the tags of that
  -- minute, key and action, and to their number, if there are fewer than 2 ^ 16 of them.
  pub add_all_counts :
      (ts : ℤ) (k : AggregateKey) (a : ℕ) (events : List Event) (s s' : S)
      → IsInt64 ts
      → IsAggregateKey k
      → IsAction a
      → AllEvents events
      → add_all events s ≡ (ok tt, s')
      → counter s ts k a ≡ 0
      → length (prices_of ts k a events) < 2 ^ 16
      → decode_sum_and_count (counter s' ts k a)
        ≡ (total (prices_of ts k a events), length (prices_of ts k a events))
  add_all_counts ts k a events s s' hts hk ha h done empty few =
      let prices = prices_of ts k a events in
      let below = prices_of-Below ts k a events h in
      rw (counter-add_all ts k a events s s' hts hk ha h done, empty)
        (aggregates_exact prices below few (total-fits prices below few))

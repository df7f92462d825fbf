-- ===== src/Tests/Flowed.antt =====
-- Tags that are processed and then asked for, on a store in memory and a fixed numbering.
use allezon.Base.{
  ℕ, ◌+◌, ◌*◌, ◌^◌, ◌<◌, ◌≡◌, inl, inr, refl, sym, ap, ◌∙◌, ◌||◌, Bool-cases, String, true, Option,
  none, some, List, [], ◌∷◌, map, Result, ok, err, failed, arith, str_eq, eq_iff, if◌then◌else◌,
  quot,
}
use allezon.Base.Exec.{return}
use allezon.Base.Decimal.{natural_before, integer_before, split, parse_int, parse_uint}
use allezon.Time.{minute}
use allezon.Types.{UserTag, buy, sum, count, action_string}
use allezon.Db.Aerospike.{Record, Bins}
use allezon.Db.Null.{null_user_profile_client}
use allezon.Db.Aggregates.{action_to_bin, read_results, read_result, read_bin, read_record}
use allezon.Db.Aggregates.Client.{aggregates, add_tag, get, create_index, index_error}
use allezon.Db.Aggregates.Codec.{
  encode, decode, to_ts, to_key, encode_sum_and_count, decode_sum_and_count, decode_key,
}
use allezon.Db.Aggregates.Held.{RecordsLaws}
use allezon.Db.Aggregates.Indexed.{records_of, IndexLaws}
use allezon.IdClient
use allezon.IdClient.{get_u16_id, check_u16}
use allezon.Dto.{AggregatesDto}
use allezon.Api.{Server}
use allezon.Api.Aggregates.{FetchParams, minutes, new_columns, new_filters, row_of, rows_from}
use allezon.Api.Aggregates.Table.{instants, IsAggregate}
use allezon.Api.Aggregates.Shaped.{AreWide, aggregates-AreWide}
use allezon.Base.{All}
use allezon.Worker.{update_aggregates}
use allezon.Flow.{NumbersLaws, Stays}
use allezon.Db.{AggregateKey}
use allezon.Flow.Processed.{IsCountable, process, aggregates_client}
use allezon.Flow.Clock.{clock_tags, row_shown, columns_shown}
use allezon.Flow.Shown.{processed-shown}
use allezon.Tests.Data.{sale, visit, noon, text}
use allezon.Tests.Memory.{Cells, Store, store, laws, find, has_cells, add_in, created}
use allezon.Tests.Asked.{query_laws}
use allezon.Api

-- The ids that the service has
abbrev pub id_of : String → Option ℕ
id_of e =
    if str_eq e "socks"
    then some 1
    else if str_eq e "brand"
    then some 2
    else if str_eq e "shop"
    then some 3
    else none

abbrev pub answered : Option ℕ → Result ℕ
answered none = err failed
answered (some n) = ok n

abbrev pub ids : IdClient.Client Store
ids = record { get_id = λ c e create s. (answered (id_of e), s) }

answered-some : (o : Option ℕ) (n : ℕ) → answered o ≡ ok n → o ≡ some n
answered-some none n h = cc
answered-some (some m) n h = cc

distinct : (e e' : String) (n : ℕ) → id_of e ≡ some n → id_of e' ≡ some n → e ≡ e'
distinct e e' n h h' = ground (
  arith,
  eq_iff e "socks",
  eq_iff e "brand",
  eq_iff e "shop",
  eq_iff e' "socks",
  eq_iff e' "brand",
  eq_iff e' "shop",
)

numbers : NumbersLaws (records_of store laws) ids
numbers = record {
  is_ready = λ s. Unit {0};
  has_id = λ s c e n. id_of e ≡ some n;
  get_id-ok = λ c e create n s s' ready h.
      (tt, answered-some (id_of e) n (ap (λ (o : Result ℕ × Store). o.0) h), λ d x m had. had);
  unique = λ s c e n n' h h'. cc;
  distinct = λ s c e e' n h h'. distinct e e' n h h';
  get_id-Keeps = λ c e create s. refl;
}

index : IndexLaws store laws
index = record { create_index-Keeps = λ s. refl; on_complete-Keeps = λ s. refl }

abbrev pub server : Server Store
server = record {
  time_text = text;
  send = λ tag. return tt;
  profiles_db = record { user_profiles = null_user_profile_client; aggregates = aggregates store };
  aggregates_db = record {
    user_profiles = null_user_profile_client;
    aggregates = aggregates store;
  };
  id_getter = ids;
}

has_updated :
    (o : Option Cells) (n b : String) (v : ℕ) (s s' : Store) (r : Record)
    → find n s ≡ o
    → add_in n b v o s ≡ (ok r, s')
    → (has_cells (find n s) ≡ true) × ((m : String) → has_cells (find m s') ≡ has_cells (find m s))
has_updated none n b v s s' r is h = cc
has_updated (some cells) n b v s s' r is h =
    let there : has_cells (find n s) ≡ true = rw is refl in
    (
      there,
      λ m.
          ap (λ (o : Result Record × Store). has_cells (find m o.1)) (sym h)
          ∙ elim (Bool-cases (str_eq m n)) [
            | inl here ↦
                rw here (sym (ap (λ m. has_cells (find m s)) ((eq_iff m n).0 here) ∙ there))
            | inr elsewhere ↦ rw elsewhere
          ],
    )

has_created :
    (o : Option Cells) (n : String) (bins : Bins) (s s' : Store)
    → created n bins o s ≡ (ok tt, s')
    → (m : String) → has_cells (find m s') ≡ (str_eq m n || has_cells (find m s))
has_created (some cells) n bins s s' h m = cc
has_created none n bins s s' h m =
    ap (λ (o : Result (Unit {0}) × Store). has_cells (find m o.1)) (sym h) ∙ ground arith

more : RecordsLaws store laws
more = record {
  operate-found = λ n b v s s' r h. has_updated (find n s) n b v s s' r refl h;
  put-has = λ n bins s s' h. has_created (find n s) n bins s s' h;
}

abbrev pub tags : List UserTag
tags = sale ∷ visit ∷ sale ∷ []

abbrev pub after : Store
after = (process ids (aggregates_client store) tags []).1

processed : process ids (aggregates_client store) tags [] ≡ (ok tt, after)
unfolding process update_aggregates add_tag action_to_bin to_key integer_before to_ts quot
    natural_before encode get_u16_id check_u16
processed = refl

add-stays :
    (k : AggregateKey) (tag : UserTag) (s : Store)
    → Stays (records_of store laws) ids numbers s (add_tag store k tag s).1
unfolding numbers
add-stays k tag s c e n h = h

add-ready :
    (k : AggregateKey) (tag : UserTag) (s : Store)
    → numbers.is_ready s
    → numbers.is_ready (add_tag store k tag s).1
unfolding numbers
add-ready k tag s ready = ready

is_ready : numbers.is_ready []
unfolding numbers
is_ready = tt

abbrev params : FetchParams
params = record {
  from = noon;
  to = noon + 2 * minute;
  action = buy;
  origin = some "shop";
  brand_id = none;
  category_id = some "socks";
}

-- Two sales in the first minute, none in the second
abbrev answer : AggregatesDto
answer = record {
  columns = "1m_bucket" ∷ "action" ∷ "origin" ∷ "category_id" ∷ "sum_price" ∷ "count" ∷ [];
  rows =
      ("63815170500000" ∷ "BUY" ∷ "shop" ∷ "socks" ∷ "500" ∷ "2" ∷ [])
      ∷ ("63815170560000" ∷ "BUY" ∷ "shop" ∷ "socks" ∷ "0" ∷ "0" ∷ [])
      ∷ [];
}

abbrev after_answer : Store
after_answer = (Api.Aggregates.aggregates server (sum ∷ count ∷ []) params after).1

is_answered :
    Api.Aggregates.aggregates server (sum ∷ count ∷ []) params after ≡ (ok answer, after_answer)
unfolding Api.Aggregates.aggregates aggregates get_u16_id minutes get action_to_bin read_results
    process update_aggregates add_tag to_key integer_before to_ts quot natural_before encode
    decode_key split parse_int parse_uint Api.Aggregates.cells Api.Aggregates.check_filter
    Api.Aggregates.column_of Api.Aggregates.filter_aggregates Api.Aggregates.filter_from
    Api.Aggregates.get_id Api.Aggregates.matches_key new_columns new_filters row_of rows_from
    create_index index_error decode decode_sum_and_count encode_sum_and_count read_bin read_record
    read_result check_u16 action_string
is_answered = refl

sale-IsCountable : IsCountable sale
sale-IsCountable = record { time = omega arith; action = inr refl; price = omega arith }

visit-IsCountable : IsCountable visit
visit-IsCountable = record { time = omega arith; action = inl refl; price = omega arith }

few_tags : (m : ℕ) → clock_tags m buy tags < 2 ^ 16
unfolding clock_tags
few_tags m = ground arith

processed-shown_example : answer ≡ record {
  columns = columns_shown (sum ∷ count ∷ []) params;
  rows =
      map (row_shown text (sum ∷ count ∷ []) params tags) (instants (minutes noon params.to) noon);
}
processed-shown_example =
    processed-shown server store laws more query_laws index numbers refl add-stays add-ready
      (sum ∷ count ∷ []) params tags [] after after_answer answer (omega arith) (omega arith)
      (inr refl) (sale-IsCountable, (visit-IsCountable, (sale-IsCountable, tt)))
      (omega arith, (omega arith, (omega arith, tt))) few_tags is_ready (λ n. refl) processed
      is_answered

known_aggregates : All IsAggregate (sum ∷ count ∷ [])
unfolding IsAggregate
known_aggregates = (inl refl, (inr refl, tt))

aggregates-AreWide_example : AreWide 6 answer.rows
aggregates-AreWide_example =
    aggregates-AreWide server (sum ∷ count ∷ []) params after after_answer answer known_aggregates
      is_answered

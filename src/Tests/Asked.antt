-- ===== src/Tests/Asked.antt =====
-- The query of a store of aggregates in memory.

use allezon.Base.{
  ℕ, ◌≡◌, refl, ap, ◌∙◌, inl, inr, eq_iff, Bool-cases, String, Bool, ◌&&◌, Option, none, some, List,
  [], ◌∷◌, map, Result, ok, arith, str_eq,
}
use allezon.Db.Aerospike.{Record}
use allezon.Base.{filter, int64_pattern}
use allezon.Db.Aggregates.Queried.{selects, member, DistinctNames, QueryLaws}
use allezon.Base.{not, eq_refl, ap₂}
use allezon.Db.Aggregates.{aggregates_ts_bin}
use allezon.Tests.Memory.{
  Cells, Store, find, has_cells, cell_in, without, names_in, chosen, stored, some_record, store,
  laws,
}

-- Names that pass a test
pub member-filter :
    (p : String → Bool) (n : String) (names : List String)
    → member n (filter p names) ≡ (p n && member n names)
unfolding member
member-filter p n [] = ground arith
member-filter p n (m ∷ names) = elim (Bool-cases (str_eq m n)) [
  | inl here ↦
      let same : p m ≡ p n = ap p ((eq_iff m n).0 here) in ground (arith, member-filter p n names)
  | inr elsewhere ↦ ground (arith, member-filter p n names)
]

member-without :
    (m n : String) (names : List String)
    → member n (without m names) ≡ (not (str_eq n m) && member n names)
unfolding member
member-without m n [] = ground arith
member-without m n (k ∷ names) = elim (Bool-cases (str_eq k m)) [
  | inl here ↦
      let same = (eq_iff k m).0 here in
      rw (here, member-without m n names) (ground (arith, eq_iff k n, eq_iff n m))
  | inr elsewhere ↦
      rw (elsewhere, member-without m n names) (ground (arith, eq_iff k n, eq_iff n m))
]

pub filter-DistinctNames :
    (p : String → Bool) (names : List String) → DistinctNames names → DistinctNames (filter p names)
unfolding DistinctNames
filter-DistinctNames p [] h = tt
filter-DistinctNames p (n ∷ names) h = elim (Bool-cases (p n)) [
  | inl passes ↦
      rw passes
        ((member-filter p n names ∙ rw (h.0, passes) refl, filter-DistinctNames p names h.1))
  | inr fails ↦ rw fails (filter-DistinctNames p names h.1)
]

without-DistinctNames :
    (m : String) (names : List String) → DistinctNames names → DistinctNames (without m names)
unfolding DistinctNames
without-DistinctNames m [] h = tt
without-DistinctNames m (n ∷ names) h = elim (Bool-cases (str_eq n m)) [
  | inl here ↦ rw here (without-DistinctNames m names h.1)
  | inr elsewhere ↦
      rw elsewhere
        ((member-without m n names ∙ rw (h.0, elsewhere) refl, without-DistinctNames m names h.1))
]

pub names_in-DistinctNames : (s : Store) → DistinctNames (names_in s)
unfolding DistinctNames
names_in-DistinctNames [] = tt
names_in-DistinctNames ((n, cells) ∷ s) = (
  member-without n n (names_in s) ∙ rw (eq_refl n) refl,
  without-DistinctNames n (names_in s) (names_in-DistinctNames s),
)

pub member-names_in : (n : String) (s : Store) → member n (names_in s) ≡ has_cells (find n s)
unfolding member
member-names_in n [] = refl
member-names_in n ((m, cells) ∷ s) =
    rw (member-without m n (names_in s), member-names_in n s)
      (ground (arith, eq_iff m n, eq_iff n m))

pub selected_lem :
    (v : ℕ) (b : String) (o : Option Cells)
    → (selects v (cell_in b o) && has_cells o) ≡ selects v (cell_in b o)
selected_lem v b none = refl
selected_lem v b (some cells) = ground arith

the_record : Result Record → Record
the_record (ok r) = r
the_record _ = some_record

records_are :
    (f : String → Record) (records : List Record) (names : List String)
    → map (λ r. ok r) records ≡ map (λ n. ok (f n)) names
    → records ≡ map f names
records_are f [] [] h = refl
records_are f [] (n ∷ names) h = cc
records_are f (r ∷ records) [] h = cc
records_are f (r ∷ records) (n ∷ names) h =
    ap₂ (λ x y. x ∷ y) (cc) (records_are f records names (cc))

pub answered_records :
    (s : Store) (records : List Record) (names : List String) (b : String)
    → ◌≡◌ {A = Result (List (Result Record))}
        (ok (map (λ n. ok (stored s b n)) names))
        (ok (map (λ r. ok r) records))
    → records ≡ map (stored s b) names
answered_records s records names b h = records_are (stored s b) records names (cc)

abbrev pub query_laws : QueryLaws store laws
query_laws = record {
  stored = stored;
  stored-value = λ s b n. refl;
  stored-bins = λ s b n. refl;
  query-ok = λ ts b s records h. (
    chosen (int64_pattern ts) aggregates_ts_bin s,
    answered_records s records (chosen (int64_pattern ts) aggregates_ts_bin s) b h,
    filter-DistinctNames (λ n. selects (int64_pattern ts) (cell_in aggregates_ts_bin (find n s)))
        (names_in s) (names_in-DistinctNames s),
    λ n.
        member-filter (λ n. selects (int64_pattern ts) (cell_in aggregates_ts_bin (find n s))) n
          (names_in s)
        ∙ ap (λ b. selects (int64_pattern ts) (cell_in aggregates_ts_bin (find n s)) && b)
            (member-names_in n s)
        ∙ selected_lem (int64_pattern ts) aggregates_ts_bin (find n s),
  );
}

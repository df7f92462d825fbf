-- ===== src/Tests/Memory.antt =====
-- A store of aggregates in memory, and what holds of it.

use allezon.Base.{
  ℕ, ◌+◌, ◌%◌, ◌^◌, ◌≡◌, refl, sym, ap, ◌∙◌, inl, inr, eq_iff, Bool-cases, String, Bool, true,
  false, ◌&&◌, Option, none, some, List, [], ◌∷◌, map, Error, Result, ok, err, failed, database,
  key_not_found_error, key_exists_error, arith, str_eq, if◌then◌else◌,
}
use allezon.Base.Exec.{Exec, return, throw}
use allezon.Db.Aerospike.{Database, Key, Record, Bins, Operation, add, bin}
use allezon.Db.Aggregates.Writing.{AggregatesLaws, or_zero, int_value}
use allezon.Base.{filter, int64_pattern}
use allezon.Db.Aggregates.Reading.{entry_bins}
use allezon.Db.Aggregates.Queried.{selects}

-- The integer bins of a record, by the record's name
abbrev pub Cells : Type 0
Cells = String → Option ℕ

-- The newest record of a name counts.
abbrev pub Store : Type 0
Store = List (String × Cells)

abbrev pub find : String → Store → Option Cells
find n [] = none
find n ((m, cells) ∷ s) = if str_eq n m then some cells else find n s

abbrev pub name_of : Option String → String
name_of none = ""
name_of (some n) = n

abbrev pub name : Key → String
name k = name_of k.value

abbrev pub some_record : Record
some_record = record {
  key = record { namespace = ""; set_name = ""; value = none };
  bins = [];
  generation = 0;
}

abbrev pub put_cells : String → Cells → Store → Store
put_cells n cells s = (n, cells) ∷ s

abbrev pub added : String → ℕ → Cells → Cells
added b v cells c = if str_eq c b then some ((or_zero (cells c) + v) % 2 ^ 64) else cells c

abbrev pub add_in : String → String → ℕ → Option Cells → Exec Store Record
add_in n b v none s = throw (database key_not_found_error) s
add_in n b v (some cells) s = (ok some_record, put_cells n (added b v cells) s)

abbrev pub operated : Key → Operation → Exec Store Record
operated k (add b v) s = add_in (name k) b v (find (name k) s) s
operated k _ s = throw failed s

abbrev pub created : String → Bins → Option Cells → Exec Store (Unit {0})
created n bins (some cells) s = throw (database key_exists_error) s
created n bins none s = (ok tt, put_cells n (λ c. int_value (bin c bins)) s)

-- The names of the records, each once
abbrev pub without : String → List String → List String
without n [] = []
without n (m ∷ names) = if str_eq m n then without n names else m ∷ without n names

abbrev pub names_in : Store → List String
names_in [] = []
names_in ((n, cells) ∷ s) = n ∷ without n (names_in s)

abbrev pub cell_in : String → Option Cells → Option ℕ
cell_in b none = none
cell_in b (some cells) = cells b

abbrev pub chosen : ℕ → String → Store → List String
chosen v b s = filter (λ n. selects v (cell_in b (find n s))) (names_in s)

abbrev pub stored : Store → String → String → Record
stored s b n = record {
  key = record { namespace = "allezon"; set_name = "aggregates"; value = some n };
  bins = entry_bins b (cell_in b (find n s));
  generation = 0;
}

abbrev pub store : Database Store
store = record {
  new_key = λ namespace set_name n.
      ok (record { namespace = namespace; set_name = set_name; value = some n });
  get = λ k bins s. err (database key_not_found_error);
  operate = λ policy k operation. operated k operation;
  put = λ policy k bins s. created (name k) bins (find (name k) s) s;
  query = λ statement s. ok (
      map (λ n. ok (stored s statement.bin_name n))
        (chosen (int64_pattern statement.filter_value) statement.filter_bin s));
  create_index = λ namespace set_name index b. return tt;
  on_complete = return tt;
}

abbrev pub has_cells : Option Cells → Bool
has_cells none = false
has_cells (some cells) = true

pub missing : (o : Option Cells) (b : String) → has_cells o ≡ false → cell_in b o ≡ none
missing none b h = refl
missing (some cells) b h = cc

put_cells_lem :
    (n c m : String) (cells : Cells) (s : Store)
    → cell_in c (find m (put_cells n cells s))
      ≡ (if str_eq m n then cells c else cell_in c (find m s))
put_cells_lem n c m cells s = ground arith

added_lem :
    (o : Option Cells) (n b : String) (v : ℕ) (s : Store) (cells : Cells)
    → find n s ≡ some cells
    → (m c : String)
    → cell_in c (find m (put_cells n (added b v cells) s)) ≡ (
        if str_eq m n && str_eq c b
        then some ((or_zero (cell_in c (find m s)) + v) % 2 ^ 64)
        else cell_in c (find m s))
added_lem o n b v s cells is m c = elim (Bool-cases (str_eq m n)) [
  | inl here ↦
      let same : find m s ≡ some cells = ap (λ m. find m s) ((eq_iff m n).0 here) ∙ is in
      rw (here, same) (ground arith)
  | inr elsewhere ↦ rw elsewhere
]

pub operate_lem :
    (o : Option Cells) (n b : String) (v : ℕ) (s s' : Store) (r : Record)
    → find n s ≡ o
    → add_in n b v o s ≡ (ok r, s')
    → (m c : String)
    → cell_in c (find m s') ≡ (
        if str_eq m n && str_eq c b
        then some ((or_zero (cell_in c (find m s)) + v) % 2 ^ 64)
        else cell_in c (find m s))
operate_lem none n b v s s' r is h m c = cc
operate_lem (some cells) n b v s s' r is h m c =
    let stored : put_cells n (added b v cells) s ≡ s' = ap (λ (o : Result Record × Store). o.1) h in
    rw (← stored) (added_lem (some cells) n b v s cells is m c)

pub not_found_lem :
    (o : Option Cells) (n b : String) (v : ℕ) (s s' : Store) (e : Error)
    → add_in n b v o s ≡ (err e, s')
    → (has_cells o ≡ false) × (s' ≡ s)
not_found_lem none n b v s s' e h = (refl, ap (λ (o : Result Record × Store). o.1) (sym h))
not_found_lem (some cells) n b v s s' e h = cc

pub put_lem :
    (o : Option Cells) (n : String) (bins : Bins) (s s' : Store)
    → created n bins o s ≡ (ok tt, s')
    → (m c : String)
    → cell_in c (find m s') ≡ (if str_eq m n then int_value (bin c bins) else cell_in c (find m s))
put_lem (some cells) n bins s s' h m c = cc
put_lem none n bins s s' h m c =
    let stored : put_cells n (λ c. int_value (bin c bins)) s ≡ s' =
      ap (λ (o : Result (Unit {0}) × Store). o.1) h in
    rw (← stored) (put_cells_lem n c m (λ c. int_value (bin c bins)) s)

abbrev pub laws : AggregatesLaws store
laws = record {
  open_key = λ n. record { namespace = "allezon"; set_name = "aggregates"; value = some n };
  has = λ s n. has_cells (find n s);
  cell = λ s n b. cell_in b (find n s);
  new_key_ok = λ n. refl;
  cell-missing = λ s n b h. missing (find n s) b h;
  operate-ok = λ n b v s s' r h m c. operate_lem (find n s) n b v s s' r refl h m c;
  operate-not_found = λ n b v s s' e h is. not_found_lem (find n s) n b v s s' e h;
  put-ok = λ n bins s s' h m c. put_lem (find n s) n bins s s' h m c;
}

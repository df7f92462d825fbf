-- ===== src/Tests/Trimmed.antt =====
-- A store of profiles in memory.
use allezon.Base.{
  ℕ, ◌-◌, ◌≡◌, refl, sym, ap, inl, inr, String, ◌&&◌, Option, none, some, List, map, [], ◌∷◌, Error,
  Result, ok, err, failed, ℤ, pos, arith, str_eq, eq_refl, length, drop, if◌then◌else◌,
}
use allezon.Base.Exec.{Exec, return, throw}
use allezon.Types.{buy}
use allezon.Db.Aerospike.{
  Database, Record, Bins, Operation, map_put, pairs, map_size, map_remove_by_index_range_count,
  scalar, int, bin,
}
use allezon.Db.Profiles.Trimming.{TrimLaws, Dropped, remove_over_limit-Dropped, action_bin}
use allezon.Db.Profiles.{action_to_bin}
use allezon.Db.Profiles.Stored.{insert_entry, as_pair}
use allezon.Db.Profiles.Client.{remove_over_limit}

-- The entries of a map, by the name of the record and of the bin
abbrev pub Store : Type 0
Store = String → String → List (ℤ × List ℕ)

abbrev name_of : Option String → String
name_of none = ""
name_of (some n) = n

abbrev pub answer : Bins → Record
answer bins = record {
  key = record { namespace = ""; set_name = ""; value = none };
  bins = bins;
  generation = 0;
}

abbrev shortened : String → String → ℕ → Store → Store
shortened c b n s d a = if str_eq d c && str_eq a b then drop n (s c b) else s d a

abbrev pub put_in : String → String → ℤ → List ℕ → Store → Store
put_in c b k v s d a = if str_eq d c && str_eq a b then insert_entry k v (s c b) else s d a

abbrev pub held_by : Store → String → Bins
held_by s c =
    ("views", pairs (map as_pair (s c "views"))) ∷ ("buys", pairs (map as_pair (s c "buys"))) ∷ []

abbrev operated : String → Operation → Exec Store Record
operated c (map_size b) s = (ok (answer ((b, scalar (int (length (s c b)))) ∷ [])), s)
operated c (map_remove_by_index_range_count b i n) s = (ok (answer []), shortened c b n s)
operated c (map_put b k v) s =
    (ok (answer ((b, scalar (int (length (put_in c b k v s c b)))) ∷ [])), put_in c b k v s)
operated c _ s = throw failed s

abbrev pub store : Database Store
store = record {
  new_key = λ namespace set_name n.
      ok (record { namespace = namespace; set_name = set_name; value = some n });
  get = λ k bins s. ok (answer (held_by s (name_of k.value)));
  operate = λ policy k operation. operated (name_of k.value) operation;
  put = λ policy k bins. throw failed;
  query = λ statement s. ok [];
  create_index = λ namespace set_name index b. return tt;
  on_complete = return tt;
}

pub sized :
    (c b : String) (s s' : Store) (r : Record)
    → ◌≡◌ {A = Result Record × Store}
        (ok (answer ((b, scalar (int (length (s c b)))) ∷ [])), s)
        (ok r, s')
    → (s' ≡ s) × (bin b r.bins ≡ some (scalar (int (length (s c b)))))
sized c b s s' r h =
    let is : answer ((b, scalar (int (length (s c b)))) ∷ []) ≡ r = cc in
    (ap (λ (o : Result Record × Store). o.1) (sym h), rw (← is) (rw (eq_refl b)))

pub removed :
    (c b : String) (n : ℕ) (s s' : Store) (r : Record)
    → ◌≡◌ {A = Result Record × Store} (ok (answer []), shortened c b n s) (ok r, s')
    → s' ≡ shortened c b n s
removed c b n s s' r h = ap (λ (o : Result Record × Store). o.1) (sym h)

pub no_error :
    (r : Record) (s s' : Store) (e : Error)
    → ◌≡◌ {A = Result Record × Store} (ok r, s) (err e, s')
    → ⊥
no_error r s s' e h = cc

unfoldable pub laws : TrimLaws store
laws = record {
  open_key = λ n. record { namespace = "allezon"; set_name = "user_profiles"; value = some n };
  entries = λ s c b. s c b;
  new_key_ok = λ n. refl;
  size-ok = λ c b s s' r h. let (same, is) = sized c b s s' r h in (same, inl is);
  size-not_found = λ c b s s' e h is. absurd (no_error _ s s' e h);
  remove-ok = λ c b g n s s' r h d a. ap (λ t. t d a) (removed c b n s s' r h);
}

-- Three sales of one cookie
abbrev three : Store
three c b =
    if str_eq c "cookie" && str_eq b "buys"
    then (pos 1, []) ∷ (pos 2, []) ∷ (pos 3, []) ∷ []
    else []

abbrev trimmed : Store
trimmed = (remove_over_limit store "cookie" buy 2 three).1

removed_one : remove_over_limit store "cookie" buy 2 three ≡ (ok tt, trimmed)
unfolding remove_over_limit action_to_bin
removed_one = refl

remove_over_limit-Dropped_example :
    Dropped store laws "cookie"
      (action_bin buy)
      (length (three "cookie" (action_bin buy)) - 2)
      three
      trimmed
unfolding laws
remove_over_limit-Dropped_example =
    remove_over_limit-Dropped store laws "cookie" buy 2 three trimmed (inr refl) (omega arith)
      (omega arith) removed_one

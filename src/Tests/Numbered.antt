-- ===== src/Tests/Numbered.antt =====
-- A store of lists of elements in memory, the server over it, and the client of the server.
use allezon.Base.{
  ℕ, suc, ◌≡◌, ◌≢◌, refl, sym, ap, ◌∙◌, ◌⊎◌, inl, inr, String, Bool-cases, true, false, Option,
  none, some, List, [], ◌∷◌, ◌++◌, map, All, Error, Result, ok, err, failed, database,
  key_not_found_error, fail_element_exists, str_eq, eq_iff, eq_refl, length, if◌then◌else◌,
}
use mathlib.Core.List.{append-nil}
use allezon.Db.Aerospike.{
  Database, Key, Record, Bins, Operation, list_append, scalar, int, text, list, bin,
}
use allezon.Tests.Memory.{name_of}
use allezon.Base.Exec.{Exec, return, throw}
use allezon.IdGetter.{ElementsClient, index, succ_option}
use allezon.IdGetter.Assigned.{ElementsLaws}
use allezon.IdGetter.Elements.{elements_client, get_elements, append_element, elements_of, strings}
use allezon.IdGetter.Listed.{ListsLaws, or_empty, elements_laws}
use allezon.IdGetter.Shown.{
  listed, fetch-listed, get_id-listed, restarted-renumbers, restarted-collides,
}
use allezon.IdGetter.Stable.{IsCoherent, place, get_id-IsCoherent}
use allezon.IdGetter.Restart.{restart, IsNew}
use allezon.IdGetter.Server.{Server, fetch, get_id, check_in_cache, save_in_cache}
use allezon.Base.Assoc.{lookup, insert}
use allezon.IdClient
use allezon.IdClient.{Client, Transport, ClientState, new_client}

abbrev pub Store : Type 0
Store = String → List String

abbrev pub appended : String → String → Store → Store
appended c x s d = if str_eq d c then s c ++ (x ∷ []) else s d

abbrev pub no_record : Bins → Record
no_record bins = record {
  key = record { namespace = "allezon"; set_name = "ids"; value = none };
  bins = bins;
  generation = 0;
}

-- A list with no element has no record.
abbrev pub stored_list : List String → Option (List String)
stored_list [] = none
stored_list (x ∷ l) = some (x ∷ l)

abbrev pub found : Option (List String) → Result Record
found none = err (database key_not_found_error)
found (some l) = ok (no_record (("ids", list (map text l)) ∷ []))

abbrev pub append : String → String → Option ℕ → Exec Store Record
append c x none s =
    (ok (no_record (("ids", scalar (int (suc (length (s c))))) ∷ [])), appended c x s)
append c x (some i) s = throw (database fail_element_exists) s

abbrev pub named : Key → String
named k = name_of k.value

abbrev pub operated : Key → Operation → Exec Store Record
operated k (list_append b x) s = append (named k) x (index x (s (named k))) s
operated k _ s = throw failed s

abbrev pub lists_db : Database Store
lists_db = record {
  new_key = λ namespace set_name n.
      ok (record { namespace = namespace; set_name = set_name; value = some n });
  get = λ k bins s. found (stored_list (s (named k)));
  operate = λ policy k operation. operated k operation;
  put = λ policy k bins. throw failed;
  query = λ statement s. err failed;
  create_index = λ namespace set_name index b. return tt;
  on_complete = return tt;
}

abbrev pub store : ElementsClient Store
store = elements_client lists_db

or_empty-stored_list : (l : List String) → or_empty (stored_list l) ≡ l
or_empty-stored_list [] = refl
or_empty-stored_list (x ∷ l) = refl

pub found_lem :
    (o : Option (List String)) (r : Record)
    → found o ≡ ok r
    → (l : List String) × (o ≡ some l) × (bin "ids" r.bins ≡ some (list (map text l)))
found_lem none r h = cc
found_lem (some l) r h =
    let is : no_record (("ids", list (map text l)) ∷ []) ≡ r = cc in (l, refl, rw (← is) refl)

pub missing_lem : (o : Option (List String)) (e : Error) → found o ≡ err e → o ≡ none
missing_lem none e h = refl
missing_lem (some l) e h = cc

stored_list-append :
    (l : List String) (x : String) → stored_list (l ++ (x ∷ [])) ≡ some (l ++ (x ∷ []))
stored_list-append [] x = refl
stored_list-append (y ∷ l) x = refl

absent_lem : (x : String) (l : List String) → index x l ≡ none → All (λ y. str_eq y x ≡ false) l
unfolding index
absent_lem x [] h = tt
absent_lem x (y ∷ l) h = elim (Bool-cases (str_eq y x)) [
  | inl here ↦ absurd (no_index (rw here at h))
  | inr other ↦ (other, absent_lem x l (no_succ (index x l) (rw other at h)))
]
  where
    no_index : ◌≡◌ {A = Option ℕ} (some 0) none → ⊥
    no_index h = cc

    no_succ : (o : Option ℕ) → succ_option o ≡ none → o ≡ none
    no_succ none h = refl
    no_succ (some n) h = cc

pub append_lem :
    (o : Option ℕ) (c x : String) (r : Record) (s s' : Store)
    → index x (s c) ≡ o
    → append c x o s ≡ (ok r, s')
    → All (λ y. str_eq y x ≡ false) (or_empty (stored_list (s c)))
      × (stored_list (s' c) ≡ some (or_empty (stored_list (s c)) ++ (x ∷ [])))
      × ((d : String) → str_eq d c ≡ false → stored_list (s' d) ≡ stored_list (s d))
      × (bin "ids" r.bins ≡ some (scalar (int (suc (length (or_empty (stored_list (s c))))))))
append_lem none c x r s s' at h =
    let same : appended c x s ≡ s' = ap (λ (o : Result Record × Store). o.1) h in
    let is : no_record (("ids", scalar (int (suc (length (s c))))) ∷ []) ≡ r = cc in
    rw (or_empty-stored_list (s c)) (
      absent_lem x (s c) at,
      ap (λ t. stored_list (t c)) (sym same)
          ∙ ap stored_list (rw (eq_refl c) refl)
          ∙ stored_list-append (s c) x,
      λ d other. ap (λ t. stored_list (t d)) (sym same) ∙ ap stored_list (rw other),
      ap (λ r. bin "ids" r.bins) (sym is),
    )
append_lem (some i) c x r s s' at h = cc

pub grown_lem :
    (o : Option ℕ) (c x d : String) (s : Store)
    → (more : List String) × (or_empty (stored_list ((append c x o s).1 d))
        ≡ or_empty (stored_list (s d)) ++ more)
grown_lem none c x d s =
    rw (or_empty-stored_list (appended c x s d), or_empty-stored_list (s d))
      (elim (Bool-cases (str_eq d c)) [
        | inl same ↦ (x ∷ [], rw same (rw ((eq_iff d c).0 same) refl))
        | inr other ↦ ([], rw other (sym (append-nil (s d))))
      ])
grown_lem (some i) c x d s = ([], sym (append-nil (or_empty (stored_list (s d)))))

abbrev pub lists : ListsLaws lists_db
lists = record {
  open_key = λ c. record { namespace = "allezon"; set_name = "ids"; value = some c };
  stored = λ s c. stored_list (s c);
  new_key-ok = λ c. refl;
  get-found = λ c s r h. found_lem (stored_list (s c)) r h;
  get-missing = λ c s e h is. missing_lem (stored_list (s c)) e h;
  append-done = λ c x s s' r h. append_lem (index x (s c)) c x r s s' refl h;
  append-takes_nothing = λ c x d s. grown_lem (index x (s c)) c x d s;
}

abbrev empty : Server Store
empty = record { store = λ c. []; ids_cache = [] }

abbrev first : Server Store
first = (get_id store "brand" "acme" true empty).1

abbrev second : Server Store
second = (get_id store "brand" "apex" true first).1

abbrev restarted : Server Store
restarted = (get_id store "brand" "acme" false (restart first)).1

abbrev restarted_twice : Server Store
restarted_twice = (get_id store "brand" "apex" false (restart second)).1

first_id : get_id store "brand" "acme" true empty ≡ (ok 1, first)
unfolding get_id check_in_cache lookup index save_in_cache insert elements_client get_elements
    append_element elements_of strings
first_id = refl

second_id : get_id store "brand" "apex" true first ≡ (ok 2, second)
unfolding get_id check_in_cache lookup index save_in_cache insert elements_client get_elements
    append_element elements_of strings
second_id = refl

restarted_id : get_id store "brand" "acme" false (restart first) ≡ (ok 0, restarted)
unfolding get_id check_in_cache lookup index save_in_cache insert elements_client get_elements
    append_element elements_of strings
restarted_id = refl

restarted_twice_id : get_id store "brand" "apex" false (restart second) ≡ (ok 1, restarted_twice)
unfolding get_id check_in_cache lookup index save_in_cache insert elements_client get_elements
    append_element elements_of strings
restarted_twice_id = refl

fetched : fetch store "brand" "acme" true empty.store ≡ (ok 1, first.store)
unfolding fetch get_id check_in_cache lookup index save_in_cache insert elements_client get_elements
    append_element elements_of strings
fetched = refl

fetch-listed_example :
    ((index "acme" (listed lists_db lists empty.store "brand") ≡ some 1)
      × (first.store ≡ empty.store))
    ⊎ ((true ≡ true)
        × ((index "acme" (listed lists_db lists empty.store "brand") ≡ none)
            × ((d : String)
                → listed lists_db lists first.store d ≡ (
                    if str_eq d "brand"
                    then listed lists_db lists empty.store "brand" ++ ("acme" ∷ [])
                    else listed lists_db lists empty.store d))
            × (1 ≡ suc (length (listed lists_db lists empty.store "brand")))))
fetch-listed_example =
    fetch-listed lists_db lists "brand" "acme" true 1 empty.store first.store fetched

abbrev laws : ElementsLaws store
laws = elements_laws lists_db lists

empty-IsCoherent : IsCoherent store laws empty
unfolding elements_laws check_in_cache index lookup
empty-IsCoherent c x = refl

get_id-listed_example :
    IsCoherent store laws first × (place store laws "brand" "acme" first.store ≡ some 1)
get_id-listed_example =
    get_id-listed lists_db lists "brand" "acme" true 1 empty first empty-IsCoherent first_id

cached : check_in_cache "brand" "acme" first.ids_cache ≡ some 1
unfolding get_id check_in_cache lookup index save_in_cache insert elements_client get_elements
    append_element elements_of strings
cached = refl

first-IsCoherent : IsCoherent store laws first
first-IsCoherent =
    (get_id-IsCoherent store laws "brand" "acme" true 1 empty first empty-IsCoherent first_id).0

acme-IsNew : IsNew store laws "brand" "acme" empty
unfolding elements_laws check_in_cache index lookup
acme-IsNew = record { uncached = refl; unlisted = refl }

apex-IsNew : IsNew store laws "brand" "apex" first
unfolding elements_laws get_id check_in_cache lookup index save_in_cache insert elements_client
    get_elements append_element elements_of strings
apex-IsNew = record { uncached = refl; unlisted = refl }

restarted-renumbers_example : 1 ≡ suc 0
restarted-renumbers_example =
    restarted-renumbers lists_db lists "brand" "acme" true false 1 0 empty first restarted
      acme-IsNew first_id restarted_id

restarted-collides_example : (◌≡◌ {A = ℕ} 1 1) × (◌≢◌ {A = String} "acme" "apex")
restarted-collides_example =
    restarted-collides lists_db lists "brand" "acme" "apex" true false 1 2 1 empty first second
      restarted_twice acme-IsNew first_id apex-IsNew second_id restarted_twice_id

-- A service that numbers everything 5.
abbrev five : Transport (Unit {0})
five = record {
  marshal = λ request. ok [];
  post = λ url body. return (record { status_code = 200; body = [] });
  decode = λ body. ok (record { id = 5 });
}

abbrev fresh : ClientState (Unit {0})
fresh = record { remote = tt; cache_enabled = true; cache = [] }

abbrev asked : ClientState (Unit {0})
asked = (IdClient.get_id five "brand" "acme" true fresh).1

five_returned : IdClient.get_id five "brand" "acme" true fresh ≡ (ok 5, asked)
unfolding IdClient.get_id IdClient.get_from_cache lookup IdClient.read_reply
    IdClient.get_id_from_server
five_returned = refl

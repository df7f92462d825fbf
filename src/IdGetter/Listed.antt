-- ===== src/IdGetter/Listed.antt =====
-- The client of src/cmd/id_getter/db/db.go on the lists of the database: it does what the server of
-- src/cmd/id_getter/server/server.go relies on.
use allezon.Base.{
  ℕ, suc, ◌≡◌, ◌⊎◌, inl, inr, refl, sym, ap, ◌∙◌, subst, String, Bool, true, false, Option, none,
  some, List, [], ◌∷◌, ◌++◌, map, All, Error, Result, ok, err, panic, failed, wrapped, sentinel,
  matches, is as is_error, ids_key_not_found, element_exists, not_found, key_not_found_error,
  fail_element_exists, str_eq, eq_iff, length, Bool-cases, if◌then◌else◌,
}
use allezon.Base.Exec.{
  Exec, lift, throw, catch, handle, continue, >>=-ok, catch-ok, lift-ok, throws-not_ok,
}
use mathlib.Core.Bool.{true≢false}
use allezon.Db.Aerospike.{Database, Key, Record, scalar, int, text, list, bin, list_append}
use allezon.Db.Profiles.Client.{int_of}
use allezon.IdGetter.{index}
use allezon.IdGetter.Elements.{
  ids_bin, append_policy, strings, elements_of, append_element, get_elements, elements_client,
}
use allezon.IdGetter.Assigned.{ElementsLaws}
use allezon.IdGetter.Concurrent.Growth.{GrowthLaws}

abbrev pub or_empty : Option (List String) → List String
or_empty none = []
or_empty (some l) = l

-- What Aerospike documents of the lists in the bins "ids" of the set "ids": `stored s c` is that of
-- the record `c`, if there is one. A list keeps the order of the appends. An append to a list of
-- unique elements that succeeds makes the record if it is missing, and returns the new length; one
-- that fails may have been done or not.
pub record ListsLaws {S : Type 0} (db : Database S) : Type 0 where
  pub open_key : String → Key
  pub stored : S → String → Option (List String)
  pub new_key-ok : (c : String) → db.new_key "allezon" "ids" c ≡ ok (open_key c)
  pub get-found :
      (c : String) (s : S) (r : Record)
      → db.get (open_key c) ("ids" ∷ []) s ≡ ok r
      → (l : List String) × (stored s c ≡ some l) × (bin "ids" r.bins ≡ some (list (map text l)))
  pub get-missing :
      (c : String) (s : S) (e : Error)
      → db.get (open_key c) ("ids" ∷ []) s ≡ err e
      → matches e key_not_found_error ≡ true
      → stored s c ≡ none
  pub append-done :
      (c x : String) (s s' : S) (r : Record)
      → db.operate append_policy (open_key c) (list_append "ids" x) s ≡ (ok r, s')
      → All (λ y. str_eq y x ≡ false) (or_empty (stored s c))
        × (stored s' c ≡ some (or_empty (stored s c) ++ (x ∷ [])))
        × ((d : String) → str_eq d c ≡ false → stored s' d ≡ stored s d)
        × (bin "ids" r.bins ≡ some (scalar (int (suc (length (or_empty (stored s c)))))))
  pub append-takes_nothing :
      (c x d : String) (s : S)
      → (more : List String) × (or_empty
            (stored (db.operate append_policy (open_key c) (list_append "ids" x) s).1 d)
          ≡ or_empty (stored s d) ++ more)

strings-text : (l : List String) → strings (map text l) ≡ ok l
unfolding strings
strings-text [] = refl
strings-text (x ∷ l) = rw (strings-text l)

index-absent : (x : String) (l : List String) → All (λ y. str_eq y x ≡ false) l → index x l ≡ none
unfolding index
index-absent x [] h = refl
index-absent x (y ∷ l) h = rw (h.0, index-absent x l h.1)

-- How `GetElements` can end, by the list that is stored
abbrev pub Answered : Option (List String) → Result (List String) → Type 0
Answered st r =
    ((l : List String) × (st ≡ some l) × (r ≡ ok l))
    ⊎ (((st ≡ none) × (r ≡ err (wrapped (sentinel ids_key_not_found))))
        ⊎ ((r ≡ err failed) ⊎ (r ≡ panic)))

pub Answered-ok :
    (st : Option (List String)) (l : List String) → Answered st (ok l) → l ≡ or_empty st
Answered-ok st l (inl (k, is, same)) = rw is cc
Answered-ok st l (inr (inl (is, same))) = cc
Answered-ok st l (inr (inr (inl same))) = cc
Answered-ok st l (inr (inr (inr same))) = cc

pub Answered-missing :
    (st : Option (List String)) (e : Error)
    → Answered st (err e)
    → is_error e ids_key_not_found ≡ true
    → or_empty st ≡ []
Answered-missing st e (inl (k, is, same)) h = cc
Answered-missing st e (inr (inl (is, same))) h = rw is refl
Answered-missing st e (inr (inr (inl same))) h =
    absurd (true≢false (sym h ∙ ap (λ e. is_error e ids_key_not_found) (the_error same)))
  where
    the_error : ◌≡◌ {A = Result (List String)} (err e) (err failed) → e ≡ failed
    the_error same = cc
Answered-missing st e (inr (inr (inr same))) h = cc

pub Answered-err :
    (st : Option (List String)) (e : Error) → Answered st (err e) → is_error e not_found ≡ false
Answered-err st e (inl (k, is, same)) = cc
Answered-err st e (inr (inl (is, same))) =
    ap
      (λ (r : Result (List String)). elim r [
        | ok l ↦ false
        | err e ↦ is_error e not_found
        | panic ↦ false
      ])
      same
Answered-err st e (inr (inr (inl same))) =
    ap
      (λ (r : Result (List String)). elim r [
        | ok l ↦ false
        | err e ↦ is_error e not_found
        | panic ↦ false
      ])
      same
Answered-err st e (inr (inr (inr same))) = cc

module _ {S : Type 0} (db : Database S) (lists : ListsLaws db) where
  open lists use {open_key, stored}

  -- What `GetElements` does behind the reply of the database
  abbrev replied : Result Record → S → Result (List String) × S
  replied o s =
      let looked =
        handle o
          (λ e.
            if matches e key_not_found_error
            then throw (wrapped (sentinel ids_key_not_found))
            else throw failed)
          s in
      continue looked.0 (λ r. lift (elements_of (bin ids_bin r.bins))) looked.1

  failing :
      (b : Bool) (st : Option (List String)) (s : S)
      → (b ≡ true → st ≡ none)
      → let o : Result Record × S =
          (if b then throw (wrapped (sentinel ids_key_not_found)) else throw failed) s in
        Answered st (continue o.0 (λ r. lift (elements_of (bin ids_bin r.bins))) o.1).0
        × ((continue o.0 (λ r. lift (elements_of (bin ids_bin r.bins))) o.1).1 ≡ s)
  failing true st s h = (inr (inl (h refl, refl)), refl)
  failing false st s h = (inr (inr (inl refl)), refl)

  replied-Answered :
      (c : String) (s : S) (o : Result Record)
      → db.get (open_key c) ("ids" ∷ []) s ≡ o
      → Answered (stored s c) (replied o s).0 × ((replied o s).1 ≡ s)
  unfolding elements_of
  replied-Answered c s (ok r) h =
      let (l, is, holds) = lists.get-found c s r h in
      (inl (l, is, ap elements_of holds ∙ strings-text l), refl)
  replied-Answered c s (err e) h =
      failing (matches e key_not_found_error) (stored s c) s (lists.get-missing c s e h)
  replied-Answered c s panic h = (inr (inr (inr refl)), refl)

  get_elements-Answered :
      (c : String) (s : S)
      → Answered (stored s c) (get_elements db c s).0 × ((get_elements db c s).1 ≡ s)
  unfolding get_elements
  get_elements-Answered c s =
      rw (lists.new_key-ok c) (replied-Answered c s (db.get (open_key c) ("ids" ∷ []) s) refl)

  pub read_as :
      (c : String) (s s' : S) (r : Result (List String))
      → get_elements db c s ≡ (r, s')
      → (s' ≡ s) × Answered (stored s c) r
  read_as c s s' r h =
      let (how, same) = get_elements-Answered c s in
      (
        ap (λ (o : Result (List String) × S). o.1) (sym h) ∙ same,
        subst (Answered (stored s c)) (ap (λ (o : Result (List String) × S). o.0) h) how,
      )

  abbrev appending : String → String → Exec S Record
  appending c x = db.operate append_policy (open_key c) (list_append "ids" x)

  append-done_as :
      (c x : String) (n : ℕ) (s s' : S)
      → append_element db c x s ≡ (ok n, s')
      → (r : Record) × (appending c x s ≡ (ok r, s')) × (int_of (bin "ids" r.bins) ≡ ok n)
  unfolding append_element
  append-done_as c x n s s' h =
      let (r, s₁, got, rest) =
        >>=-ok
          (catch (appending c x) (λ e.
            if matches e fail_element_exists
            then throw (wrapped (sentinel element_exists))
            else throw (wrapped e)))
          (λ r. lift (int_of (bin ids_bin r.bins))) s n s' (rw (lists.new_key-ok c) at h) in
      let (is, same) = lift-ok (int_of (bin ids_bin r.bins)) s₁ n s' rest in
      elim (catch-ok (appending c x) _ s r s₁ got) [
        | inl done ↦ (r, subst (λ t. appending c x s ≡ (ok r, t)) (sym same) done, is)
        | inr (e, s₂, failing, thrown) ↦
            absurd (throws-not_ok (matches e fail_element_exists) _ _ s₂ r s₁ thrown)
      ]

  pub append-ok :
      (c x : String) (n : ℕ) (s s' : S)
      → append_element db c x s ≡ (ok n, s')
      → (index x (or_empty (stored s c)) ≡ none)
        × ((d : String)
            → or_empty (stored s' d)
              ≡ (if str_eq d c then or_empty (stored s c) ++ (x ∷ []) else or_empty (stored s d)))
        × (n ≡ suc (length (or_empty (stored s c))))
  append-ok c x n s s' h =
      let (r, done, number) = append-done_as c x n s s' h in
      let (absent, here, elsewhere, holds) = lists.append-done c x s s' r done in
      (
        index-absent x (or_empty (stored s c)) absent,
        λ d. elim (Bool-cases (str_eq d c)) [
          | inl same ↦
              rw same (ap (λ d. or_empty (stored s' d)) ((eq_iff d c).0 same) ∙ ap or_empty here)
          | inr other ↦ rw other (ap or_empty (elsewhere d other))
        ],
        the_number (sym number ∙ ap int_of holds),
      )
    where
      the_number : {m n : ℕ} → ok n ≡ ok m → n ≡ m
      the_number h = cc

  thrown-state :
      (b : Bool) (d e : Error) (s : S)
      → let o : Result Record × S = (if b then throw d else throw e) s in
        (continue o.0 (λ r. lift (int_of (bin ids_bin r.bins))) o.1).1 ≡ s
  thrown-state true d e s = refl
  thrown-state false d e s = refl

  appended-state :
      (o : Result Record × S)
      → let caught =
          handle o.0
            (λ e.
              if matches e fail_element_exists
              then throw (wrapped (sentinel element_exists))
              else throw (wrapped e))
            o.1 in
        (continue caught.0 (λ r. lift (int_of (bin ids_bin r.bins))) caught.1).1 ≡ o.1
  appended-state (ok r, s) = refl
  appended-state (err e, s) =
      thrown-state (matches e fail_element_exists) (wrapped (sentinel element_exists)) (wrapped e) s
  appended-state (panic, s) = refl

  append_element-state : (c x : String) (s : S) → (append_element db c x s).1 ≡ (appending c x s).1
  unfolding append_element
  append_element-state c x s = rw (lists.new_key-ok c) (appended-state (appending c x s))

  -- The client has the laws that the server relies on.
  unfoldable pub elements_laws : ElementsLaws (elements_client db)
  unfolding elements_client
  elements_laws = record {
    elements = λ s c. or_empty (stored s c);
    get-ok = λ c s s' l h.
        let (same, how) = read_as c s s' (ok l) h in (same, Answered-ok (stored s c) l how);
    get-missing = λ c s s' e h is.
        let (same, how) = read_as c s s' (err e) h in
        (same, Answered-missing (stored s c) e how is);
    get-err =
        λ c s s' e h. let (same, how) = read_as c s s' (err e) h in Answered-err (stored s c) e how;
    append-ok = λ c x n s s' h. append-ok c x n s s' h;
  }

  pub growth_laws : GrowthLaws (elements_client db) elements_laws
  unfolding elements_client elements_laws
  growth_laws = record {
    get-keeps = λ c s. ap (λ t d. or_empty (stored t d)) (get_elements-Answered c s).1;
    append-grows = λ c x s d.
        let (more, is) = lists.append-takes_nothing c x d s in
        (more, ap (λ t. or_empty (stored t d)) (append_element-state c x s) ∙ is);
  }

-- ===== src/IdGetter/Assigned.antt =====
-- Which id `getID` of src/cmd/id_getter/server/server.go gives to an element that is not cached.
use allezon.Base.{
  ℕ, suc, ◌≡◌, ◌⊎◌, inl, inr, refl, sym, ◌∙◌, String, Bool, true, false, Option, none, some, List,
  [], ◌∷◌, ◌++◌, Error, ok, err, wrapped, sentinel, is as is_error, not_found, ids_key_not_found,
  str_eq, length, Bool-cases, if◌then◌else◌,
}
use allezon.Base.Exec.{
  Exec, lift, throw, catch, wrapping, >>=-ok, catch-ok, throw-not_ok, wrapping-ok, throws-not_ok,
  >>=-err, catch-err, lift-ok, lift-err, throw-err,
}
use mathlib.Core.Bool.{false≢true}
use allezon.IdGetter.{ElementsClient, index}
use allezon.IdGetter.Server.{found_or, get_id_from_db, save_id_in_db, fetch}

-- What the server relies on of its client: `elements s c` is the list of the collection `c`, empty
-- if there is none. `Listed` fills this for the client of db/db.go.
pub record ElementsLaws {S : Type 0} (db : ElementsClient S) : Type 0 where
  pub elements : S → String → List String
  pub get-ok :
      (c : String) (s s' : S) (l : List String)
      → db.get_elements c s ≡ (ok l, s')
      → (s' ≡ s) × (l ≡ elements s c)
  pub get-missing :
      (c : String) (s s' : S) (e : Error)
      → db.get_elements c s ≡ (err e, s')
      → is_error e ids_key_not_found ≡ true
      → (s' ≡ s) × (elements s c ≡ [])
  -- its errors are its own
  pub get-err :
      (c : String) (s s' : S) (e : Error)
      → db.get_elements c s ≡ (err e, s')
      → is_error e not_found ≡ false
  -- an element that is appended was not there; the length of the list is returned
  pub append-ok :
      (c x : String) (n : ℕ) (s s' : S)
      → db.append_element c x s ≡ (ok n, s')
      → (index x (elements s c) ≡ none)
        × ((d : String)
            → elements s' d ≡ (if str_eq d c then elements s c ++ (x ∷ []) else elements s d))
        × (n ≡ suc (length (elements s c)))

found_or-ok : (o : Option ℕ) (id : ℕ) → found_or o ≡ ok id → o ≡ some id
found_or-ok none id h = cc
found_or-ok (some i) id h = cc

found_or-err : (o : Option ℕ) (e : Error) → found_or o ≡ err e → o ≡ none
found_or-err none e h = refl
found_or-err (some i) e h = cc

other_error :
    {d e : Error} → is_error d not_found ≡ false → wrapped d ≡ e → is_error e not_found ≡ true → ⊥
other_error {d} {e} h p q = false≢true (sym h ∙ (rw (← p) at q))

module _ {S : Type 0} (db : ElementsClient S) (laws : ElementsLaws db) where
  open laws use {elements}

  -- The element is at `id` in its list, which has not changed.
  abbrev pub Found : String → String → ℕ → S → S → Type 0
  Found c x id s s' = (index x (elements s c) ≡ some id) × (s' ≡ s)

  -- The element was appended to its list, and has the new length for an id.
  abbrev pub Appended : String → String → ℕ → S → S → Type 0
  Appended c x id s s' =
      (index x (elements s c) ≡ none)
      × ((d : String)
          → elements s' d ≡ (if str_eq d c then elements s c ++ (x ∷ []) else elements s d))
      × (id ≡ suc (length (elements s c)))

  -- The handler of `GetElements`'s errors in `getIDFromDB`.
  abbrev lookup_error : Error → Exec S (List String)
  lookup_error e =
      if is_error e ids_key_not_found
      then throw (wrapped (sentinel not_found))
      else throw (wrapped e)

  pub from_db-ok :
      (c x : String) (id : ℕ) (s s' : S) → get_id_from_db db c x s ≡ (ok id, s') → Found c x id s s'
  unfolding get_id_from_db
  from_db-ok c x id s s' h =
      let (l, s₁, got, rest) =
        >>=-ok (catch (db.get_elements c) lookup_error) (λ l. lift (found_or (index x l))) s id s'
          h in
      let (at, same) = lift-ok (found_or (index x l)) s₁ id s' rest in
      elim (catch-ok (db.get_elements c) lookup_error s l s₁ got) [
        | inl is ↦
            let (as_before, l_is) = laws.get-ok c s s₁ l is in
            (rw (← l_is) (found_or-ok (index x l) id at), same ∙ as_before)
        | inr (e, s₂, is, thrown) ↦
            absurd (throws-not_ok (is_error e ids_key_not_found) _ _ s₂ l s₁ thrown)
      ]

  from_db-err :
      (c x : String) (e : Error) (s s' : S)
      → get_id_from_db db c x s ≡ (err e, s')
      → is_error e not_found ≡ true
      → (s' ≡ s) × (index x (elements s c) ≡ none)
  unfolding get_id_from_db
  from_db-err c x e s s' h missing =
      elim (>>=-err (catch (db.get_elements c) lookup_error) (λ l. lift (found_or (index x l))) s e
        s' h) [
          | inl failing ↦
              let (d, s₁, is, thrown) = catch-err (db.get_elements c) lookup_error s e s' failing in
              elim (Bool-cases (is_error d ids_key_not_found)) [
                | inl absent ↦
                    let (as_before, empty) = laws.get-missing c s s₁ d is absent in
                    let (e_is, same) =
                      throw-err (wrapped (sentinel not_found)) e s₁ s' (rw absent at thrown) in
                    (same ∙ as_before, rw empty (unfold index in refl))
                | inr failed_ ↦
                    let (e_is, same) = throw-err (wrapped d) e s₁ s' (rw failed_ at thrown) in
                    absurd (other_error (laws.get-err c s s₁ d is) e_is missing)
              ]
          | inr (l, s₁, got, rest) ↦
              let (at, same) = lift-err (found_or (index x l)) s₁ e s' rest in
              elim (catch-ok (db.get_elements c) lookup_error s l s₁ got) [
                | inl is ↦
                    let (as_before, l_is) = laws.get-ok c s s₁ l is in
                    (same ∙ as_before, rw (← l_is) (found_or-err (index x l) e at))
                | inr (d, s₂, is, thrown) ↦
                    absurd (throws-not_ok (is_error d ids_key_not_found) _ _ s₂ l s₁ thrown)
              ]
        ]

  created :
      (c x : String) (create : Bool) (id : ℕ) (s s₁ s' : S) (e : Error)
      → s₁ ≡ s
      → index x (elements s c) ≡ none
      → (if create then wrapping (save_id_in_db db c x) else throw (wrapped e)) s₁ ≡ (ok id, s')
      → (create ≡ true) × Appended c x id s s'
  unfolding save_id_in_db
  created c x true id s s₁ s' e same absent h =
      let saved = wrapping-ok (wrapping (db.append_element c x)) s₁ id s' h in
      let appended = wrapping-ok (db.append_element c x) s₁ id s' saved in
      (refl, laws.append-ok c x id s s' (rw same at appended))
  created c x false id s s₁ s' e same absent h = absurd (throw-not_ok (wrapped e) s₁ id s' h)

  -- An uncached element gets its index from 0 if it is in the list, and otherwise, if it may be
  -- created, the length of the list that it has been appended to, which counts from 1.
  pub fetch-ok :
      (c x : String) (create : Bool) (id : ℕ) (s s' : S)
      → fetch db c x create s ≡ (ok id, s')
      → Found c x id s s' ⊎ ((create ≡ true) × Appended c x id s s')
  unfolding fetch
  fetch-ok c x create id s s' h = elim (catch-ok (get_id_from_db db c x) _ s id s' h) [
    | inl done ↦ inl (from_db-ok c x id s s' done)
    | inr (e, s₁, failing, handled) ↦ elim (Bool-cases (is_error e not_found)) [
      | inl missing ↦
          let (as_before, absent) = from_db-err c x e s s₁ failing missing in
          inr (created c x create id s s₁ s' e as_before absent (rw missing at handled))
      | inr other ↦ absurd (throw-not_ok (wrapped e) s₁ id s' (rw other at handled))
    ]
  ]

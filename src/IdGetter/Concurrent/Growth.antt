-- ===== src/IdGetter/Concurrent/Growth.antt =====
-- What a step of a request of src/cmd/id_getter/server/server.go does to the lists of the database.
use allezon.Base.{
  ℕ, suc, ◌≡◌, ◌⊎◌, inl, inr, refl, sym, ap, ◌∙◌, subst, String, Bool, true, false, Option, none,
  some, List, [], ◌∷◌, ◌++◌, Error, Result, ok, err, panic, str_eq, eq_refl, length, All,
  if◌then◌else◌, Bool-cases, is as is_error, ids_key_not_found, sentinel, wrapped, not_found,
}
use allezon.Base.Exec.{Exec, lift, throw, wrapping-ok, handle, continue}
use mathlib.Core.List.{append-nil}
use allezon.IdGetter.{ElementsClient, index, succ_option}
use allezon.IdGetter.Assigned.{ElementsLaws, from_db-ok}
use allezon.IdGetter.Stable.{index-append_self}
use allezon.IdGetter.Server.{Cache, check_in_cache, found_or, get_id_from_db, save_id_in_db}
use allezon.IdGetter.Concurrent.{
  Phase, checking, reading, creating, saving, answered, refused, Request, Replicas,
}

module _ {S : Type 0} (elements : S → String → List String) where
  abbrev pub Grows : S → S → Type 0
  Grows s s' = (c : String) → (more : List String) × (elements s' c ≡ elements s c ++ more)

-- What replicas rely on beside that: a read leaves the lists as they are, and an append, also one
-- that fails, takes nothing from them. `Listed` fills this for the client of db/db.go too.
pub record GrowthLaws {S : Type 0} (db : ElementsClient S) (laws : ElementsLaws db) : Type 0 where
  pub get-keeps : (c : String) (s : S) → laws.elements (db.get_elements c s).1 ≡ laws.elements s
  pub append-grows : (c x : String) (s : S) → Grows laws.elements s (db.append_element c x s).1

later_index :
    (o p : Option ℕ) (i : ℕ)
    → ((j : ℕ) → o ≡ some j → p ≡ some j)
    → succ_option o ≡ some i
    → succ_option p ≡ some i
later_index none p i h k = absurd cc
later_index (some j) p i h k = ap succ_option (h j refl) ∙ k

index-append :
    (x : String) (l more : List String) (i : ℕ) → index x l ≡ some i → index x (l ++ more) ≡ some i
unfolding index
index-append x [] more i h = absurd cc
index-append x (y ∷ l) more i h = elim (Bool-cases (str_eq y x)) [
  | inl same ↦ rw same (rw same at h)
  | inr other ↦ rw other (
      later_index (index x l) (index x (l ++ more)) i (λ j. index-append x l more j)
        (rw other at h))
]

module _ {S : Type 0} (db : ElementsClient S) (laws : ElementsLaws db)
    (growth : GrowthLaws db laws) where
  open laws use {elements}

  -- An id of an element: its index in its list, or one more
  abbrev pub IsNumbered : S → String → String → ℕ → Type 0
  IsNumbered s c x id = (i : ℕ) × (index x (elements s c) ≡ some i) × ((id ≡ i) ⊎ (id ≡ suc i))

  abbrev pub HasNumber : S → String → String → Phase → Type 0
  HasNumber s c x (saving id) = IsNumbered s c x id
  HasNumber s c x (answered id) = IsNumbered s c x id
  HasNumber s c x _ = Unit

  abbrev pub IsRequestNumbered : S → Request → Type 0
  IsRequestNumbered s q = HasNumber s q.collection q.element q.phase

  abbrev pub AreCached : S → (ℕ → Cache) → Type 0
  AreCached s caches =
      (r : ℕ) (c x : String) (id : ℕ)
      → check_in_cache c x (caches r) ≡ some id
      → IsNumbered s c x id

  unfoldable pub AreNumbered : Replicas S → Type 0
  AreNumbered m = AreCached m.store m.caches × All (IsRequestNumbered m.store) m.requests

  pub IsNumbered-grown :
      (s s' : S) (c x : String) (id : ℕ)
      → Grows elements s s'
      → IsNumbered s c x id
      → IsNumbered s' c x id
  IsNumbered-grown s s' c x id grows (i, at, which) =
      let (more, longer) = grows c in
      (i, ap (index x) longer ∙ index-append x (elements s c) more i at, which)

  pub HasNumber-grown :
      (s s' : S) (c x : String) (phase : Phase)
      → Grows elements s s'
      → HasNumber s c x phase
      → HasNumber s' c x phase
  HasNumber-grown s s' c x (saving id) grows h = IsNumbered-grown s s' c x id grows h
  HasNumber-grown s s' c x (answered id) grows h = IsNumbered-grown s s' c x id grows h
  HasNumber-grown s s' c x checking grows h = tt
  HasNumber-grown s s' c x reading grows h = tt
  HasNumber-grown s s' c x creating grows h = tt
  HasNumber-grown s s' c x refused grows h = tt

  after_lift :
      (o : Result (List String) × S) (x : String)
      → (continue o.0 (λ l. lift (found_or (index x l))) o.1).1 ≡ o.1
  after_lift (ok l, s) x = refl
  after_lift (err e, s) x = refl
  after_lift (panic, s) x = refl

  after_read :
      (o : Result (List String) × S) (x : String) (h : Error → Exec S (List String))
      → ((e : Error) (s : S) → (h e s).1 ≡ s)
      → (continue (handle o.0 h o.1).0 (λ l. lift (found_or (index x l))) (handle o.0 h o.1).1).1
        ≡ o.1
  after_read (ok l, s) x h keeps = refl
  after_read (err e, s) x h keeps = after_lift (h e s) x ∙ keeps e s
  after_read (panic, s) x h keeps = refl

  thrown :
      (b : Bool) (d e : Error) (s : S)
      → ((if b then throw {A = List String} d else throw e) s).1 ≡ s
  thrown true d e s = refl
  thrown false d e s = refl

  pub read-Grows : (c x : String) (s : S) → Grows elements s (get_id_from_db db c x s).1
  unfolding get_id_from_db
  read-Grows c x s d =
      let same =
        after_read (db.get_elements c s) x
          (λ e.
            if is_error e ids_key_not_found
            then throw (wrapped (sentinel not_found))
            else throw (wrapped e))
          (λ e t.
            thrown (is_error e ids_key_not_found) (wrapped (sentinel not_found)) (wrapped e) t) in
      (
        [],
        ap (λ t. elements t d) same
            ∙ ap (λ l. l d) (growth.get-keeps c s)
            ∙ sym (append-nil (elements s d)),
      )

  after_wrapping : (o : Result ℕ × S) → (handle o.0 (λ e. throw (wrapped e)) o.1).1 ≡ o.1
  after_wrapping (ok n, s) = refl
  after_wrapping (err e, s) = refl
  after_wrapping (panic, s) = refl

  pub create-Grows : (c x : String) (s : S) → Grows elements s (save_id_in_db db c x s).1
  unfolding save_id_in_db
  create-Grows c x s =
      subst (Grows elements s) (sym (after_wrapping (db.append_element c x s)))
        (growth.append-grows c x s)

  pub Grows-to :
      (s s' : S) (o : Result ℕ × S) (r : Result ℕ)
      → o ≡ (r, s')
      → Grows elements s o.1
      → Grows elements s s'
  Grows-to s s' o r is h = subst (λ (t : Result ℕ × S). Grows elements s t.1) is h

  pub created :
      (c x : String) (id : ℕ) (s s' : S)
      → save_id_in_db db c x s ≡ (ok id, s')
      → IsNumbered s' c x id
  unfolding save_id_in_db
  created c x id s s' h =
      let (absent, lists, is) =
        laws.append-ok c x id s s' (wrapping-ok (db.append_element c x) s id s' h) in
      let here : elements s' c ≡ elements s c ++ (x ∷ []) = lists c ∙ (rw (eq_refl c) refl) in
      (length (elements s c), ap (index x) here ∙ index-append_self x (elements s c) absent, inr is)

  pub found :
      (c x : String) (id : ℕ) (s s' : S)
      → get_id_from_db db c x s ≡ (ok id, s')
      → IsNumbered s' c x id
  found c x id s s' h =
      let (at, same) = from_db-ok db laws c x id s s' h in
      (id, ap (λ t. index x (elements t c)) same ∙ at, inl refl)

-- ===== src/IdGetter/Stable.antt =====
-- `getID` of src/cmd/id_getter/server/server.go, in one server that creates every element.
use allezon.Base.{
  ℕ, zero, suc, ◌-◌, ◌≡◌, ◌⊎◌, inl, inr, sym, ◌∙◌, String, Bool, true, false, ◌&&◌, Option, none,
  some, List, [], ◌∷◌, ◌++◌, ok, arith, str_eq, eq_iff, eq_refl, length, Option-cases,
  if◌then◌else◌,
}
use allezon.Base.Exec.{return-ok}
use allezon.IdGetter.{ElementsClient, succ_option, index}
use allezon.IdGetter.Assigned.{ElementsLaws, Found, Appended, fetch-ok}
use allezon.IdGetter.Caching.{check-save, get_id-hit, get_id-miss}
use allezon.IdGetter.Server.{Server, check_in_cache, save_in_cache, get_id}

-- An element that is appended comes last.
pub index-append_self :
    (x : String) (l : List String) → index x l ≡ none → index x (l ++ (x ∷ [])) ≡ some (length l)
unfolding index
index-append_self x [] h = rw (eq_refl x)
index-append_self x (y ∷ l) h = ground (arith, index-append_self x l)

-- The others stay where they are.
pub index-append_ne :
    (x y : String) (l : List String) → str_eq x y ≡ false → index y (l ++ (x ∷ [])) ≡ index y l
unfolding index
index-append_ne x y [] h = rw h
index-append_ne x y (z ∷ l) h = rw (index-append_ne x y l h)

-- A place holds one element.
pub index_injective :
    (x y : String) (l : List String) (i : ℕ) → index x l ≡ some i → index y l ≡ some i → x ≡ y
unfolding index
index_injective x y [] i p q = cc
index_injective x y (z ∷ l) zero p q = ground (arith, eq_iff z x, eq_iff z y)
index_injective x y (z ∷ l) (suc i) p q =
    ground (arith, eq_iff z x, eq_iff z y, index_injective x y l i)

module _ {S : Type 0} (db : ElementsClient S) (laws : ElementsLaws db) where
  open laws use {elements}

  -- The place of an element in its list, counted from 1, if it is there.
  abbrev pub place : String → String → S → Option ℕ
  place c x s = succ_option (index x (elements s c))

  -- The cache holds every element with its place, and no other.
  abbrev pub IsCoherent : Server S → Type 0
  IsCoherent s = (c x : String) → check_in_cache c x s.ids_cache ≡ place c x s.store

  pub place-appended :
      (c x d y : String) (id : ℕ) (s s' : S)
      → Appended db laws c x id s s'
      → place d y s' ≡ (if str_eq c d && str_eq x y then some id else place d y s)
  place-appended c x d y id s s' (absent, lists, is) = rw (lists d) (
      ground (
        arith,
        eq_iff d c,
        eq_iff c d,
        eq_iff x y,
        is,
        index-append_self x (elements s c) absent,
        index-append_ne x y (elements s c),
      ))

  missed :
      (c x : String) (create : Bool) (id : ℕ) (s s' : Server S) (t : S)
      → IsCoherent s
      → check_in_cache c x s.ids_cache ≡ none
      → Found db laws c x id s.store t ⊎ ((create ≡ true) × Appended db laws c x id s.store t)
      → s' ≡ record { store = t; ids_cache = save_in_cache c x id s.ids_cache }
      → IsCoherent s' × (place c x s'.store ≡ some id)
  missed c x create id s s' t coherent miss (inl (found, same)) is =
      absurd (ground (arith, coherent c x))
  missed c x create id s s' t coherent miss (inr (may, appended)) is = rw is (
    (λ d y. rw (
      check-save c x d y id s.ids_cache,
      place-appended c x d y id s.store t appended,
      coherent d y,
    )),
    rw (place-appended c x c x id s.store t appended, eq_refl c, eq_refl x),
  )

  -- From a coherent server, such as one started on an empty database, a request that succeeds leaves
  -- a coherent server, and its id is the place of the element.
  pub get_id-IsCoherent :
      (c x : String) (create : Bool) (id : ℕ) (s s' : Server S)
      → IsCoherent s
      → get_id db c x create s ≡ (ok id, s')
      → IsCoherent s' × (place c x s'.store ≡ some id)
  get_id-IsCoherent c x create id s s' coherent h =
      elim (Option-cases (check_in_cache c x s.ids_cache)) [
        | inl miss ↦
            let (t, fetched, is) = get_id-miss db c x create id s s' miss h in
            missed c x create id s s' t coherent miss
              (fetch-ok db laws c x create id s.store t fetched) is
        | inr (i, hit) ↦
            let (same, as_before) =
              return-ok i id s s' (rw (get_id-hit db c x create i s hit) at h) in
            rw as_before (coherent, rw (← same) (sym (coherent c x) ∙ hit))
      ]

  -- A coherent server has no id for two elements of a collection.
  pub ids_distinct :
      (c x y : String) (id : ℕ) (s : Server S)
      → IsCoherent s
      → check_in_cache c x s.ids_cache ≡ some id
      → check_in_cache c y s.ids_cache ≡ some id
      → x ≡ y
  ids_distinct c x y id s coherent p q =
      index_injective x y (elements s.store c) (id - 1) (ground (arith, coherent c x))
        (ground (arith, coherent c y))

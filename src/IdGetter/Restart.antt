-- ===== src/IdGetter/Restart.antt =====
-- `getID` of src/cmd/id_getter/server/server.go, in a server whose cache is empty: after a restart,
-- or as another replica.
use allezon.Base.{
  ℕ, suc, ◌≡◌, inl, inr, ◌≢◌, refl, sym, ap, ◌∙◌, String, Bool, none, some, [], ◌∷◌, ◌++◌, ok,
  arith, eq_refl, length, length-append,
}
use allezon.Base.Assoc.{lookup}
use allezon.IdGetter.{ElementsClient, index}
use allezon.IdGetter.Assigned.{ElementsLaws, Appended, fetch-ok}
use allezon.IdGetter.Caching.{get_id-miss}
use allezon.IdGetter.Server.{Server, check_in_cache, get_id}
use allezon.IdGetter.Stable.{index-append_self}

-- A new process over the same database.
abbrev pub restart : {S : Type 0} → Server S → Server S
restart s = record s { ids_cache = [] }

empty_cache : (c x : String) → check_in_cache c x [] ≡ none
unfolding check_in_cache lookup
empty_cache c x = refl

module _ {S : Type 0} (db : ElementsClient S) (laws : ElementsLaws db) where
  open laws use {elements}

  -- An element that is neither cached nor in its list.
  pub record IsNew (c x : String) (s : Server S) : Type 0 where
    pub uncached : check_in_cache c x s.ids_cache ≡ none
    pub unlisted : index x (elements s.store c) ≡ none

  -- Creation appends to the list.
  creates :
      (c x : String) (create : Bool) (id : ℕ) (s s' : Server S)
      → IsNew c x s
      → get_id db c x create s ≡ (ok id, s')
      → Appended db laws c x id s.store s'.store
  creates c x create id s s' new h =
      let (t, fetched, is) = get_id-miss db c x create id s s' new.uncached h in
      elim (fetch-ok db laws c x create id s.store t fetched) [
        | inl found ↦ absurd (ground (arith, new.unlisted))
        | inr (may, appended) ↦ rw is appended
      ]

  -- What a restarted server returns of an element that is in its list.
  listed :
      (c x : String) (create : Bool) (i id : ℕ) (s s' : Server S)
      → index x (elements s.store c) ≡ some i
      → get_id db c x create (restart s) ≡ (ok id, s')
      → id ≡ i
  listed c x create i id s s' place h =
      let (t, fetched, is) = get_id-miss db c x create id (restart s) s' (empty_cache c x) h in
      elim (fetch-ok db laws c x create id s.store t fetched) [
        | inl found ↦ ground (arith, found.0, place)
        | inr (may, appended) ↦ absurd (ground (arith, appended.0, place))
      ]

  -- An element's id falls by one: whatever id its creation returned, a restarted server returns the
  -- number before it.
  pub restart_renumbers :
      (c x : String) (create again : Bool) (id id' : ℕ) (s s' s'' : Server S)
      → IsNew c x s
      → get_id db c x create s ≡ (ok id, s')
      → get_id db c x again (restart s') ≡ (ok id', s'')
      → id ≡ suc id'
  restart_renumbers c x create again id id' s s' s'' new first second =
      let (absent, lists, is) = creates c x create id s s' new first in
      let place =
        listed c x again (length (elements s.store c)) id' s' s''
          (rw (lists c, eq_refl c) (index-append_self x (elements s.store c) absent)) second in
      is ∙ ap suc (sym place)

  -- Two elements share an id: of two elements that one server creates one after the other in a
  -- collection, a restarted server gives to the second the id that the first was created with.
  pub restart_collides :
      (c x y : String) (create again : Bool) (id_x id_y id : ℕ) (s s' s'' t : Server S)
      → IsNew c x s
      → get_id db c x create s ≡ (ok id_x, s')
      → IsNew c y s'
      → get_id db c y create s' ≡ (ok id_y, s'')
      → get_id db c y again (restart s'') ≡ (ok id, t)
      → (id ≡ id_x) × (x ≢ y)
  restart_collides c x y create again id_x id_y id s s' s'' t new_x first new_y second third =
      let (absent, lists, is) = creates c x create id_x s s' new_x first in
      let (absent', lists', is') = creates c y create id_y s' s'' new_y second in
      let below = restart_renumbers c y create again id_y id s' s'' t new_y second third in
      let grown : elements s'.store c ≡ elements s.store c ++ (x ∷ []) = rw (lists c, eq_refl c) in
      let longer = length-append (elements s.store c) (x ∷ []) in
      let placed : index x (elements s'.store c) ≡ some (length (elements s.store c)) =
        rw grown (index-append_self x (elements s.store c) absent) in
      (
        omega (arith, ap length grown, longer, is, is', below),
        λ same. cc (ap (λ z. index z (elements s'.store c)) same, placed, new_y.unlisted),
      )

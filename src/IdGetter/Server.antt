-- ===== src/IdGetter/Server.antt =====
-- src/cmd/id_getter/server/server.go: `getID` and its cache.
use allezon.Base.{
  ℕ, String, Bool, Option, none, some, [], Result, ok, err, sentinel, wrapped, is, not_found,
  ids_key_not_found, if◌then◌else◌,
}
use allezon.Base.Assoc.{Assoc, lookup, insert}
use allezon.Base.Exec.{Exec, ◌>>=◌, return, lift, throw, catch, wrapping}
use allezon.IdGetter.{ElementsClient, index}

abbrev pub Cache : Type 0
Cache = Assoc (Assoc ℕ)

-- The server's cache beside the state of the database.
pub record Server (S : Type 0) : Type 0 where
  pub store : S
  pub ids_cache : Cache

-- The call of an outcome behind the server.
abbrev pub put_store : {S A : Type 0} → Server S → Result A × S → Result A × Server S
put_store s (r, store) = (r, record s { store = store })

abbrev pub on_store : {S A : Type 0} → Exec S A → Exec (Server S) A
on_store m s = put_store s (m s.store)

-- `idsCache[category]`, and the element in that map
abbrev pub in_category : String → Option (Assoc ℕ) → Option ℕ
in_category element none = none
in_category element (some cache) = lookup element cache

unfoldable pub check_in_cache : String → String → Cache → Option ℕ
check_in_cache category element cache = in_category element (lookup category cache)

-- The map of a category, made if it is not there.
abbrev pub category_or_new : Option (Assoc ℕ) → Assoc ℕ
category_or_new none = []
category_or_new (some cache) = cache

unfoldable pub save_in_cache : String → String → ℕ → Cache → Cache
save_in_cache category element id cache =
    insert category (insert element id (category_or_new (lookup category cache))) cache

abbrev pub found_or : Option ℕ → Result ℕ
found_or none = err (wrapped (sentinel not_found))
found_or (some id) = ok id

module _ {S : Type 0} (db : ElementsClient S) where
  unfoldable pub get_id_from_db : String → String → Exec S ℕ
  get_id_from_db collection element = do
    list ← catch (db.get_elements collection) (λ e.
        if is e ids_key_not_found then throw (wrapped (sentinel not_found)) else throw (wrapped e))
    lift (found_or (index element list))

  unfoldable pub save_id_in_db : String → String → Exec S ℕ
  save_id_in_db category element = wrapping (db.append_element category element)

  -- The id of an element that is not cached.
  unfoldable pub fetch : String → String → Bool → Exec S ℕ
  unfolding get_id_from_db save_id_in_db
  fetch collection element create_missing = catch (get_id_from_db collection element) (λ e.
      if is e not_found
      then (if create_missing
          then wrapping (save_id_in_db collection element)
          else throw (wrapped e))
      else throw (wrapped e))

  unfoldable pub cache_id : String → String → ℕ → Exec (Server S) ℕ
  cache_id collection element id s =
      (ok id, record s { ids_cache = save_in_cache collection element id s.ids_cache })

  unfoldable pub or_fetch : String → String → Bool → Option ℕ → Exec (Server S) ℕ
  unfolding fetch cache_id
  or_fetch collection element create_missing (some id) = return id
  or_fetch collection element create_missing none = do
    id ← on_store (fetch collection element create_missing)
    cache_id collection element id

  unfoldable pub get_id : String → String → Bool → Exec (Server S) ℕ
  unfolding or_fetch
  get_id collection element create_missing s =
      or_fetch collection element create_missing (check_in_cache collection element s.ids_cache) s

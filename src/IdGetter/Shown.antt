-- ===== src/IdGetter/Shown.antt =====
-- The ids of src/cmd/id_getter/server/server.go on the client of db/db.go, over a database that does with
-- lists what it documents.
use allezon.Base.{
  ℕ, suc, ◌≡◌, ◌≢◌, ◌⊎◌, String, Bool, true, none, some, List, [], ◌∷◌, ◌++◌, ok, str_eq, length,
  if◌then◌else◌,
}
use allezon.Db.Aerospike.{Database}
use allezon.IdGetter.{index}
use allezon.IdGetter.Elements.{elements_client}
use allezon.IdGetter.Listed.{ListsLaws, or_empty, elements_laws, growth_laws}
use allezon.IdGetter.Server.{Server, fetch, get_id}
use allezon.IdGetter.Assigned.{fetch-ok}
use allezon.IdGetter.Stable.{IsCoherent, place, get_id-IsCoherent}
use allezon.IdGetter.Restart.{restart, IsNew, restart_renumbers, restart_collides}
use allezon.IdGetter.Concurrent.{Replicas, Moves}
use allezon.IdGetter.Concurrent.Growth.{AreNumbered}
use allezon.IdGetter.Concurrent.Numbered.{Moves-AreNumbered}

module _ {S : Type 0} (db : Database S) (lists : ListsLaws db) where
  -- The list of a collection in the database, empty if there is none
  abbrev pub listed : S → String → List String
  listed s c = or_empty (lists.stored s c)

  -- If the database does with its lists what it documents, an uncached element gets its index from
  -- 0 if it is in the list, and nothing changes; otherwise it may be created, the element has been
  -- appended to its list and to no other, and gets the new length, which counts from 1.
  pub fetch-listed :
      (c x : String) (create : Bool) (id : ℕ) (s s' : S)
      → fetch (elements_client db) c x create s ≡ (ok id, s')
      → ((index x (listed s c) ≡ some id) × (s' ≡ s))
        ⊎ ((create ≡ true)
            × ((index x (listed s c) ≡ none)
                × ((d : String)
                    → listed s' d ≡ (if str_eq d c then listed s c ++ (x ∷ []) else listed s d))
                × (id ≡ suc (length (listed s c)))))
  unfolding elements_laws
  fetch-listed c x create id s s' h =
      fetch-ok (elements_client db) (elements_laws db lists) c x create id s s' h

  -- If the database does with its lists what it documents, then from a server whose cache holds
  -- every element with its place, such as one started on an empty database, a request that succeeds
  -- leaves such a server, and its id is the place of the element, counted from 1.
  pub get_id-listed :
      (c x : String) (create : Bool) (id : ℕ) (s s' : Server S)
      → IsCoherent (elements_client db) (elements_laws db lists) s
      → get_id (elements_client db) c x create s ≡ (ok id, s')
      → IsCoherent (elements_client db) (elements_laws db lists) s'
        × (place (elements_client db) (elements_laws db lists) c x s'.store ≡ some id)
  get_id-listed c x create id s s' coherent h =
      get_id-IsCoherent (elements_client db) (elements_laws db lists) c x create id s s' coherent h

  -- If the database does with its lists what it documents, an element's id falls by one: whatever
  -- id the request returned that created it, a restarted server returns the number before it.
  pub restarted-renumbers :
      (c x : String) (create again : Bool) (id id' : ℕ) (s s' s'' : Server S)
      → IsNew (elements_client db) (elements_laws db lists) c x s
      → get_id (elements_client db) c x create s ≡ (ok id, s')
      → get_id (elements_client db) c x again (restart s') ≡ (ok id', s'')
      → id ≡ suc id'
  restarted-renumbers c x create again id id' s s' s'' new first second =
      restart_renumbers (elements_client db) (elements_laws db lists) c x create again id id' s s'
        s'' new first second

  -- If the database does with its lists what it documents, two elements share an id: of two elements
  -- that one server creates one after the other in a collection, a restarted server gives to the
  -- second the id that the first was created with.
  pub restarted-collides :
      (c x y : String) (create again : Bool) (id_x id_y id : ℕ) (s s' s'' t : Server S)
      → IsNew (elements_client db) (elements_laws db lists) c x s
      → get_id (elements_client db) c x create s ≡ (ok id_x, s')
      → IsNew (elements_client db) (elements_laws db lists) c y s'
      → get_id (elements_client db) c y create s' ≡ (ok id_y, s'')
      → get_id (elements_client db) c y again (restart s'') ≡ (ok id, t)
      → (id ≡ id_x) × (x ≢ y)
  restarted-collides c x y create again id_x id_y id s s' s'' t new_x first new_y second third =
      restart_collides (elements_client db) (elements_laws db lists) c x y create again id_x id_y id
        s s' s'' t new_x first new_y second third

  -- While requests arrive, move and end in any order at any number of replicas with one database
  -- that does with its lists what it documents, and replicas are started anew, every id that is
  -- cached, about to be cached or answered is the index of its element in its list, or one more, if
  -- it is so at first; a move of a request is one call of the database or one of the cache.
  pub Moves-listed :
      (m n : Replicas S)
      → Moves (elements_client db) m n
      → AreNumbered (elements_client db) (elements_laws db lists) (growth_laws db lists) m
      → AreNumbered (elements_client db) (elements_laws db lists) (growth_laws db lists) n
  Moves-listed m n moves h =
      Moves-AreNumbered (elements_client db) (elements_laws db lists) (growth_laws db lists) m n
        moves h

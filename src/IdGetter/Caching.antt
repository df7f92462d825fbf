-- ===== src/IdGetter/Caching.antt =====
-- The cache of src/cmd/id_getter/server/server.go, and `getID` in terms of it.
use allezon.Base.{
  ℕ, ◌≡◌, inl, inr, refl, sym, String, Bool, ◌&&◌, Option, none, some, Result, ok, arith, str_eq,
  eq_iff, eq_refl, Option-cases, if◌then◌else◌,
}
use allezon.Base.Assoc.{Assoc, lookup, insert, lookup-insert}
use allezon.Base.Exec.{>>=-ok, return-ok}
use allezon.IdGetter.{ElementsClient}
use allezon.IdGetter.Server.{
  Cache, Server, put_store, on_store, in_category, check_in_cache, category_or_new, save_in_cache,
  fetch, cache_id, or_fetch, get_id,
}

in_new : (x : String) (o : Option (Assoc ℕ)) → lookup x (category_or_new o) ≡ in_category x o
in_new x none = unfold lookup in refl
in_new x (some m) = refl

-- What is saved is found, and hides nothing else.
pub check-save :
    (c x d y : String) (id : ℕ) (cache : Cache)
    → check_in_cache d y (save_in_cache c x id cache)
      ≡ (if str_eq c d && str_eq x y then some id else check_in_cache d y cache)
unfolding check_in_cache save_in_cache
check-save c x d y id cache =
    let new = insert x id (category_or_new (lookup c cache)) in
    rw (lookup-insert c d new cache) (
      ground (
        arith,
        eq_iff c d,
        lookup-insert x y id (category_or_new (lookup c cache)),
        in_new y (lookup c cache),
      ))

module _ {S : Type 0} (db : ElementsClient S) where
  -- A cached id is returned, and nothing changes.
  pub get_id-hit :
      (c x : String) (create : Bool) (id : ℕ) (s : Server S)
      → check_in_cache c x s.ids_cache ≡ some id
      → get_id db c x create s ≡ (ok id, s)
  unfolding get_id or_fetch
  get_id-hit c x create id s hit = rw hit

  stored_ok :
      (s : Server S) (o : Result ℕ × S) (id : ℕ) (s' : Server S)
      → put_store s o ≡ (ok id, s')
      → (s₁ : S) × (o ≡ (ok id, s₁)) × (s' ≡ record s { store = s₁ })
  stored_ok s (r, s₁) id s' h = (s₁, λ i. ((h i).0, s₁), λ i. (sym h i).1)

  -- An id that was not cached has been fetched, and is cached now.
  pub get_id-miss :
      (c x : String) (create : Bool) (id : ℕ) (s s' : Server S)
      → check_in_cache c x s.ids_cache ≡ none
      → get_id db c x create s ≡ (ok id, s')
      → (s₁ : S) × (fetch db c x create s.store ≡ (ok id, s₁))
        × (s' ≡ record { store = s₁; ids_cache = save_in_cache c x id s.ids_cache })
  unfolding get_id or_fetch cache_id
  get_id-miss c x create id s s' miss h =
      let (i, t, got, saved) =
        >>=-ok (on_store (fetch db c x create)) (cache_id db c x) s id s' (rw miss at h) in
      let (s₁, fetched, is) = stored_ok s (fetch db c x create s.store) i t got in
      let (same, saved_is) =
        return-ok i id (record t { ids_cache = save_in_cache c x i t.ids_cache }) s' saved in
      (s₁, rw (← same) fetched, rw (saved_is, is, same))

  -- After any success the id is cached: a second request has the same id and changes nothing.
  pub get_id_again :
      (c x : String) (create again : Bool) (id : ℕ) (s s' : Server S)
      → get_id db c x create s ≡ (ok id, s')
      → get_id db c x again s' ≡ (ok id, s')
  get_id_again c x create again id s s' h = elim (Option-cases (check_in_cache c x s.ids_cache)) [
    | inl miss ↦
        let (s₁, fetched, is) = get_id-miss c x create id s s' miss h in
        get_id-hit c x again id s'
          (rw (is, check-save c x c x id s.ids_cache, eq_refl c, eq_refl x))
    | inr (i, hit) ↦
        let (same, as_before) = return-ok i id s s' (rw (get_id-hit c x create i s hit) at h) in
        get_id-hit c x again id s' (rw (as_before, hit, same))
  ]

-- ===== src/IdClient/Laws.antt =====
-- The ids and the cache of the client of src/pkg/idGetter/client.go.
use allezon.Base.{
  ℕ, ◌^◌, ◌<◌, ◌≡◌, ◌↔◌, inl, inr, sym, ◌∙◌, String, Bool, true, Option, none, some, Result, ok,
  arith, eq_refl, Option-cases,
}
use allezon.Base.Assoc.{Assoc, lookup, lookup-insert}
use allezon.Base.Exec.{lift, wrapping, wrapping-ok, >>=-ok, return-ok, lift-ok}
use allezon.IdClient.{
  Client, check_u16, get_u16_id, Transport, ClientState, with_element, get_from_cache,
  save_in_cache, store_id, or_ask, get_id, get_id_from_server, put_remote, on_remote,
}

check_u16-ok : (id id' : ℕ) → check_u16 id ≡ ok id' → (id' ≡ id) × (id' < 2 ^ 16)
unfolding check_u16
check_u16-ok id id' h = ground arith

check_u16-fits : {S : Type 0} (id : ℕ) (s : S) → id < 2 ^ 16 → lift (check_u16 id) s ≡ (ok id, s)
unfolding check_u16
check_u16-fits id s fits = ground arith

found : (x : String) (id : ℕ) (o : Option (Assoc ℕ)) → lookup x (with_element x id o) ≡ some id
found x id none = rw lookup-insert (rw (eq_refl x))
found x id (some m) = rw lookup-insert (rw (eq_refl x))

-- An id is returned exactly when the client has it and it fits 16 bits; then it is the client's.
pub get_u16_id_iff :
    {S : Type 0} (cl : Client S) (c x : String) (create : Bool) (id : ℕ) (s s' : S)
    → (get_u16_id cl c x create s ≡ (ok id, s'))
      ↔ ((cl.get_id c x create s ≡ (ok id, s')) × (id < 2 ^ 16))
unfolding get_u16_id
get_u16_id_iff cl c x create id s s' = (
  λ h.
      let (i, s₁, got, rest) = >>=-ok (cl.get_id c x create) (λ i. lift (check_u16 i)) s id s' h in
      let (checked, same) = lift-ok (check_u16 i) s₁ id s' rest in
      let (is, fits) = check_u16-ok i id checked in
      (got ∙ (λ k. (ok (sym is k), sym same k)), fits),
  λ h. rw h.0 (check_u16-fits id s' h.1),
)

-- What is saved is found, while the cache is enabled.
get-save :
    {S : Type 0} (c x : String) (id : ℕ) (s : ClientState S)
    → s.cache_enabled ≡ true
    → get_from_cache c x (save_in_cache c x id s) ≡ some id
unfolding get_from_cache save_in_cache
get-save c x id s enabled =
    rw (enabled, lookup-insert c c (with_element x id (lookup c s.cache)) s.cache, eq_refl c)
      (found x id (lookup c s.cache))

kept_enabled :
    {S : Type 0} (s : ClientState S) (o : Result ℕ × S) (i : ℕ) (t : ClientState S)
    → put_remote s o ≡ (ok i, t)
    → t.cache_enabled ≡ s.cache_enabled
kept_enabled s (r, remote) i t h = λ k. (sym h k).1.cache_enabled

module _ {S : Type 0} (http : Transport S) where
  -- With the cache enabled, an id that was returned is returned again, with no request: the state
  -- of what the client calls, and the cache, stay as they are.
  pub get_id_cached :
      (c x : String) (create again : Bool) (id : ℕ) (s s' : ClientState S)
      → s.cache_enabled ≡ true
      → get_id http c x create s ≡ (ok id, s')
      → get_id http c x again s' ≡ (ok id, s')
  unfolding get_id or_ask store_id
  get_id_cached c x create again id s s' enabled h = elim (Option-cases (get_from_cache c x s)) [
    | inl miss ↦
        let request = get_id_from_server http c x create in
        let (i, t, got, saved) =
          >>=-ok (wrapping (on_remote request)) (store_id http c x) s id s' (rw miss at h) in
        let (same, is) = return-ok i id (save_in_cache c x i t) s' saved in
        let asked = wrapping-ok (on_remote request) s i t got in
        let still = kept_enabled s (request s.remote) i t asked ∙ enabled in
        rw (is, get-save c x i t still, same)
    | inr (i, hit) ↦ let (same, is) = return-ok i id s s' (rw hit at h) in rw (is, hit, same)
  ]

-- ===== src/Flow/Numbered.antt =====
-- `getID` of src/cmd/id_getter/server/server.go as the service of ids, asked directly: the laws that the
-- worker and the API service rely on hold of one server that is not started anew.
use allezon.Base.{
  ℕ, ◌-◌, ◌≡◌, ◌⊎◌, inl, inr, ap, ◌∙◌, String, Bool, true, false, Option, none, some, ok, Result,
  arith, eq_iff, Option-cases, refl, if◌then◌else◌, Error, sentinel, wrapped, is, not_found,
  ids_key_not_found,
}
use allezon.Base.Exec.{Exec, return-ok, lift, throw, catch, wrapping}
use allezon.Base.Keeps.{Keeps, >>=-Keeps, catch-Keeps, wrapping-Keeps}
use allezon.IdClient
use allezon.IdGetter.{ElementsClient, succ_option, index}
use allezon.IdGetter.Assigned.{ElementsLaws, Found, Appended, fetch-ok}
use allezon.IdGetter.Caching.{get_id-hit, get_id-miss}
use allezon.IdGetter.Server.{
  Server, check_in_cache, found_or, get_id_from_db, save_id_in_db, fetch, or_fetch, put_store,
  on_store, cache_id, get_id,
}
use allezon.IdGetter.Stable.{place, IsCoherent, place-appended, index_injective, get_id-IsCoherent}
use allezon.Flow.{NumbersLaws}

-- A client that asks the server itself
abbrev pub direct : {S : Type 0} → ElementsClient S → IdClient.Client (Server S)
direct elements = record { get_id = λ c e create. get_id elements c e create }

module _ {S : Type 0} (elements : ElementsClient S) (laws : ElementsLaws elements) where
  -- A place that is taken stays so.
  place-stays :
      (c x : String) (create : Bool) (id : ℕ) (s t : S) (d y : String) (n : ℕ)
      → Found elements laws c x id s t ⊎ ((create ≡ true) × Appended elements laws c x id s t)
      → place elements laws d y s ≡ some n
      → place elements laws d y t ≡ some n
  place-stays c x create id s t d y n (inl (found, same)) h = ap (place elements laws d y) same ∙ h
  place-stays c x create id s t d y n (inr (may, appended)) h =
      rw (place-appended elements laws c x d y id s t appended)
        (ground (arith, eq_iff c d, eq_iff x y, absent))
    where
      absent : place elements laws c x s ≡ none
      absent = rw (appended.0)

  get_id-stays :
      (c x : String) (create : Bool) (id : ℕ) (s s' : Server S) (d y : String) (n : ℕ)
      → get_id elements c x create s ≡ (ok id, s')
      → place elements laws d y s.store ≡ some n
      → place elements laws d y s'.store ≡ some n
  get_id-stays c x create id s s' d y n h had =
      elim (Option-cases (check_in_cache c x s.ids_cache)) [
        | inl miss ↦
            let (t, fetched, is) = get_id-miss elements c x create id s s' miss h in
            rw is (
              place-stays c x create id s.store t d y n
                (fetch-ok elements laws c x create id s.store t fetched) had)
        | inr (i, hit) ↦
            let (same, as_before) =
              return-ok i id s s' (rw (get_id-hit elements c x create i s hit) at h) in
            rw as_before had
      ]

  index_of_place : (o : Option ℕ) (n : ℕ) → succ_option o ≡ some n → o ≡ some (n - 1)
  index_of_place none n h = cc
  index_of_place (some i) n h = ground arith

  distinct_places :
      (s : Server S) (c e e' : String) (n : ℕ)
      → place elements laws c e s.store ≡ some n
      → place elements laws c e' s.store ≡ some n
      → e ≡ e'
  distinct_places s c e e' n h h' =
      let list = laws.elements s.store c in
      index_injective e e' list (n - 1) (index_of_place (index e list) n h)
        (index_of_place (index e' list) n h')

  module _ {V : Type 0} (w : S → V) (get-Keeps : (c : String) → Keeps w (elements.get_elements c))
      (append-Keeps : (c e : String) → Keeps w (elements.append_element c e)) where
    -- The view of what is behind the server
    abbrev pub behind : Server S → V
    behind s = w s.store

    if_throw-Keeps :
        {A : Type 0} (b : Bool) (m : Exec S A) (e : Error)
        → Keeps w m
        → Keeps w (if b then m else throw e)
    if_throw-Keeps true m e h = h
    if_throw-Keeps false m e h = λ s. refl

    get_id_from_db-Keeps : (c e : String) → Keeps w (get_id_from_db elements c e)
    unfolding get_id_from_db
    get_id_from_db-Keeps c e =
        >>=-Keeps w (catch (elements.get_elements c) _) (λ list. lift (found_or (index e list)))
          (catch-Keeps w (elements.get_elements c) _ (get-Keeps c) (λ d.
            if_throw-Keeps (is d ids_key_not_found) (throw (wrapped (sentinel not_found)))
              (wrapped d) (λ s. refl)))
          (λ list s. refl)

    fetch-Keeps : (c e : String) (create : Bool) → Keeps w (fetch elements c e create)
    unfolding fetch save_id_in_db
    fetch-Keeps c e create =
        catch-Keeps w (get_id_from_db elements c e) _ (get_id_from_db-Keeps c e) (λ d.
          if_throw-Keeps (is d not_found) _ (wrapped d) (
            if_throw-Keeps create (wrapping (save_id_in_db elements c e)) (wrapped d) (
              wrapping-Keeps w (save_id_in_db elements c e)
                (wrapping-Keeps w (elements.append_element c e) (append-Keeps c e)))))

    stored : (s : Server S) (o : Result ℕ × S) → behind (put_store s o).1 ≡ w o.1
    stored s (r, t) = refl

    or_fetch-Keeps :
        (c e : String) (create : Bool) (o : Option ℕ)
        → Keeps behind (or_fetch elements c e create o)
    unfolding or_fetch
    or_fetch-Keeps c e create (some id) = λ s. refl
    or_fetch-Keeps c e create none =
        >>=-Keeps behind (on_store (fetch elements c e create)) (cache_id elements c e)
          (λ s. stored s (fetch elements c e create s.store) ∙ fetch-Keeps c e create s.store)
          (λ id s. refl)

    direct-Keeps : (c e : String) (create : Bool) → Keeps behind (get_id elements c e create)
    unfolding get_id
    direct-Keeps c e create s = or_fetch-Keeps c e create (check_in_cache c e s.ids_cache) s

    -- One server that is coherent, such as one started on empty lists, numbers the elements.
    pub direct-NumbersLaws : NumbersLaws behind (direct elements)
    direct-NumbersLaws = record {
      is_ready = λ s. IsCoherent elements laws s;
      has_id = λ s c e n. place elements laws c e s.store ≡ some n;
      get_id-ok = λ c e create id s s' ready h.
          let (coherent, had) = get_id-IsCoherent elements laws c e create id s s' ready h in
          (coherent, had, λ d x n before. get_id-stays c e create id s s' d x n h before);
      unique = λ s c e n n' h h'. ground arith;
      distinct = λ s c e e' n h h'. distinct_places s c e e' n h h';
      get_id-Keeps = direct-Keeps;
    }

-- ===== src/Db/Profiles/Trimming.antt =====
-- `RemoveOverLimit` of src/pkg/db/user_profiles.go, and what it asks of the database.
use allezon.Base.{
  ℕ, zero, suc, ◌-◌, ◌^◌, ◌<◌, ◌≡◌, ◌⊎◌, inl, inr, refl, ap, ap₂, subst, ◌∙◌, String, true, false,
  ◌&&◌, Option, none, some, List, [], Error, Result, ok, err, wrapped, matches, key_not_found_error,
  generation_error, ℤ, arith, str_eq, eq_iff, length, drop, Bool-cases, int64_sub,
  int64_nonpositive, ◌==◌, if◌then◌else◌,
}
use allezon.Base.Exec.{
  ◌>>=◌, ◌>>◌, return, throw, >>=-ok, catch-ok, throw-not_ok, throws-not_ok, return-ok, return-err,
}
use allezon.Types.{buy}
use allezon.Types.Roundtrip.{IsAction}
use allezon.Db.Aerospike.{
  Database, Key, Record, scalar, nil, int, bin, map_size, map_remove_by_index_range_count,
}
use allezon.Db.Profiles.{
  user_profiles_namespace, user_profiles_set, user_profiles_views_bin, user_profiles_buys_bin,
  action_to_bin,
}
use allezon.Db.Profiles.Client.{
  size_policy, remove_policy, remove_oldest, trim, trim_record, read_size, remove_over_limit,
}

-- What the database documents of the two operations: `entries s c b` are the entries of the map in
-- the bin `b` of the record `c`, in ascending order of their keys, and none if there is no such map.
pub record TrimLaws {S : Type 0} (db : Database S) : Type 0 where
  pub open_key : String → Key
  pub entries : S → String → String → List (ℤ × List ℕ)
  pub new_key_ok :
      (c : String) → db.new_key user_profiles_namespace user_profiles_set c ≡ ok (open_key c)
  -- a size that is read changes nothing; it is nil where the bin is not there
  pub size-ok :
      (c b : String) (s s' : S) (r : Record)
      → db.operate size_policy (open_key c) (map_size b) s ≡ (ok r, s')
      → (s' ≡ s)
        × ((bin b r.bins ≡ some (scalar (int (length (entries s c b)))))
            ⊎ ((bin b r.bins ≡ some (scalar nil)) × (entries s c b ≡ [])))
  pub size-not_found :
      (c b : String) (s s' : S) (e : Error)
      → db.operate size_policy (open_key c) (map_size b) s ≡ (err e, s')
      → matches e key_not_found_error ≡ true
      → (s' ≡ s) × (entries s c b ≡ [])
  -- a removal of the first `n` entries
  pub remove-ok :
      (c b : String) (g n : ℕ) (s s' : S) (r : Record)
      → db.operate (remove_policy g) (open_key c) (map_remove_by_index_range_count b 0 n) s
        ≡ (ok r, s')
      → (d a : String)
      → entries s' d a
        ≡ (if str_eq d c && str_eq a b then drop n (entries s c b) else entries s d a)

abbrev pub action_bin : ℕ → String
action_bin a = if a == buy then user_profiles_buys_bin else user_profiles_views_bin

pub action_to_bin-action_bin : (a : ℕ) → IsAction a → action_to_bin a ≡ ok (action_bin a)
unfolding action_to_bin
action_to_bin-action_bin a (inl e) = rw e
action_to_bin-action_bin a (inr e) = rw e

no_excess :
    (n limit : ℕ)
    → n < 2 ^ 63
    → limit < 2 ^ 63
    → int64_nonpositive (int64_sub n limit) ≡ true
    → n - limit ≡ 0
no_excess n limit hn hl h = ground arith

excess :
    (n limit : ℕ)
    → n < 2 ^ 63
    → limit < 2 ^ 63
    → int64_nonpositive (int64_sub n limit) ≡ false
    → int64_sub n limit ≡ n - limit
excess n limit hn hl h = ground arith

drop-nil {ℓ} : {A : Type ℓ} (n : ℕ) → drop {A = A} n [] ≡ []
drop-nil zero = refl
drop-nil (suc n) = refl

module _ {S : Type 0} (db : Database S) (laws : TrimLaws db) where
  open laws use {open_key, entries, new_key_ok}

  -- The map `b` of `c` has lost its first `n` entries, and no other map has changed.
  abbrev pub Dropped : String → String → ℕ → S → S → Type 0
  Dropped c b n s s' =
      (d a : String)
      → entries s' d a
        ≡ (if str_eq d c && str_eq a b then drop n (entries s c b) else entries s d a)

  same-Dropped :
      (c b : String) (n : ℕ) (s s' : S)
      → s' ≡ s
      → drop n (entries s c b) ≡ entries s c b
      → Dropped c b n s s'
  same-Dropped c b n s s' same kept d a =
      rw (same, kept)
        (ground (arith, eq_iff d c, eq_iff a b, λ (p : d ≡ c) (q : a ≡ b). ap₂ (entries s) p q))

  removed :
      (c b : String) (g n : ℕ) (s s' : S)
      → remove_oldest db (open_key c) b g n s ≡ (ok tt, s')
      → Dropped c b n s s'
  unfolding remove_oldest
  removed c b g n s s' h =
      let operation = map_remove_by_index_range_count b 0 n in
      let m = db.operate (remove_policy g) (open_key c) operation in
      elim (catch-ok (m >> return tt) _ s tt s' h) [
        | inl done ↦
            let (r, s₁, is, rest) = >>=-ok m (λ _. return tt) s tt s' done in
            laws.remove-ok c b g n s s' r
              (is ∙ ap (λ (o : Result (Unit {0}) × S). (ok r, o.1)) rest)
        | inr (e, s₁, is, thrown) ↦
            absurd (throws-not_ok (matches e generation_error) _ _ s₁ tt s' thrown)
      ]

  unchanged : {s s' : S} → ◌≡◌ {A = Result (Unit {0}) × S} (ok tt, s) (ok tt, s') → s' ≡ s
  unchanged {s} {s'} h = (return-ok tt tt s s' h).1

  -- What the first step found: no map, or a map and its size.
  abbrev Sized : String → String → S → Option Record → Type 0
  Sized c b s none = entries s c b ≡ []
  Sized c b s (some r) =
      (bin b r.bins ≡ some (scalar (int (length (entries s c b)))))
      ⊎ ((bin b r.bins ≡ some (scalar nil)) × (entries s c b ≡ []))

  not_found :
      (c b : String) (s s₁ s' : S) (e : Error) (sized : Option Record)
      → db.operate size_policy (open_key c) (map_size b) s ≡ (err e, s₁)
      → (if matches e key_not_found_error then return none else throw (wrapped e)) s₁
        ≡ (ok sized, s')
      → (s' ≡ s) × Sized c b s sized
  not_found c b s s₁ s' e sized is handled = elim (Bool-cases (matches e key_not_found_error)) [
    | inl missing ↦
        let (as_before, empty) = laws.size-not_found c b s s₁ e is missing in
        let (kept, same) = return-ok none sized s₁ s' (rw missing at handled) in
        (same ∙ as_before, subst (Sized c b s) kept empty)
    | inr failing ↦ absurd (throw-not_ok (wrapped e) s₁ sized s' (rw failing at handled))
  ]

  read_size-Sized :
      (c b : String) (s s' : S) (sized : Option Record)
      → read_size db (open_key c) b s ≡ (ok sized, s')
      → (s' ≡ s) × Sized c b s sized
  unfolding read_size
  read_size-Sized c b s s' sized h =
      let m = db.operate size_policy (open_key c) (map_size b) in
      elim (catch-ok (m >>= λ r. return (some r)) _ s sized s' h) [
        | inl done ↦
            let (r, s₁, is, rest) = >>=-ok m (λ r. return (some r)) s sized s' done in
            let (kept, same) = return-ok (some r) sized s₁ s' rest in
            let (as_before, found) = laws.size-ok c b s s₁ r is in
            (same ∙ as_before, subst (Sized c b s) kept found)
        | inr (e, s₁, is, handled) ↦
            not_found c b s s₁ s' e sized (return-err m some s e s₁ is) handled
      ]

  empty-Dropped :
      (c b : String) (n : ℕ) (s s' : S) → s' ≡ s → entries s c b ≡ [] → Dropped c b n s s'
  empty-Dropped c b n s s' same none_there =
      same-Dropped c b n s s' same (rw none_there (drop-nil n))

  trimmed :
      (c b : String) (limit g : ℕ) (s s' : S)
      → limit < 2 ^ 63
      → length (entries s c b) < 2 ^ 63
      → trim db (open_key c) b limit g (some (scalar (int (length (entries s c b))))) s
        ≡ (ok tt, s')
      → Dropped c b (length (entries s c b) - limit) s s'
  unfolding trim
  trimmed c b limit g s s' small few h =
      let n = length (entries s c b) in
      elim (Bool-cases (int64_nonpositive (int64_sub n limit))) [
        | inl within ↦
            same-Dropped c b (n - limit) s s' (unchanged (rw within at h))
              (rw (no_excess n limit few small within) refl)
        | inr over ↦ removed c b g (n - limit) s s' (rw (over, excess n limit few small over) at h)
      ]

  by_size :
      (c b : String) (limit : ℕ) (s s' : S) (sized : Option Record)
      → limit < 2 ^ 63
      → length (entries s c b) < 2 ^ 63
      → Sized c b s sized
      → trim_record db (open_key c) b limit sized s ≡ (ok tt, s')
      → Dropped c b (length (entries s c b) - limit) s s'
  unfolding trim_record
  by_size c b limit s s' none small few found h = empty-Dropped c b _ s s' (unchanged h) found
  by_size c b limit s s' (some r) small few (inl found) h =
      trimmed c b limit r.generation s s' small few (rw found at h)
  by_size c b limit s s' (some r) small few (inr (found, empty)) h =
      empty-Dropped c b _ s s' (unchanged (rw found at h)) empty

  -- `RemoveOverLimit`, when it succeeds, has removed from the map of the cookie and the action the
  -- oldest tags, as many as there are over the limit, and changed no other map. It leaves a map of
  -- at most `limit` tags, the newest ones, also where there was no such record or bin.
  pub remove_over_limit-Dropped :
      (cookie : String) (action limit : ℕ) (s s' : S)
      → IsAction action
      → limit < 2 ^ 63
      → length (entries s cookie (action_bin action)) < 2 ^ 63
      → remove_over_limit db cookie action limit s ≡ (ok tt, s')
      → Dropped cookie
          (action_bin action)
          (length (entries s cookie (action_bin action)) - limit)
          s
          s'
  unfolding remove_over_limit
  remove_over_limit-Dropped cookie action limit s s' known small few h =
      let key = open_key cookie in
      let b = action_bin action in
      let (sized, s₁, read, rest) =
        >>=-ok (read_size db key b) (trim_record db key b limit) s tt s'
          (rw (new_key_ok cookie, action_to_bin-action_bin action known) at h) in
      let (same, found) = read_size-Sized cookie b s s₁ sized read in
      by_size cookie b limit s s' sized small few found (rw same at rest)

-- ===== src/Db/Profiles/Stored.antt =====
-- What a profile holds, as src/pkg/db/user_profiles.go stores it: a map from milliseconds to tags.
use allezon.Base.{
  ℕ, ◌≡◌, ◌⊎◌, inl, inr, Bool-cases, refl, String, Bool, true, false, ◌&&◌, none, some, List, [],
  ◌∷◌, map, Error, ok, err, matches, is as is_error, key_not_found, key_not_found_error, ℤ, eq_ℤ,
  ltb_ℤ, int64_pattern, arith, str_eq, length, if◌then◌else◌,
}
use allezon.Time.{unix_milli}
use allezon.Types.{UserTag}
use allezon.Types.Marshal.{Protobuf, unmarshal_user_tag}
use allezon.Db.Aerospike.{Database, Record, Scalar, scalar, int, blob, pairs, bin, map_put}
use allezon.Db.Profiles.{user_profiles_views_bin, user_profiles_buys_bin}
use allezon.Db.Profiles.Client.{add_policy}
use allezon.Db.Profiles.Trimming.{TrimLaws}

abbrev pub Entries : Type 0
Entries = List (ℤ × List ℕ)

-- A put in a map that is ordered by its keys: an entry with the key is replaced.
unfoldable pub insert_entry : ℤ → List ℕ → Entries → Entries
insert_entry k v [] = (k, v) ∷ []
insert_entry k v ((j, w) ∷ entries) =
    if eq_ℤ k j
    then (k, v) ∷ entries
    else if ltb_ℤ k j
    then (k, v) ∷ (j, w) ∷ entries
    else (j, w) ∷ insert_entry k v entries

abbrev pub as_pair : ℤ × List ℕ → Scalar × Scalar
as_pair (k, v) = (int (int64_pattern k), blob v)

-- What the database documents of `Get` and of the put; the entries are those of `TrimLaws`.
pub record ProfileLaws {S : Type 0} (db : Database S) : Type 0 where
  pub trim : TrimLaws db
  -- the bins that are asked for, and no bin where there is no map
  pub get-ok :
      (c b : String) (s : S) (r : Record)
      → (b ≡ user_profiles_views_bin) ⊎ (b ≡ user_profiles_buys_bin)
      → db.get (trim.open_key c) (user_profiles_views_bin ∷ user_profiles_buys_bin ∷ []) s ≡ ok r
      → (bin b r.bins ≡ some (pairs (map as_pair (trim.entries s c b))))
        ⊎ ((bin b r.bins ≡ none) × (trim.entries s c b ≡ []))
  pub get-missing :
      (c b : String) (s : S) (e : Error)
      → db.get (trim.open_key c) (user_profiles_views_bin ∷ user_profiles_buys_bin ∷ []) s ≡ err e
      → matches e key_not_found_error ≡ true
      → trim.entries s c b ≡ []
  -- its errors are its own
  pub get-err :
      (c : String) (s : S) (e : Error)
      → db.get (trim.open_key c) (user_profiles_views_bin ∷ user_profiles_buys_bin ∷ []) s ≡ err e
      → is_error e key_not_found ≡ false
  pub put-ok :
      (c b : String) (k : ℤ) (v : List ℕ) (s s' : S) (r : Record)
      → db.operate add_policy (trim.open_key c) (map_put b k v) s ≡ (ok r, s')
      → (d a : String)
      → trim.entries s' d a ≡ (
          if str_eq d c && str_eq a b
          then insert_entry k v (trim.entries s c b)
          else trim.entries s d a)
  -- its result is the new size
  pub put-size :
      (c b : String) (k : ℤ) (v : List ℕ) (s s' : S) (r : Record)
      → db.operate add_policy (trim.open_key c) (map_put b k v) s ≡ (ok r, s')
      → bin b r.bins ≡ some (scalar (int (length (trim.entries s' c b))))

-- The abstract profile: tags in the order of their milliseconds, one for each.
unfoldable pub insert_tag : UserTag → List UserTag → List UserTag
insert_tag tag [] = tag ∷ []
insert_tag tag (t ∷ tags) =
    if eq_ℤ (unix_milli tag.time) (unix_milli t.time)
    then tag ∷ tags
    else if ltb_ℤ (unix_milli tag.time) (unix_milli t.time)
    then tag ∷ t ∷ tags
    else t ∷ insert_tag tag tags

unfoldable pub IsBefore : UserTag → List UserTag → Type 0
IsBefore tag [] = Unit
IsBefore tag (t ∷ tags) = ltb_ℤ (unix_milli tag.time) (unix_milli t.time) ≡ true

-- Strictly ascending by milliseconds
unfoldable pub IsAscending : List UserTag → Type 0
unfolding IsBefore
IsAscending [] = Unit
IsAscending (tag ∷ tags) = IsBefore tag tags × IsAscending tags

module _ (p : Protobuf) where
  -- The entries are the tags, each under its milliseconds.
  unfoldable pub Encodes : Entries → List UserTag → Type 0
  Encodes [] [] = Unit
  Encodes ((k, v) ∷ entries) (tag ∷ tags) =
      (k ≡ unix_milli tag.time) × (unmarshal_user_tag p v ≡ ok tag) × Encodes entries tags
  Encodes _ _ = ⊥

  pub Encodes-insert :
      (k : ℤ) (v : List ℕ) (tag : UserTag) (entries : Entries) (tags : List UserTag)
      → k ≡ unix_milli tag.time
      → unmarshal_user_tag p v ≡ ok tag
      → Encodes entries tags
      → Encodes (insert_entry k v entries) (insert_tag tag tags)
  unfolding Encodes insert_entry insert_tag
  Encodes-insert k v tag [] [] at is h = (at, is, tt)
  Encodes-insert k v tag [] (t ∷ tags) at is h = absurd h
  Encodes-insert k v tag (e ∷ entries) [] at is h = absurd h
  Encodes-insert k v tag ((j, w) ∷ entries) (t ∷ tags) at is (first, second, rest) =
      rw (at, first)
        (elim (Bool-cases (eq_ℤ (unix_milli tag.time) (unix_milli t.time))) [
          | inl same ↦ rw same (refl, is, rest)
          | inr other ↦ elim (Bool-cases (ltb_ℤ (unix_milli tag.time) (unix_milli t.time))) [
            | inl lower ↦ rw (other, lower) (refl, is, (refl, second, rest))
            | inr above ↦
                rw (other, above) (refl, second, Encodes-insert k v tag entries tags at is rest)
          ]
        ])

order : (t a u : ℤ) → eq_ℤ a t ≡ true → ltb_ℤ t u ≡ true → ltb_ℤ a u ≡ true
order t a u h k = ground arith

above_lem : (a t : ℤ) → eq_ℤ a t ≡ false → ltb_ℤ a t ≡ false → ltb_ℤ t a ≡ true
above_lem a t h k = ground arith

choice :
    {A : Type 0} (P : A → Type 0) (b c : Bool) (x y z : A)
    → P x
    → P y
    → P z
    → P (if b then x else if c then y else z)
choice P true c x y z px py pz = px
choice P false true x y z px py pz = py
choice P false false x y z px py pz = pz

insert_tag-IsBefore :
    (t tag : UserTag) (tags : List UserTag)
    → IsBefore t tags
    → ltb_ℤ (unix_milli t.time) (unix_milli tag.time) ≡ true
    → IsBefore t (insert_tag tag tags)
unfolding IsBefore insert_tag
insert_tag-IsBefore t tag [] h k = k
insert_tag-IsBefore t tag (u ∷ tags) h k =
    choice (IsBefore t) (eq_ℤ (unix_milli tag.time) (unix_milli u.time))
      (ltb_ℤ (unix_milli tag.time) (unix_milli u.time)) (tag ∷ tags) (tag ∷ u ∷ tags)
      (u ∷ insert_tag tag tags) k k h

same-IsBefore :
    (t tag : UserTag) (tags : List UserTag)
    → IsBefore t tags
    → eq_ℤ (unix_milli tag.time) (unix_milli t.time) ≡ true
    → IsBefore tag tags
unfolding IsBefore
same-IsBefore t tag [] h k = tt
same-IsBefore t tag (u ∷ tags) h k =
    order (unix_milli t.time) (unix_milli tag.time) (unix_milli u.time) k h

-- A put keeps the order.
pub insert_tag-IsAscending :
    (tag : UserTag) (tags : List UserTag) → IsAscending tags → IsAscending (insert_tag tag tags)
unfolding IsAscending IsBefore insert_tag
insert_tag-IsAscending tag [] h = (tt, tt)
insert_tag-IsAscending tag (t ∷ tags) h =
    elim (Bool-cases (eq_ℤ (unix_milli tag.time) (unix_milli t.time))) [
      | inl same ↦ rw same (same-IsBefore t tag tags h.0 same, h.1)
      | inr other ↦ elim (Bool-cases (ltb_ℤ (unix_milli tag.time) (unix_milli t.time))) [
        | inl lower ↦ rw (other, lower) (lower, (h.0, h.1))
        | inr above ↦
            let after = above_lem (unix_milli tag.time) (unix_milli t.time) other above in
            rw (other, above)
              (insert_tag-IsBefore t tag tags h.0 after, insert_tag-IsAscending tag tags h.1)
      ]
    ]

-- ===== src/Db/Profiles/Storing.antt =====
-- The client of profiles of src/pkg/db/user_profiles.go beside an abstract store: a list of tags for
-- each cookie and action.
use allezon.Base.{
  ℕ, zero, suc, ◌-◌, ◌^◌, ◌<◌, ◌≡◌, inl, inr, refl, sym, ap, subst, ◌∙◌, String, ◌&&◌, some, List,
  [], ◌∷◌, ok, str_eq, length, drop, ◌==◌, if◌then◌else◌, Bool-cases,
}
use allezon.Base.Exec.{lift, wrapping, wrapping-ok, >>=-ok, lift-ok}
use allezon.Time.{unix_milli}
use allezon.Types.{Action, UserTag, IsUserTag}
use allezon.Types.Marshal.{Protobuf, ProtobufLaws}
use allezon.Types.Roundtrip.{IsAction, stored, unmarshal-marshal_iff, stored-unmarshal}
use allezon.Db.Aerospike.{Database, scalar, int, bin, map_put}
use allezon.Db.Profiles.Client.{add_policy, int_of, add, remove_over_limit}
use allezon.Db.Profiles.Trimming.{action_bin, action_to_bin-action_bin, remove_over_limit-Dropped}
use allezon.Db.Profiles.Stored.{
  Entries, insert_entry, ProfileLaws, insert_tag, Encodes, Encodes-insert,
}

-- The abstract store, and its operations
abbrev pub Profiles : Type 0
Profiles = String → Action → List UserTag

abbrev pub at : String → Action → List UserTag → Profiles → Profiles
at c a tags f d b = if str_eq d c && b == a then tags else f d b

-- A tag is inserted as the codec gives it back, its product id cut to an int32.
unfoldable pub store_tag : UserTag → Profiles → Profiles
store_tag tag f = at tag.cookie tag.action (insert_tag (stored tag) (f tag.cookie tag.action)) f

unfoldable pub keep_newest : String → Action → ℕ → Profiles → Profiles
keep_newest c a limit f = at c a (drop (length (f c a) - limit) (f c a)) f

action_bin-eq :
    (a b : ℕ) → IsAction a → IsAction b → str_eq (action_bin a) (action_bin b) ≡ (a == b)
action_bin-eq a b (inl p) (inl q) = rw (p, q)
action_bin-eq a b (inl p) (inr q) = rw (p, q)
action_bin-eq a b (inr p) (inl q) = rw (p, q)
action_bin-eq a b (inr p) (inr q) = rw (p, q)

module _ {S : Type 0} (p : Protobuf) (db : Database S) (laws : ProfileLaws db) where
  abbrev pub entries_of : S → String → Action → Entries
  entries_of s c a = laws.trim.entries s c (action_bin a)

  -- The database holds the abstract store.
  unfoldable pub Represents : S → Profiles → Type 0
  Represents s f = (c : String) (a : Action) → IsAction a → Encodes p (entries_of s c a) (f c a)

  pub represented :
      (s : S) (f : Profiles) (c : String) (a : Action)
      → IsAction a
      → Represents s f
      → Encodes p (entries_of s c a) (f c a)
  unfolding Represents
  represented s f c a known holds = holds c a known

  -- A change of one map is that change of the abstract store.
  Represents-at :
      (c : String) (a : Action) (changed : Entries) (tags : List UserTag) (f : Profiles) (s s' : S)
      → IsAction a
      → Represents s f
      → Encodes p changed tags
      → ((d b : String)
          → laws.trim.entries s' d b
            ≡ (if str_eq d c && str_eq b (action_bin a) then changed else laws.trim.entries s d b))
      → Represents s' (at c a tags f)
  unfolding Represents
  Represents-at c a changed tags f s s' known holds new updates d b known' =
      rw (updates d (action_bin b), action_bin-eq b a known' known)
        (elim (Bool-cases (str_eq d c && b == a)) [
          | inl here ↦ rw here new
          | inr elsewhere ↦ rw elsewhere (holds d b known')
        ])

  Encodes-length :
      (entries : Entries) (tags : List UserTag)
      → Encodes p entries tags
      → length entries ≡ length tags
  unfolding Encodes
  Encodes-length [] [] h = refl
  Encodes-length [] (t ∷ tags) h = absurd h
  Encodes-length (e ∷ entries) [] h = absurd h
  Encodes-length ((k, v) ∷ entries) (t ∷ tags) h = ap suc (Encodes-length entries tags h.2)

  Encodes-drop :
      (n : ℕ) (entries : Entries) (tags : List UserTag)
      → Encodes p entries tags
      → Encodes p (drop n entries) (drop n tags)
  unfolding Encodes
  Encodes-drop zero entries tags h = h
  Encodes-drop (suc n) [] [] h = tt
  Encodes-drop (suc n) [] (t ∷ tags) h = absurd h
  Encodes-drop (suc n) (e ∷ entries) [] h = absurd h
  Encodes-drop (suc n) ((k, v) ∷ entries) (t ∷ tags) h = Encodes-drop n entries tags h.2

  int_of-ok : (n m : ℕ) → int_of (some (scalar (int n))) ≡ ok m → m ≡ n
  int_of-ok n m h = cc

  module _ (protobuf : ProtobufLaws p) where
    pub add-Represents :
        (tag : UserTag) (n : ℕ) (f : Profiles) (s s' : S)
        → IsUserTag tag
        → IsAction tag.action
        → Represents s f
        → add p db tag s ≡ (ok n, s')
        → Represents s' (store_tag tag f) × (n ≡ length (store_tag tag f tag.cookie tag.action))
    unfolding add store_tag
    add-Represents tag n f s s' valid known holds h =
        let (bytes, written, back) = unmarshal-marshal_iff p protobuf tag valid known in
        let c = tag.cookie in
        let b = action_bin tag.action in
        let put =
          db.operate add_policy (laws.trim.open_key c) (map_put b (unix_milli tag.time) bytes) in
        let (r, s₁, done, rest) =
          >>=-ok (wrapping put) (λ r. lift (int_of (bin b r.bins))) s n s'
            (rw (laws.trim.new_key_ok c, written, action_to_bin-action_bin tag.action known) at
              h) in
        let (value, same) = lift-ok (int_of (bin b r.bins)) s₁ n s' rest in
        let performed = wrapping-ok put s r s₁ done in
        let new =
          Encodes-insert p (unix_milli tag.time) bytes (stored tag) (entries_of s c tag.action)
            (f c tag.action) refl (stored-unmarshal p protobuf tag bytes valid known written)
            (represented s f c tag.action known holds) in
        let held =
          Represents-at c tag.action
            (insert_entry (unix_milli tag.time) bytes (entries_of s c tag.action))
            (insert_tag (stored tag) (f c tag.action)) f s s₁ known holds new
            (laws.put-ok c b (unix_milli tag.time) bytes s s₁ r performed) in
        let size = laws.put-size c b (unix_milli tag.time) bytes s s₁ r performed in
        let counted = int_of-ok (length (entries_of s₁ c tag.action)) n (rw size at value) in
        (
          subst (λ t. Represents t (store_tag tag f)) (sym same) held,
          counted
              ∙ Encodes-length _ (store_tag tag f c tag.action)
                  (represented s₁ (store_tag tag f) c tag.action known held),
        )

  pub remove_over_limit-Represents :
      (c : String) (a limit : ℕ) (f : Profiles) (s s' : S)
      → IsAction a
      → limit < 2 ^ 63
      → length (f c a) < 2 ^ 63
      → Represents s f
      → remove_over_limit db c a limit s ≡ (ok tt, s')
      → Represents s' (keep_newest c a limit f)
  unfolding keep_newest
  remove_over_limit-Represents c a limit f s s' known small few holds h =
      let b = action_bin a in
      let same = Encodes-length (entries_of s c a) (f c a) (represented s f c a known holds) in
      let dropped =
        remove_over_limit-Dropped db laws.trim c a limit s s' known small (rw same few) h in
      Represents-at c a (drop (length (entries_of s c a) - limit) (entries_of s c a))
        (drop (length (f c a) - limit) (f c a)) f s s' known holds
        (rw same (
          Encodes-drop (length (f c a) - limit) (entries_of s c a) (f c a)
            (represented s f c a known holds)))
        dropped

-- ===== src/Db/Profiles/History.antt =====
-- Requests to the client of profiles, one after the other, beside the abstract store.
use allezon.Base.{
  ℕ, zero, suc, sym, subst, ◌-◌, ◌^◌, ◌<◌, ◌≡◌, String, List, [], ◌∷◌, ok, length, drop, ◌==◌, ◌&&◌,
  str_eq, Bool-cases, inl, inr,
}
use allezon.Base.Exec.{Exec, ◌>>=◌, ◌>>◌, return, >>=-ok, return-ok}
use allezon.Types.{Action, UserTag, IsUserTag}
use allezon.Types.Marshal.{Protobuf, ProtobufLaws}
use allezon.Types.Roundtrip.{IsAction, stored}
use allezon.Db.Aerospike.{Database}
use allezon.Db.Profiles.Client.{add, remove_over_limit}
use allezon.Db.Profiles.Stored.{ProfileLaws, insert_tag, IsAscending, insert_tag-IsAscending}
use allezon.Db.Profiles.Storing.{
  Profiles, at, store_tag, keep_newest, Represents, add-Represents, remove_over_limit-Represents,
}

pub data Request : Type 0 where
  put : UserTag → Request
  trim : String → Action → ℕ → Request

module _ {S : Type 0} (p : Protobuf) (db : Database S) where
  unfoldable pub perform : List Request → Exec S (Unit {0})
  perform [] = return tt
  perform (put tag ∷ requests) = add p db tag >>= λ n. perform requests
  perform (trim c a limit ∷ requests) = remove_over_limit db c a limit >> perform requests

unfoldable pub change : Request → Profiles → Profiles
change (put tag) f = store_tag tag f
change (trim c a limit) f = keep_newest c a limit f

unfoldable pub changed : List Request → Profiles → Profiles
changed [] f = f
changed (request ∷ requests) f = changed requests (change request f)

-- A tag as the service makes it; a profile and a limit that a machine's integer holds.
unfoldable pub IsAllowed : Request → Profiles → Type 0
IsAllowed (put tag) f = IsUserTag tag × IsAction tag.action
IsAllowed (trim c a limit) f = IsAction a × (limit < 2 ^ 63) × (length (f c a) < 2 ^ 63)

unfoldable pub AreAllowed : List Request → Profiles → Type 0
AreAllowed [] f = Unit
AreAllowed (request ∷ requests) f = IsAllowed request f × AreAllowed requests (change request f)

drop-IsAscending : (n : ℕ) (tags : List UserTag) → IsAscending tags → IsAscending (drop n tags)
unfolding IsAscending
drop-IsAscending zero tags h = h
drop-IsAscending (suc n) [] h = tt
drop-IsAscending (suc n) (t ∷ tags) h = drop-IsAscending n tags h.1

unfoldable pub AreAscending : Profiles → Type 0
AreAscending f = (c : String) (a : Action) → IsAscending (f c a)

at-AreAscending :
    (c : String) (a : Action) (tags : List UserTag) (f : Profiles)
    → IsAscending tags
    → AreAscending f
    → AreAscending (at c a tags f)
unfolding AreAscending
at-AreAscending c a tags f h k d b = elim (Bool-cases (str_eq d c && b == a)) [
  | inl here ↦ rw here h
  | inr elsewhere ↦ rw elsewhere (k d b)
]

changed-AreAscending :
    (requests : List Request) (f : Profiles) → AreAscending f → AreAscending (changed requests f)
unfolding changed change store_tag keep_newest AreAscending
changed-AreAscending [] f h = h
changed-AreAscending (put tag ∷ requests) f h =
    let c = tag.cookie in
    changed-AreAscending requests (store_tag tag f) (
      at-AreAscending c tag.action (insert_tag (stored tag) (f c tag.action)) f
        (insert_tag-IsAscending (stored tag) (f c tag.action) (h c tag.action)) h)
changed-AreAscending (trim c a limit ∷ requests) f h =
    changed-AreAscending requests (keep_newest c a limit f) (
      at-AreAscending c a (drop (length (f c a) - limit) (f c a)) f
        (drop-IsAscending (length (f c a) - limit) (f c a) (h c a)) h)

module _ {S : Type 0} (p : Protobuf) (db : Database S) (laws : ProfileLaws db)
    (protobuf : ProtobufLaws p) where
  performed :
      (requests : List Request) (f : Profiles) (s s' : S)
      → AreAllowed requests f
      → Represents p db laws s f
      → perform p db requests s ≡ (ok tt, s')
      → Represents p db laws s' (changed requests f)
  unfolding perform changed change IsAllowed AreAllowed
  performed [] f s s' allowed holds h =
      let (_, same) = return-ok tt tt s s' h in
      subst (λ t. Represents p db laws t f) (sym same) holds
  performed (put tag ∷ requests) f s s' (allowed, rest) holds h =
      let (n, s₁, first, others) = >>=-ok (add p db tag) (λ n. perform p db requests) s tt s' h in
      let (held, _) =
        add-Represents p db laws protobuf tag n f s s₁ allowed.0 allowed.1 holds first in
      performed requests (store_tag tag f) s₁ s' rest held others
  performed (trim c a limit ∷ requests) f s s' (allowed, rest) holds h =
      let (u, s₁, first, others) =
        >>=-ok (remove_over_limit db c a limit) (λ u. perform p db requests) s tt s' h in
      let held =
        remove_over_limit-Represents p db laws c a limit f s s₁ allowed.0 allowed.1 allowed.2 holds
          first in
      performed requests (keep_newest c a limit f) s₁ s' rest held others

  -- If the database holds an abstract store whose profiles ascend strictly by milliseconds, then
  -- after requests that succeed, each put of a valid tag with a known action and each trim within a
  -- machine's integers, it holds the abstract store changed by them: a put inserts the tag by its
  -- milliseconds, its product id cut to an int32 and sign-extended, in the place of one with the
  -- same, and a trim keeps the newest. Its profiles ascend strictly too.
  pub perform-Represents :
      (requests : List Request) (f : Profiles) (s s' : S)
      → AreAllowed requests f
      → Represents p db laws s f
      → AreAscending f
      → perform p db requests s ≡ (ok tt, s')
      → Represents p db laws s' (changed requests f) × AreAscending (changed requests f)
  perform-Represents requests f s s' allowed holds ascending h =
      (performed requests f s s' allowed holds h, changed-AreAscending requests f ascending)

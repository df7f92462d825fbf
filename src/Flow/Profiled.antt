-- ===== src/Flow/Profiled.antt =====
-- Requests of src/cmd/api/server about one store of profiles: tags that userTags.go takes, the cleanups
-- that it starts, and the profiles that userProfiles.go then answers with.
use allezon.Base.{ℕ, Bool, ◌≡◌, ap, String, List, [], ◌∷◌, ok}
use allezon.Time.{Time}
use allezon.Types.{UserTag, Action}
use allezon.Types.Marshal.{Protobuf, ProtobufLaws}
use allezon.Db.{UserProfileClient}
use allezon.Db.Aerospike.{Database}
use allezon.Db.Profiles.Client.{user_profiles as profiles_client}
use allezon.Db.Profiles.Stored.{ProfileLaws}
use allezon.Db.Profiles.Storing.{
  Profiles, Represents, store_tag, keep_newest, remove_over_limit-Represents,
}
use allezon.Db.Profiles.History.{Request, put, trim, change, changed, IsAllowed, AreAllowed}
use allezon.Dto.{UserTagDto, UserProfileDto, from_user_tag_dto}
use allezon.Http.{status, status_no_content}
use allezon.Api.{Server}
use allezon.Api.Profiles.{user_profiles}
use allezon.Api.Profiles.Served.{profile_shown, user_profiles-Represents}
use allezon.Api.UserTags.{Cleanup, user_tag_limit, user_tags_handler}
use allezon.Api.UserTags.Kept.{user_tags_handler-Represents}

module _ {S : Type 0} (server : Server S) where
  -- What happens to the store: a tag is answered with 204, or a run of a cleanup succeeds.
  pub data Visits : S → S → List Request → Type 0 where
    ended : (s : S) → Visits s s []
    posted :
        (add_first : Bool) (req : UserTagDto) (tag : UserTag) (c : Cleanup) (s s₁ s' : S)
        (later : List Request)
        → from_user_tag_dto server.time_text req ≡ ok tag
        → user_tags_handler server add_first (ok req) s ≡ (ok (status status_no_content, c), s₁)
        → Visits s₁ s' later
        → Visits s s' (put tag ∷ later)
    cleaned :
        (cookie : String) (a : Action) (s s₁ s' : S) (later : List Request)
        → server.profiles_db.user_profiles.remove_over_limit cookie a user_tag_limit s ≡ (ok tt, s₁)
        → Visits s₁ s' later
        → Visits s s' (trim cookie a user_tag_limit ∷ later)

module _ {S : Type 0} (server : Server S) (p : Protobuf) (db : Database S) (laws : ProfileLaws db)
    (protobuf : ProtobufLaws p) (client : server.profiles_db.user_profiles ≡ profiles_client p db)
    (send-keeps : (tag : UserTag) (s : S)
      → laws.trim.entries (server.send tag s).1 ≡ laws.trim.entries s) where
  Visits-Represents :
      (requests : List Request) (f : Profiles) (s s' : S)
      → AreAllowed requests f
      → Represents p db laws s f
      → Visits server s s' requests
      → Represents p db laws s' (changed requests f)
  unfolding AreAllowed IsAllowed changed change profiles_client
  Visits-Represents [] f s s' allowed holds (ended _) = holds
  Visits-Represents (put tag ∷ requests) f s s' (allowed, rest) holds
        (posted add_first req _ c _ s₁ _ _ decoded h more) =
      let (held, cleanup) =
        user_tags_handler-Represents server p db laws protobuf
          (λ tag. ap (λ (cl : UserProfileClient S). cl.add tag) client) send-keeps add_first req tag
          c f s s₁ decoded allowed.0 allowed.1 holds h in
      Visits-Represents requests (store_tag tag f) s₁ s' rest held more
  Visits-Represents (trim cookie a limit ∷ requests) f s s' (allowed, rest) holds
        (cleaned _ _ _ s₁ _ _ h more) =
      let held =
        remove_over_limit-Represents p db laws cookie a limit f s s₁ allowed.0 allowed.1 allowed.2
          holds (rw client at h) in
      Visits-Represents requests (keep_newest cookie a limit f) s₁ s' rest held more

  -- On a server whose client of profiles is that of a database that holds an abstract store, and
  -- whose producer leaves the profiles as they are, after tags that are answered with 204 and
  -- cleanups that succeed, in any order, an answer to a request for a profile shows, for each
  -- action, from the newest on, the tags in the range, cut to the limit, of the abstract store in
  -- which each tag, as the codec gives it back, its product id cut to an int32 and sign-extended,
  -- was inserted by its milliseconds, and each cleanup kept the newest of a profile; tags and
  -- profile sizes are in range.
  pub Visits-answered :
      (requests : List Request) (f : Profiles) (cookie : String) (from to : Time) (limit : ℕ)
      (answer : UserProfileDto) (s s' s'' : S)
      → AreAllowed requests f
      → Represents p db laws s f
      → Visits server s s' requests
      → user_profiles server cookie from to limit s' ≡ (ok answer, s'')
      → answer ≡ profile_shown server (changed requests f) cookie from to limit
  unfolding profiles_client
  Visits-answered requests f cookie from to limit answer s s' s'' allowed holds visits h =
      (user_profiles-Represents server p db laws cookie from to limit (changed requests f) answer s'
        s'' (ap (λ (cl : UserProfileClient S). cl.get cookie) client)
        (Visits-Represents requests f s s' allowed holds visits) h).1

-- ===== src/Api/UserTags/Kept.antt =====
-- What a tag that src/cmd/api/server/userTags.go answers with 204 does to the abstract store of profiles.
use allezon.Base.{ℕ, ◌≡◌, sym, ap, ◌∙◌, subst, Bool, true, false, ok, length}
use allezon.Types.{UserTag, IsUserTag}
use allezon.Types.Marshal.{Protobuf, ProtobufLaws}
use allezon.Types.Roundtrip.{IsAction}
use allezon.Db.Aerospike.{Database}
use allezon.Db.Profiles.Client.{add}
use allezon.Db.Profiles.Stored.{ProfileLaws, Entries, Encodes}
use allezon.Db.Profiles.Trimming.{action_bin}
use allezon.Db.Profiles.Storing.{Profiles, Represents, store_tag, add-Represents}
use allezon.Dto.{UserTagDto, from_user_tag_dto}
use allezon.Http.{status, status_no_content}
use allezon.Api.{Server}
use allezon.Api.UserTags.{Cleanup, user_tags_handler}
use allezon.Api.UserTags.Handled.{Added, Sent, BothDone, cleanup_for, user_tags_handler_iff}

module _ {S : Type 0} (server : Server S) (p : Protobuf) (db : Database S) (laws : ProfileLaws db)
    (protobuf : ProtobufLaws p) where
  Represents-same :
      (f : Profiles) (s s' : S)
      → laws.trim.entries s' ≡ laws.trim.entries s
      → Represents p db laws s f
      → Represents p db laws s' f
  unfolding Represents
  Represents-same f s s' same h c a known =
      subst (λ (entries : Entries). Encodes p entries (f c a))
        (sym (ap (λ t. t c (action_bin a)) same)) (h c a known)

  module _ (client : (tag : UserTag) → server.profiles_db.user_profiles.add tag ≡ add p db tag)
      (send-keeps : (tag : UserTag) (s : S)
        → laws.trim.entries (server.send tag s).1 ≡ laws.trim.entries s) where
    Sent-keeps :
        (tag : UserTag) (s s' : S)
        → Sent server tag s s'
        → laws.trim.entries s' ≡ laws.trim.entries s
    unfolding Sent
    Sent-keeps tag s s' h = ap (λ o. laws.trim.entries o.1) (sym h) ∙ send-keeps tag s

    Added-Represents :
        (tag : UserTag) (n : ℕ) (f : Profiles) (s s' : S)
        → IsUserTag tag
        → IsAction tag.action
        → Represents p db laws s f
        → Added server tag n s s'
        → Represents p db laws s' (store_tag tag f)
          × (n ≡ length (store_tag tag f tag.cookie tag.action))
    unfolding Added
    Added-Represents tag n f s s' valid known holds h =
        add-Represents p db laws protobuf tag n f s s' valid known holds (rw (client tag) at h)

    both_done :
        (add_first : Bool) (tag : UserTag) (n : ℕ) (f : Profiles) (s s' : S)
        → IsUserTag tag
        → IsAction tag.action
        → Represents p db laws s f
        → BothDone server add_first tag n s s'
        → Represents p db laws s' (store_tag tag f)
          × (n ≡ length (store_tag tag f tag.cookie tag.action))
    unfolding BothDone
    both_done true tag n f s s' valid known holds (s₁, added, sent) =
        let (held, counted) = Added-Represents tag n f s s₁ valid known holds added in
        (Represents-same (store_tag tag f) s₁ s' (Sent-keeps tag s₁ s' sent) held, counted)
    both_done false tag n f s s' valid known holds (s₁, sent, added) =
        Added-Represents tag n f s₁ s' valid known
          (Represents-same f s s₁ (Sent-keeps tag s s₁ sent) holds) added

    -- On a server whose client of profiles is that of a database that holds an abstract store, and
    -- whose producer leaves the profiles as they are, a request with a valid tag that is answered
    -- with 204, whichever of the two calls is run first, leaves the abstract store with the tag
    -- inserted, its product id cut to an int32 and sign-extended, and starts a cleanup exactly when
    -- the profile then has more tags than the threshold.
    pub user_tags_handler-Represents :
        (add_first : Bool) (req : UserTagDto) (tag : UserTag) (c : Cleanup) (f : Profiles)
        (s s' : S)
        → from_user_tag_dto server.time_text req ≡ ok tag
        → IsUserTag tag
        → IsAction tag.action
        → Represents p db laws s f
        → user_tags_handler server add_first (ok req) s ≡ (ok (status status_no_content, c), s')
        → Represents p db laws s' (store_tag tag f)
          × (c ≡ cleanup_for server tag (length (store_tag tag f tag.cookie tag.action)))
    user_tags_handler-Represents add_first req tag c f s s' decoded valid known holds h =
        let (n, done, is) = (user_tags_handler_iff server add_first req tag c s s' decoded).0 h in
        let (held, counted) = both_done add_first tag n f s s' valid known holds done in
        (held, is ∙ ap (cleanup_for server tag) counted)

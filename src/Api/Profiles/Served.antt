-- ===== src/Api/Profiles/Served.antt =====
-- `userProfiles` of src/cmd/api/server/userProfiles.go over the client of profiles.
use allezon.Base.{
  ℕ, ◌≡◌, inl, inr, refl, sym, ap, ◌∙◌, String, List, [], map, reverse, ok, take, filter,
  is as is_error, key_not_found, wrapped, Bool-cases,
}
use allezon.Base.Exec.{◌>>=◌, return, catch-ok, return-ok, throw-not_ok, >>=-ok, return-err}
use allezon.Time.{Time}
use allezon.Types.{UserTag, Action, view, buy}
use allezon.Types.Marshal.{Protobuf}
use allezon.Db.Aerospike.{Database}
use allezon.Db.Profiles.Client.{get}
use allezon.Db.Profiles.Stored.{ProfileLaws}
use allezon.Db.Profiles.Storing.{Profiles, Represents}
use allezon.Db.Profiles.Reading.{profile_of, get-Represents, get-missing-Represents}
use allezon.Dto.{UserTagDto, UserProfileDto, into_user_tag_dto}
use allezon.Api.{Server}
use allezon.Api.Profiles.{in_range, profile_dto, user_profiles}
use allezon.Api.Profiles.Selected.{take_nothing, convert_tags-select}

module _ {S : Type 0} (server : Server S) where
  -- What the abstract store shows of a cookie and an action: from the newest on, the tags in the range, cut to the limit
  unfoldable pub shown : Profiles → String → Action → Time → Time → ℕ → List UserTagDto
  shown f c a from to limit =
      map (into_user_tag_dto server.time_text)
        (take limit (filter (in_range from to) (reverse (f c a))))

  unfoldable pub profile_shown : Profiles → String → Time → Time → ℕ → UserProfileDto
  profile_shown f c from to limit = record {
    cookie = c;
    views = shown f c view from to limit;
    buys = shown f c buy from to limit;
  }

  profile_dto-shown :
      (f : Profiles) (c : String) (from to : Time) (limit : ℕ)
      → profile_dto server c from to limit (profile_of f c) ≡ profile_shown f c from to limit
  unfolding profile_dto profile_shown shown
  profile_dto-shown f c from to limit =
      rw
        (
          convert_tags-select server.time_text from to limit (f c view),
          convert_tags-select server.time_text from to limit (f c buy),
        )
        refl

  empty_dto :
      (c : String) (from to : Time) (limit : ℕ)
      → record { cookie = c; views = []; buys = [] }
        ≡ profile_dto server c from to limit (record { views = []; buys = [] })
  unfolding profile_dto
  empty_dto c from to limit =
      rw (convert_tags-select server.time_text from to limit [], take_nothing {A = UserTag} limit)

  module _ (p : Protobuf) (db : Database S) (laws : ProfileLaws db) where
    -- On a server whose client of profiles is that of a database that holds an abstract store, an
    -- answer to a request for a profile shows, for each action, from the newest on, the tags of
    -- the abstract store that are in the range, cut to the limit; a cookie that is not in the
    -- database has none. The store stays as it is.
    pub user_profiles-Represents :
        (c : String) (from to : Time) (limit : ℕ) (f : Profiles) (dto : UserProfileDto) (s s' : S)
        → server.profiles_db.user_profiles.get c ≡ get p db c
        → Represents p db laws s f
        → user_profiles server c from to limit s ≡ (ok dto, s')
        → (s' ≡ s) × (dto ≡ profile_shown f c from to limit)
    unfolding user_profiles
    user_profiles-Represents c from to limit f dto s s' client holds h =
        elim (catch-ok (get p db c >>= λ res. return (profile_dto server c from to limit res)) _ s
          dto s' (rw client at h)) [
            | inl done ↦
                let (q, s₁, got, rest) =
                  >>=-ok (get p db c) (λ res. return (profile_dto server c from to limit res)) s dto
                    s' done in
                let (same, q_is) = get-Represents p db laws c q f s s₁ holds got in
                let (dto_is, as_before) =
                  return-ok (profile_dto server c from to limit q) dto s₁ s' rest in
                (
                  as_before ∙ same,
                  sym dto_is
                      ∙ ap (profile_dto server c from to limit) q_is
                      ∙ profile_dto-shown f c from to limit,
                )
            | inr (e, s₁, failing, handled) ↦ elim (Bool-cases (is_error e key_not_found)) [
              | inl missing ↦
                  let got =
                    return-err (get p db c) (profile_dto server c from to limit) s e s₁ failing in
                  let (same, q_is) =
                    get-missing-Represents p db laws c e f s s₁ holds got missing in
                  let (dto_is, as_before) =
                    return-ok (record { cookie = c; views = []; buys = [] }) dto s₁ s'
                      (rw missing at handled) in
                  (
                    as_before ∙ same,
                    sym dto_is
                        ∙ empty_dto c from to limit
                        ∙ ap (profile_dto server c from to limit) (sym q_is)
                        ∙ profile_dto-shown f c from to limit,
                  )
              | inr other ↦ absurd (throw-not_ok (wrapped e) s₁ dto s' (rw other at handled))
            ]
          ]

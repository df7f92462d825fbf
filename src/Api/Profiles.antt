-- ===== src/Api/Profiles.antt =====
-- src/cmd/api/server/userProfiles.go. A nil slice is not told from an empty one.
pub mod Selected
pub mod Served
use allezon.Base.{
  ℕ, String, Bool, true, false, ◌&&◌, Option, none, some, List, [], ◌∷◌, ◌++◌, reverse, Error,
  Result, ok, err, is, key_not_found, wrapped, length, ltb, leb_ℤ, ltb_ℤ, ◌==◌, if◌then◌else◌,
}
use allezon.Base.Exec.{Exec, ◌>>=◌, return, lift, throw, catch}
use allezon.Time.{Time, unix_milli}
use allezon.Types.{UserTag}
use allezon.Db.{UserProfile}
use allezon.Dto.{
  TimeText, UserTagDto, UserProfileDto, into_user_tag_dto, dereference,
  time_range_milli_precision_layout,
}
use allezon.Http.{
  Response, json, status_ok, status_bad_request, status_internal_server_error, or_abort,
}
use allezon.Api.{Server}
use allezon.Api.TimeRange.{parse_time_range}

-- `fromMilli <= milli && milli < toMilli`
unfoldable pub in_range : Time → Time → UserTag → Bool
in_range from to tag =
    leb_ℤ (unix_milli from) (unix_milli tag.time) && ltb_ℤ (unix_milli tag.time) (unix_milli to)

module _ (text : TimeText) where
  -- The loop over the indices from the last to the first: over the reversed tags.
  unfoldable pub select : Time → Time → ℕ → List UserTag → List UserTagDto → List UserTagDto
  select from to limit [] selected = selected
  select from to limit (tag ∷ tags) selected =
      let next = select from to limit tags (
        if in_range from to tag then selected ++ (into_user_tag_dto text tag ∷ []) else selected) in
      if ltb (length selected) limit then next else selected

  unfoldable pub convert_tags : List UserTag → Time → Time → ℕ → List UserTagDto
  unfolding select
  convert_tags tags from to limit =
      if limit == 0 then [] else select from to limit (reverse tags) []

module _ {S : Type 0} (s : Server S) where
  unfoldable pub profile_dto : String → Time → Time → ℕ → UserProfile → UserProfileDto
  profile_dto cookie from to limit res = record {
    cookie = cookie;
    views = convert_tags s.time_text res.views from to limit;
    buys = convert_tags s.time_text res.buys from to limit;
  }

  -- A profile that is not there is an empty one.
  unfoldable pub user_profiles : String → Time → Time → ℕ → Exec S UserProfileDto
  unfolding profile_dto
  user_profiles cookie from to limit =
      catch
        (do
          res ← s.profiles_db.user_profiles.get cookie
          return (profile_dto cookie from to limit res))
        (λ e.
          if is e key_not_found
          then return (record { cookie = cookie; views = []; buys = [] })
          else throw (wrapped e))

pub record UserProfilesRequest : Type 0 where
  pub time_range : String
  pub limit : Option ℕ

-- `bound` is the result of `c.BindQuery`, `cookie` the parameter of the path.
unfoldable pub user_profiles_handler :
    {S : Type 0} → Server S → Result UserProfilesRequest → String → Exec S (Response UserProfileDto)
user_profiles_handler s bound cookie = or_abort status_bad_request (lift bound) λ req.
    or_abort status_bad_request
      (lift (parse_time_range s.time_text time_range_milli_precision_layout req.time_range))
      λ range.
        (lift (dereference req.limit) >>= λ limit.
        or_abort status_internal_server_error (user_profiles s cookie range.0 range.1 limit)
          λ resp. return (json status_ok resp))

-- ===== src/Tests/Profiled.antt =====
-- A tag that is taken, a cleanup that finds nothing to remove, and the profile behind them.
use allezon.Base.{◌+◌, ◌≡◌, refl, inr, true, none, List, [], ◌∷◌, ok, arith, length}
use allezon.Time.{minute}
use allezon.Types.{buy}
use allezon.Types.Marshal.{marshal_user_tag, unmarshal_user_tag}
use allezon.Db.Profiles.{action_to_bin, decode_bin}
use allezon.Db.Profiles.Client.{add, get, remove_over_limit, user_profiles as user_profiles_client}
use allezon.Db.Profiles.Stored.{insert_entry, insert_tag}
use allezon.Db.Profiles.Storing.{store_tag}
use allezon.Db.Profiles.History.{Request, put, trim, change, changed, IsAllowed, AreAllowed}
use allezon.Dto.{UserProfileDto, from_user_tag_dto, to_device, to_action}
use allezon.Base.Decimal.{parse_uint}
use allezon.Api.Profiles.{profile_dto, user_profiles}
use allezon.Api.Profiles.Served.{profile_shown}
use allezon.Api.UserTags.{user_tag_limit, user_tags_handler, add_user_tag}
use allezon.Flow.Profiled.{Visits, ended, posted, cleaned, Visits-answered}
use allezon.Tests.Wire.{wire, wire_laws}
use allezon.Tests.Data.{sale, noon, sale_dto, sale_dto_accepted}
use allezon.Tests.Trimmed.{Store, store}
use allezon.Tests.Kept.{
  nothing, bare, fields, nothing-Represents, profile_laws, server, after_sale, taken,
}

abbrev requests : List Request
requests = put sale ∷ trim "cookie" buy user_tag_limit ∷ []

abbrev after_cleanup : Store
after_cleanup =
    (server.profiles_db.user_profiles.remove_over_limit "cookie" buy user_tag_limit after_sale).1

cleaned_up :
    server.profiles_db.user_profiles.remove_over_limit "cookie" buy user_tag_limit after_sale
    ≡ (ok tt, after_cleanup)
unfolding remove_over_limit user_profiles_client action_to_bin user_tags_handler from_user_tag_dto
    parse_uint to_device to_action add_user_tag add marshal_user_tag insert_entry
cleaned_up = refl

visits : Visits server bare after_cleanup requests
visits = posted true sale_dto sale none bare after_sale after_cleanup _ sale_dto_accepted taken (
    cleaned "cookie" buy after_sale after_cleanup after_cleanup [] cleaned_up (ended after_cleanup))

one_sale : length (store_tag sale nothing "cookie" buy) ≡ 1
unfolding store_tag insert_tag nothing
one_sale = refl

allowed : AreAllowed requests nothing
unfolding AreAllowed IsAllowed change
allowed = (
  (fields sale refl (omega arith) refl, inr refl),
  ((inr refl, omega arith, rw one_sale (omega arith)), tt),
)

abbrev answer : UserProfileDto
answer =
    profile_dto server "cookie" noon (noon + minute) 5 (record { views = []; buys = sale ∷ [] })

served :
    user_profiles server "cookie" noon (noon + minute) 5 after_cleanup ≡ (ok answer, after_cleanup)
unfolding add remove_over_limit marshal_user_tag action_to_bin insert_entry user_profiles
    user_profiles_client get decode_bin unmarshal_user_tag user_tags_handler from_user_tag_dto
    parse_uint to_device to_action add_user_tag
served = refl

Visits-answered_example :
    answer ≡ profile_shown server (changed requests nothing) "cookie" noon (noon + minute) 5
Visits-answered_example =
    Visits-answered server wire store profile_laws wire_laws refl (λ tag s. refl) requests nothing
      "cookie" noon (noon + minute) 5 answer bare after_cleanup after_cleanup allowed
      nothing-Represents visits served

-- ===== src/Tests/Served.antt =====
-- The handlers of the API at small requests.
use allezon.Base.{
  ℕ, ◌+◌, ◌*◌, ◌%◌, ◌^◌, ◌≤◌, ◌≡◌, ◌↔◌, true, none, some, List, [], ◌∷◌, map, reverse, ok, failed,
  take, filter,
}
use allezon.Base.Exec.{return, throw}
use allezon.Time.{Time, minute, second}
use allezon.Types.{UserTag, buy, sum, count}
use allezon.Db.{Client, AggregatesClient, UserProfileClient, ActionAggregates}
use allezon.Dto.{into_user_tag_dto}
use allezon.Http.{status, status_no_content}
use allezon.IdClient.{null_client}
use allezon.Api.{Server}
use allezon.Api.TimeRange.{validate_iff, validate_aggregates_time_range}
use allezon.Api.Profiles.{convert_tags, in_range}
use allezon.Api.Profiles.Selected.{convert_tags-select}
use allezon.Api.Requested.{convert_aggregates, convert_aggregates_iff, AreNamed, IsDistinct}
use allezon.Api.Aggregates.{Filters, FetchParams, filter_aggregates, aggregates}
use allezon.Api.Aggregates.Filtered.{sums, counts, matching, filter_aggregates-sums}
use allezon.Api.UserTags.{user_tags_handler}
use allezon.Api.UserTags.Handled.{BothDone, cleanup_for, user_tags_handler_iff}
use allezon.Tests.Data.{sale, visit, key, other_key, text, noon, sale_dto, sale_dto_accepted}

abbrev later : Time
later = noon + 2 * minute

validate_iff_example :
    (validate_aggregates_time_range noon later ≡ ok tt)
    ↔ ((noon ≤ later) × (later ≤ noon + 10 * minute) × (second noon ≡ 0) × (second later ≡ 0))
validate_iff_example = validate_iff noon later

convert_tags-select_example :
    convert_tags text (sale ∷ visit ∷ []) noon later 1
    ≡ map
        (into_user_tag_dto text)
        (take 1 (filter (in_range noon later) (reverse (sale ∷ visit ∷ []))))
convert_tags-select_example = convert_tags-select text noon later 1 (sale ∷ visit ∷ [])

convert_aggregates_iff_example :
    (convert_aggregates ("COUNT" ∷ "SUM_PRICE" ∷ []) ≡ ok (count ∷ sum ∷ []))
    ↔ (AreNamed ("COUNT" ∷ "SUM_PRICE" ∷ []) (count ∷ sum ∷ []) × IsDistinct (count ∷ sum ∷ []))
convert_aggregates_iff_example =
    convert_aggregates_iff ("COUNT" ∷ "SUM_PRICE" ∷ []) (count ∷ sum ∷ [])

abbrev of_three : Filters
of_three = record { origin_id = some 3; brand_id = none; category_id = none }

abbrev found : List ActionAggregates
found =
    record { key = key; sum = 500; count = 2 }
    ∷ record { key = other_key; sum = 30; count = 1 }
    ∷ []

filter_aggregates-sums_example :
    filter_aggregates found of_three
    ≡ (sums (matching of_three found) % 2 ^ 64, counts (matching of_three found) % 2 ^ 64)
filter_aggregates-sums_example = filter_aggregates-sums of_three found

abbrev params : FetchParams
params = record {
  from = noon;
  to = later;
  action = buy;
  origin = none;
  brand_id = some "acme";
  category_id = none;
}

-- Every minute has the same aggregates; a state is the list of the tags that were sent.
abbrev aggregates_client : AggregatesClient (List UserTag)
aggregates_client = record { get = λ t action. return found; add = λ k tag. return tt }

abbrev profiles : UserProfileClient (List UserTag)
profiles = record {
  get = λ cookie. throw failed;
  add = λ tag. return 221;
  remove_over_limit = λ cookie action limit. return tt;
}

abbrev database : Client (List UserTag)
database = record { user_profiles = profiles; aggregates = return aggregates_client }

abbrev server : Server (List UserTag)
server = record {
  time_text = text;
  send = λ tag sent. (ok tt, tag ∷ sent);
  profiles_db = database;
  aggregates_db = database;
  id_getter = null_client;
}

abbrev of_acme : Filters
of_acme = record { origin_id = none; brand_id = some 0; category_id = none }

user_tags_handler_iff_example :
    (user_tags_handler server true (ok sale_dto) []
      ≡ (ok (status status_no_content, some ("cookie", buy)), sale ∷ []))
    ↔ ((n : ℕ) × BothDone server true sale n [] (sale ∷ [])
        × (some ("cookie", buy) ≡ cleanup_for server sale n))
user_tags_handler_iff_example =
    user_tags_handler_iff server true sale_dto sale (some ("cookie", buy)) [] (sale ∷ [])
      sale_dto_accepted

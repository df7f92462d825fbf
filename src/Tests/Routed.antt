-- ===== src/Tests/Routed.antt =====
-- A request for aggregates that is served in memory.
use allezon.Base.{◌≡◌, refl, true, none, some, [], ◌∷◌, ok, err, failed, ◌&&◌, ◌||◌, false}
use allezon.Types.{UserTag}
use allezon.Http.{Response, json, status, aborted}
use allezon.Middleware.{Body, Handling, finish, header, body, run, check_expectation}
use allezon.Middleware.Transparent.{sent, is_judged}
use allezon.Api.Routing.{aggregates_query_handler, Incoming, Gin, handle, path_of, serve}
use allezon.Api.Routing.Handled.{has_panicked, behind, serve-handle}
use allezon.Api.UserTags.{run_both, add_user_tag, waited}
use allezon.Db.Null.{null_user_profile_client}
use allezon.Tests.Expected.{Kept, writer, writer_laws, codecs, empty}
use allezon.Tests.Memory.{Store}
use allezon.Tests.Flowed.{server, after}

-- A JSON answer has one byte here.
abbrev answer : {A : Type 0} → Response A → Handling Store
answer (json code a) = header code (body (1 ∷ []) λ wrote. finish)
answer (status code) = header code finish
answer (aborted code) = header code finish

abbrev gin : Gin Store
gin = record {
  bind_json = λ bytes. err failed;
  bind_profiles = λ query. err failed;
  bind_aggregates = λ query. ok (record {
    time_range = query;
    action = "BUY";
    aggregates = "COUNT" ∷ [];
    origin = some "shop";
    brand_id = none;
    category_id = none;
  });
  answer_health = answer;
  answer_tags = answer;
  answer_profiles = answer;
  answer_aggregates = answer;
}

abbrev incoming : Incoming
incoming = record { query = "63815170500000_63815170560000"; cookie = "" }

abbrev recovery : Kept → Kept
recovery (code, bytes) = (some 500, bytes)

abbrev sent_body : Body
sent_body = record { content = 1 ∷ []; failure = none; close = ok tt }

calm : (tag : UserTag) (st : Store) → has_panicked (run_both server true tag st).0 ≡ false
unfolding run_both add_user_tag waited null_user_profile_client
calm tag st = refl

serve-handle_example :
    let handling = handle gin server true aggregates_query_handler incoming sent_body in
    let o = run writer handling (empty, after) in
    let check =
      check_expectation server.time_text codecs
        (path_of aggregates_query_handler)
        (1 ∷ [])
        (sent writer handling (empty, after)) in
    (serve gin server codecs writer recovery true aggregates_query_handler incoming sent_body
      (empty, after)).1
    ≡ behind recovery (has_panicked o.0 || is_judged writer o.1.0 && has_panicked check) o.1
serve-handle_example =
    serve-handle gin server codecs writer writer_laws recovery true aggregates_query_handler
      incoming (1 ∷ []) none empty after calm

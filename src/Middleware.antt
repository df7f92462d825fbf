-- ===== src/Middleware.antt =====
-- src/cmd/api/middleware/expect.go: the validator of expectations. The decoders of JSON, `cmp.Diff` and the response
-- writer of gin are parameters; a body is a list of bytes, and what is logged is returned.
pub mod Agreement
pub mod Transparent
use allezon.Base.{
  ℕ, String, Bool, true, false, ◌||◌, not, Option, none, some, List, [], ◌∷◌, ◌++◌, Error, Result,
  ok, err, panic, failed, wrapped, wrap, ◌>>=◌, str_eq, length, ◌==◌, if◌then◌else◌,
}
use allezon.Base.Exec.{Exec, ◌>>=◌ as ◌>>==◌, return, lift, throw}
use allezon.Types.{UserTag}
use allezon.Dto.{TimeText, UserTagDto, UserProfileDto, AggregatesDto, from_user_tag_dto}
use allezon.Http.{status_ok, status_internal_server_error}

abbrev pub user_profiles_full_path : String
user_profiles_full_path = "/user_profiles/:cookie"

abbrev pub aggregates_full_path : String
aggregates_full_path = "/aggregates"

abbrev pub expectation_validator_endpoints : List String
expectation_validator_endpoints = user_profiles_full_path ∷ aggregates_full_path ∷ []

-- `slices.Contains`
abbrev pub contains : List String → String → Bool
contains [] x = false
contains (y ∷ ys) x = str_eq y x || contains ys x

-- The calls of `logger.Error`
pub data Report : Type 0 where
  expected_not_decoded actual_not_decoded expected_not_converted actual_not_converted : Report
  unexpected_endpoint mismatch request_not_read body_not_closed : Report

pub record UserProfile : Type 0 where
  pub cookie : String
  pub views : List UserTag
  pub buys : List UserTag

module _ (text : TimeText) where
  unfoldable pub from_tags : List UserTagDto → Result (List UserTag)
  from_tags [] = ok []
  from_tags (dto ∷ dtos) = do
    tag ← wrap (from_user_tag_dto text dto)
    tags ← from_tags dtos
    ok (tag ∷ tags)

  unfoldable pub from_user_profile_dto : UserProfileDto → Result UserProfile
  from_user_profile_dto user_profile = do
    views ← from_tags user_profile.views
    buys ← from_tags user_profile.buys
    ok (record { cookie = user_profile.cookie; views = views; buys = buys })

-- `json.Unmarshal` into each type, and `cmp.Diff`
pub record Codecs : Type 0 where
  pub unmarshal_profile : List ℕ → Result UserProfileDto
  pub unmarshal_aggregates : List ℕ → Result AggregatesDto
  pub diff_profiles : UserProfile → UserProfile → String
  pub diff_aggregates : AggregatesDto → AggregatesDto → String

-- `if err != nil { logger.Error(…); return }`: nothing more is reported.
abbrev pub or_report :
    {A : Type 0} → Result A → Report → (A → Result (Option Report)) → Result (Option Report)
or_report (ok a) report f = f a
or_report (err e) report f = ok (some report)
or_report panic report f = panic

abbrev pub report_difference : String → Result (Option Report)
report_difference diff = if str_eq diff "" then ok none else ok (some mismatch)

module _ (text : TimeText) (codecs : Codecs) where
  unfoldable pub check_profile : List ℕ → List ℕ → Result (Option Report)
  check_profile request_copy response_copy =
      or_report (codecs.unmarshal_profile request_copy) expected_not_decoded λ expected_dto.
        or_report (codecs.unmarshal_profile response_copy) actual_not_decoded λ actual_dto.
          or_report (from_user_profile_dto text expected_dto) expected_not_converted λ expected.
            or_report (from_user_profile_dto text actual_dto) actual_not_converted
              λ actual. report_difference (codecs.diff_profiles expected actual)

  unfoldable pub check_aggregates : List ℕ → List ℕ → Result (Option Report)
  check_aggregates request_copy response_copy =
      or_report (codecs.unmarshal_aggregates request_copy) expected_not_decoded λ expected.
        or_report (codecs.unmarshal_aggregates response_copy) actual_not_decoded
          λ actual. report_difference (codecs.diff_aggregates expected actual)

  unfoldable pub check_expectation : String → List ℕ → List ℕ → Result (Option Report)
  check_expectation full_path request_copy response_copy =
      if str_eq full_path user_profiles_full_path
      then check_profile request_copy response_copy
      else if str_eq full_path aggregates_full_path
      then check_aggregates request_copy response_copy
      else ok (some unexpected_endpoint)

-- `gin.ResponseWriter` on its state `G`, and `c.AbortWithStatus`
pub record ResponseWriter (G : Type 0) : Type 0 where
  pub write_header : ℕ → G → G
  pub write : List ℕ → Exec G ℕ
  pub write_string : List ℕ → Exec G ℕ
  pub status : G → ℕ
  pub written : G → Bool
  pub abort_with_status : ℕ → G → G

-- The second writer of `io.MultiWriter` is a buffer, which takes everything. A first writer that
-- fails or falls short ends the call.
abbrev pub then_copy : {G : Type 0} → List ℕ → List ℕ → Result ℕ × G → Result ℕ × (G × List ℕ)
then_copy bytes copy (ok n, g) =
    if n == length bytes then (ok n, (g, copy ++ bytes)) else (err failed, (g, copy))
then_copy bytes copy (err e, g) = (err e, (g, copy))
then_copy bytes copy (panic, g) = (panic, (g, copy))

-- The other methods are those of the original: also `WriteString`, whose bytes are not copied.
unfoldable pub new_multi_response_writer :
    {G : Type 0} → ResponseWriter G → ResponseWriter (G × List ℕ)
new_multi_response_writer original = record {
  write_header = λ code (g, copy). (original.write_header code g, copy);
  write = λ bytes (g, copy). then_copy bytes copy (original.write bytes g);
  write_string = λ bytes (g, copy).
      ((original.write_string bytes g).0, ((original.write_string bytes g).1, copy));
  status = λ (g, copy). original.status g;
  written = λ (g, copy). original.written g;
  abort_with_status = λ code (g, copy). (original.abort_with_status code g, copy);
}

-- What the handlers behind the validator do, one call after the other: with the response, or with
-- the rest of the world `W`.
pub data Handling (W : Type 0) : Type 0 where
  finish panics : Handling W
  header : ℕ → Handling W → Handling W
  body : List ℕ → (Result ℕ → Handling W) → Handling W
  body_string : List ℕ → (Result ℕ → Handling W) → Handling W
  touch : (W → W) → (W → Handling W) → Handling W

-- `c.Next()`
unfoldable pub run :
    {G W : Type 0} → ResponseWriter G → Handling W → G × W → Result (Unit {0}) × (G × W)
run writer finish s = (ok tt, s)
run writer panics s = (panic, s)
run writer (header code next) (g, w) = run writer next (writer.write_header code g, w)
run writer (body bytes next) (g, w) =
    let wrote = writer.write bytes g in run writer (next wrote.0) (wrote.1, w)
run writer (body_string bytes next) (g, w) =
    let wrote = writer.write_string bytes g in run writer (next wrote.0) (wrote.1, w)
run writer (touch f next) (g, w) = run writer (next (f w)) (g, f w)

-- The body of a request: what it holds, the error after that instead of its end, and how `Close`
-- ends.
pub record Body : Type 0 where
  pub content : List ℕ
  pub failure : Option Error
  pub close : Result (Unit {0})

abbrev pub closed : Result (Unit {0}) → List Report
closed (err e) = body_not_closed ∷ []
closed _ = []

abbrev pub copied : Body → Option Error → Result Body
copied b none = ok (record { content = b.content; failure = none; close = ok tt })
copied b (some e) = err (wrapped e)

-- A deferred call that panics takes the place of what is returned.
abbrev pub unless_panics : {A : Type 0} → Result (Unit {0}) → Result A → Result A
unless_panics (ok u) r = r
unless_panics (err e) r = r
unless_panics panic r = panic

-- The new body, what is in `copy`, and what the deferred `Close` reports.
unfoldable pub copy_request_body : Body → Result Body × (List ℕ × List Report)
copy_request_body b = (unless_panics b.close (copied b b.failure), (b.content, closed b.close))

pub record Request : Type 0 where
  pub full_path : String
  pub body : Body

abbrev pub reported : Result (Option Report) → Result (List Report)
reported (ok none) = ok []
reported (ok (some report)) = ok (report ∷ [])
reported (err e) = err e
reported panic = panic

abbrev pub also_reported :
    {S : Type 0} → List Report → Result (List Report) × S → Result (List Report) × S
also_reported first (r, s) = ((r >>= λ reports. ok (first ++ reports)), s)

abbrev pub passed : {S : Type 0} → Result (Unit {0}) × S → Result (List Report) × S
passed (r, s) = ((r >>= λ u. ok []), s)

module _ {G W : Type 0} (text : TimeText) (codecs : Codecs) (writer : ResponseWriter G) where
  -- After `c.Next()`: with the response and its copy
  unfoldable pub after_next :
      String → List ℕ → Result (Unit {0}) × ((G × List ℕ) × W) → Result (List Report) × (G × W)
  after_next full_path request_copy (ok u, ((g, response_copy), w)) = (
    if writer.status g == status_ok || not (writer.written g)
        then reported (check_expectation text codecs full_path request_copy response_copy)
        else ok [],
    (g, w),
  )
  after_next full_path request_copy (err e, ((g, response_copy), w)) = (err e, (g, w))
  after_next full_path request_copy (panic, ((g, response_copy), w)) = (panic, (g, w))

  unfoldable pub validated :
      (Body → Handling W) → String → Result Body → List ℕ → G × W → Result (List Report) × (G × W)
  unfolding after_next
  validated next full_path (ok b) request_copy (g, w) =
      after_next full_path request_copy
        (run (new_multi_response_writer writer) (next b) ((g, []), w))
  validated next full_path (err e) request_copy (g, w) =
      (ok (request_not_read ∷ []), (writer.abort_with_status status_internal_server_error g, w))
  validated next full_path panic request_copy s = (panic, s)

  unfoldable pub expectation_validator :
      (Body → Handling W) → Request → G × W → Result (List Report) × (G × W)
  unfolding validated
  expectation_validator next request s =
      if not (contains expectation_validator_endpoints request.full_path)
      then passed (run writer (next request.body) s)
      else let (read, (copy, reports)) = copy_request_body request.body in
        also_reported reports (validated next request.full_path read copy s)

-- ===== src/Api/Routing.antt =====
-- `New` of src/cmd/api/server/server.go: the routes, and the middleware before their handlers. Gin is a
-- parameter: which route a request takes, how a request is bound, what an answer writes, and what
-- the recovery does with a response after a panic.
pub mod Handled
use allezon.Base.{ℕ, String, Bool, List, [], ◌∷◌, Result, ok, err, panic}
use allezon.Base.Exec.{Exec}
use allezon.Dto.{TimeText, UserTagDto, UserProfileDto, AggregatesDto}
use allezon.Http.{Response, Fields, Route, get, post, health}
use allezon.Middleware.{
  Body, Request, Report, Handling, finish, panics, touch, ResponseWriter, Codecs,
  expectation_validator,
}
use allezon.Api.{Server}
use allezon.Api.Profiles.{UserProfilesRequest, user_profiles_handler}
use allezon.Api.Aggregates.{AggregatesRequest, aggregates_handler}
use allezon.Api.UserTags.{user_tags_handler}

pub data Handler : Type 0 where
  health_handler tags_handler profiles_handler aggregates_query_handler : Handler

abbrev pub path_of : Handler → String
path_of health_handler = "/health"
path_of tags_handler = "/user_tags"
path_of profiles_handler = "/user_profiles/:cookie"
path_of aggregates_query_handler = "/aggregates"

-- The routes, in the order in which they are registered
abbrev pub routes : List (Route Handler)
routes =
    record { method = get; path = path_of health_handler; handler = health_handler }
    ∷ record { method = post; path = path_of tags_handler; handler = tags_handler }
    ∷ record { method = post; path = path_of profiles_handler; handler = profiles_handler }
    ∷ record {
      method = post;
      path = path_of aggregates_query_handler;
      handler = aggregates_query_handler;
    }
    ∷ []

-- What a request carries beside its body: the query, and the parameter of the path
pub record Incoming : Type 0 where
  pub query : String
  pub cookie : String

-- The bindings of gin, and what it writes for each answer
pub record Gin (S : Type 0) : Type 0 where
  pub bind_json : List ℕ → Result UserTagDto
  pub bind_profiles : String → Result UserProfilesRequest
  pub bind_aggregates : String → Result AggregatesRequest
  pub answer_health : Response Fields → Handling S
  pub answer_tags : Response (Unit {0}) → Handling S
  pub answer_profiles : Response UserProfileDto → Handling S
  pub answer_aggregates : Response AggregatesDto → Handling S

-- A handler runs on the world, and then writes its answer.
abbrev pub answering : {S A : Type 0} → (A → Handling S) → Result A → Handling S
answering f (ok a) = f a
answering f (err e) = finish
answering f panic = panics

unfoldable pub in_world : {S A : Type 0} → Exec S A → (A → Handling S) → Handling S
in_world m f = touch (λ w. w) λ w. touch (λ _. (m w).1) λ _. answering f (m w).0

module _ {S : Type 0} (gin : Gin S) (s : Server S) where
  -- The cleanup that `userTagsHandler` starts runs on its own; `add_first` is as there.
  unfoldable pub handle : Bool → Handler → Incoming → Body → Handling S
  unfolding in_world
  handle add_first health_handler incoming body = in_world health gin.answer_health
  handle add_first tags_handler incoming body =
      in_world (user_tags_handler s add_first (gin.bind_json body.content))
        λ answer. gin.answer_tags answer.0
  handle add_first profiles_handler incoming body =
      in_world (user_profiles_handler s (gin.bind_profiles incoming.query) incoming.cookie)
        gin.answer_profiles
  handle add_first aggregates_query_handler incoming body =
      in_world (aggregates_handler s (gin.bind_aggregates incoming.query)) gin.answer_aggregates

-- `RecoveryWithZap`: behind a panic, `recovery` is applied to the response.
abbrev pub recovered :
    {G S : Type 0} → (G → G) → Result (List Report) × (G × S) → List Report × (G × S)
recovered recovery (ok reports, s) = (reports, s)
recovered recovery (err e, s) = ([], s)
recovered recovery (panic, (g, w)) = ([], (recovery g, w))

module _ {G S : Type 0} (gin : Gin S) (s : Server S) (codecs : Codecs) (writer : ResponseWriter G)
    (recovery : G → G) where
  -- A request that takes the route of a handler
  unfoldable pub validate :
      Bool → Handler → Incoming → Body → G × S → Result (List Report) × (G × S)
  validate add_first h incoming body =
      expectation_validator s.time_text codecs writer (handle gin s add_first h incoming)
        (record { full_path = path_of h; body = body })

  unfoldable pub serve : Bool → Handler → Incoming → Body → G × S → List Report × (G × S)
  unfolding validate
  serve add_first h incoming body state =
      recovered recovery (validate add_first h incoming body state)

-- ===== src/Api/Routing/Handled.antt =====
-- What the middleware of src/cmd/api/server/server.go leaves of what a handler does.
use allezon.Base.{
  ℕ, String, ◌≡◌, ◌⊎◌, inl, inr, refl, ap, ◌∙◌, Bool, true, false, ◌&&◌, ◌||◌, if◌then◌else◌,
  Option, none, some, List, Error, Result, ok, err, panic,
}
use allezon.Types.{UserTag}
use allezon.Middleware.{
  Body, Report, Handling, ResponseWriter, Codecs, run, passed, check_expectation,
  expectation_validator,
}
use allezon.Middleware.Transparent.{
  WriterLaws, buffered, request, close_result, close_reports, sent, is_judged, verdict, run_cases,
  validator-transparent,
}
use allezon.Api.{Server}
use allezon.Api.UserTags.{run_both}
use allezon.Api.Routing.{
  Handler, health_handler, tags_handler, profiles_handler, aggregates_query_handler, Incoming, Gin,
  handle, path_of, recovered, validate, serve,
}

abbrev pub has_panicked : {A : Type 0} → Result A → Bool
has_panicked panic = true
has_panicked _ = false

-- The routes whose answers are compared
abbrev pub is_checked : Handler → Bool
is_checked profiles_handler = true
is_checked aggregates_query_handler = true
is_checked _ = false

module _ {G S : Type 0} (recovery : G → G) where
  -- The response and the world, with the recovery behind a panic
  abbrev pub behind : Bool → G × S → G × S
  behind panicked (g, w) = ((if panicked then recovery g else g), w)

  recovered-passed :
      (o : Result (Unit {0}) × (G × S))
      → (recovered recovery (passed o)).1 ≡ behind (has_panicked o.0 || false) o.1
  recovered-passed (ok u, s) = refl
  recovered-passed (err e, s) = refl
  recovered-passed (panic, s) = refl

  judged-recovered :
      (b : Bool) (check : Result (Option Report)) (before : List Report) (s : G × S)
      → (recovered recovery (verdict (ok tt) b check before, s)).1
        ≡ behind (b && has_panicked check) s
  judged-recovered false check before s = refl
  judged-recovered true (ok none) before s = refl
  judged-recovered true (ok (some report)) before s = refl
  judged-recovered true (err e) before s = refl
  judged-recovered true panic before s = refl

  verdict-recovered :
      (r : Result (Unit {0})) (b : Bool) (check : Result (Option Report)) (before : List Report)
      (s : G × S)
      → (r ≡ ok tt) ⊎ (r ≡ panic)
      → (recovered recovery (verdict r b check before, s)).1
        ≡ behind (has_panicked r || b && has_panicked check) s
  verdict-recovered r b check before s (inl returned) =
      rw returned (judged-recovered b check before s)
  verdict-recovered r b check before s (inr panicked) = rw panicked

module _ {G S : Type 0} (gin : Gin S) (s : Server S) (codecs : Codecs) (writer : ResponseWriter G)
    (laws : WriterLaws writer) (recovery : G → G) where
  checked :
      (next : Body → Handling S) (content : List ℕ) (close : Option Error) (path : String) (g : G)
      (w : S)
      → (path ≡ "/user_profiles/:cookie") ⊎ (path ≡ "/aggregates")
      → let o = run writer (next (buffered content)) (g, w) in
        let check =
          check_expectation s.time_text codecs path content
            (sent writer (next (buffered content)) (g, w)) in
        (recovered recovery (
          expectation_validator s.time_text codecs writer next
            (request path content close)
            (g, w))).1
        ≡ behind recovery (has_panicked o.0 || is_judged writer o.1.0 && has_panicked check) o.1
  checked next content close path g w endpoint =
      ap (λ v. (recovered recovery v).1)
        (validator-transparent writer laws s.time_text codecs next content close path g w endpoint)
      ∙ verdict-recovered recovery _ _ _ (close_reports close) _
          (run_cases writer laws (next (buffered content)) g w)

  -- If a write of the original writer that succeeds is a full one, and no goroutine of the handler
  -- of tags panics, which would end the program, then a request with a body that can be read and
  -- whose `Close` does not panic, served through the middleware on any of the routes of the API
  -- service, leaves the world as its handler alone does; and the response too, on which the
  -- recovery acts exactly if the handler has panicked, or if it has returned on a route of profiles
  -- or aggregates with status 200 or nothing written, and the check of what it wrote panics.
  pub serve-handle :
      (add_first : Bool) (h : Handler) (incoming : Incoming) (content : List ℕ)
      (close : Option Error) (g : G) (w : S)
      → ((tag : UserTag) (st : S) → has_panicked (run_both s add_first tag st).0 ≡ false)
      → let body : Body = record {
        content = content;
        failure = none;
        close = close_result close;
      } in
        let handling = handle gin s add_first h incoming body in
        let o = run writer handling (g, w) in
        let check =
          check_expectation s.time_text codecs (path_of h) content (sent writer handling (g, w)) in
        (serve gin s codecs writer recovery add_first h incoming body (g, w)).1
        ≡ behind recovery
            (has_panicked o.0 || is_checked h && (is_judged writer o.1.0 && has_panicked check))
            o.1
  unfolding serve validate handle expectation_validator
  serve-handle add_first health_handler incoming content close g w calm =
      recovered-passed recovery (run writer _ (g, w))
  serve-handle add_first tags_handler incoming content close g w calm =
      recovered-passed recovery (run writer _ (g, w))
  serve-handle add_first profiles_handler incoming content close g w calm =
      checked (handle gin s add_first profiles_handler incoming) content close
        (path_of profiles_handler) g w (inl refl)
  serve-handle add_first aggregates_query_handler incoming content close g w calm =
      checked (handle gin s add_first aggregates_query_handler incoming) content close
        (path_of aggregates_query_handler) g w (inr refl)

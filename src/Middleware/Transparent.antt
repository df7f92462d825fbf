-- ===== src/Middleware/Transparent.antt =====
-- The writer that `ExpectationValidator` of src/cmd/api/middleware/expect.go puts in place of the original.
use allezon.Base.{
  ℕ, ◌≡◌, refl, ◌⊎◌, inl, inr, String, Bool, true, false, ◌||◌, not, if◌then◌else◌, Option, none,
  some, List, [], ◌∷◌, ◌++◌, Error, Result, ok, err, panic, length, ◌==◌, arith,
}
use mathlib.Core.List.{append_assoc, append-nil}
use allezon.Dto.{TimeText}
use allezon.Middleware.{
  Body, Request, Report, body_not_closed, Handling, finish, panics, header, body, body_string,
  touch, ResponseWriter, Codecs, then_copy, new_multi_response_writer, run, copy_request_body,
  check_expectation, after_next, reported, also_reported, validated, expectation_validator,
  contains, expectation_validator_endpoints,
}

-- `io.Writer`: a write that falls short returns an error.
pub record WriterLaws {G : Type 0} (writer : ResponseWriter G) : Type 0 where
  pub write-full :
      (bytes : List ℕ) (g : G) (n : ℕ) → (writer.write bytes g).0 ≡ ok n → n ≡ length bytes

-- The bytes of a write that succeeds
abbrev pub taken : Result ℕ → List ℕ → List ℕ
taken (ok n) bytes = bytes
taken (err e) bytes = []
taken panic bytes = []

-- What the handlers write with success by `Write`
unfoldable pub sent : {G W : Type 0} → ResponseWriter G → Handling W → G × W → List ℕ
sent writer finish s = []
sent writer panics s = []
sent writer (header code next) (g, w) = sent writer next (writer.write_header code g, w)
sent writer (body bytes next) (g, w) =
    let wrote = writer.write bytes g in
    taken wrote.0 bytes ++ sent writer (next wrote.0) (wrote.1, w)
sent writer (body_string bytes next) (g, w) =
    let wrote = writer.write_string bytes g in sent writer (next wrote.0) (wrote.1, w)
sent writer (touch f next) (g, w) = sent writer (next (f w)) (g, f w)

full_copy :
    {G : Type 0} (bytes copy : List ℕ) (o : Result ℕ × G)
    → ((n : ℕ) → o.0 ≡ ok n → n ≡ length bytes)
    → then_copy bytes copy o ≡ (o.0, (o.1, copy ++ taken o.0 bytes))
full_copy bytes copy (ok n, g) full =
    let same : (n == length bytes) ≡ true = let p = full n refl in ground arith in rw same
full_copy bytes copy (err e, g) full = rw (append-nil copy)
full_copy bytes copy (panic, g) full = rw (append-nil copy)

-- How a `Close` ends that does not panic
abbrev pub close_result : Option Error → Result (Unit {0})
close_result none = ok tt
close_result (some e) = err e

abbrev pub close_reports : Option Error → List Report
close_reports none = []
close_reports (some e) = body_not_closed ∷ []

-- A request whose body can be read, and the body that the handlers get
abbrev pub request : String → List ℕ → Option Error → Request
request path content close = record {
  full_path = path;
  body = record { content = content; failure = none; close = close_result close };
}

abbrev pub buffered : List ℕ → Body
buffered content = record { content = content; failure = none; close = ok tt }

-- What is reported, by the end of the handlers, by whether the answer is judged, by the check of it,
-- and by what was reported before
abbrev pub verdict :
    Result (Unit {0}) → Bool → Result (Option Report) → List Report → Result (List Report)
verdict panic judged check before = panic
verdict (err e) judged check before = err e
verdict (ok u) false check before = ok before
verdict (ok u) true (ok none) before = ok before
verdict (ok u) true (ok (some report)) before = ok (before ++ (report ∷ []))
verdict (ok u) true (err e) before = err e
verdict (ok u) true panic before = panic

-- Whether an answer is compared with the expected one
abbrev pub is_judged : {G : Type 0} → ResponseWriter G → G → Bool
is_judged writer g = writer.status g == 200 || not (writer.written g)

is_validated :
    (path : String)
    → (path ≡ "/user_profiles/:cookie") ⊎ (path ≡ "/aggregates")
    → contains expectation_validator_endpoints path ≡ true
is_validated path (inl profiles) = rw profiles
is_validated path (inr aggregates) = rw aggregates

judged-verdict :
    {S : Type 0} (b : Bool) (r : Result (Option Report)) (before : List Report) (s : S)
    → also_reported before ((if b then reported r else ok []), s) ≡ (verdict (ok tt) b r before, s)
judged-verdict false r before s = rw (append-nil before)
judged-verdict true (ok none) before s = rw (append-nil before)
judged-verdict true (ok (some report)) before s = refl
judged-verdict true (err e) before s = refl
judged-verdict true panic before s = refl

module _ {G W : Type 0} (writer : ResponseWriter G) (laws : WriterLaws writer) where
  -- Beside the copy, the handlers do what they do with the original.
  run-multi :
      (h : Handling W) (g : G) (copy : List ℕ) (w : W)
      → run (new_multi_response_writer writer) h ((g, copy), w) ≡ (
        (run writer h (g, w)).0,
        (((run writer h (g, w)).1.0, copy ++ sent writer h (g, w)), (run writer h (g, w)).1.1),
      )
  unfolding run new_multi_response_writer sent
  run-multi finish g copy w = rw (append-nil copy)
  run-multi panics g copy w = rw (append-nil copy)
  run-multi (header code next) g copy w = run-multi next (writer.write_header code g) copy w
  run-multi (body bytes next) g copy w =
      let wrote = writer.write bytes g in
      rw (
        full_copy bytes copy wrote (laws.write-full bytes g),
        run-multi (next wrote.0) wrote.1 (copy ++ taken wrote.0 bytes) w,
        append_assoc copy (taken wrote.0 bytes) (sent writer (next wrote.0) (wrote.1, w)),
      )
  run-multi (body_string bytes next) g copy w =
      let wrote = writer.write_string bytes g in run-multi (next wrote.0) wrote.1 copy w
  run-multi (touch f next) g copy w = run-multi (next (f w)) g copy (f w)

  -- Every one of the handlers' ends is a return or a panic.
  pub run_cases :
      (h : Handling W) (g : G) (w : W)
      → ((run writer h (g, w)).0 ≡ ok tt) ⊎ ((run writer h (g, w)).0 ≡ panic)
  unfolding run
  run_cases finish g w = inl refl
  run_cases panics g w = inr refl
  run_cases (header code next) g w = run_cases next (writer.write_header code g) w
  run_cases (body bytes next) g w =
      let wrote = writer.write bytes g in run_cases (next wrote.0) wrote.1 w
  run_cases (body_string bytes next) g w =
      let wrote = writer.write_string bytes g in run_cases (next wrote.0) wrote.1 w
  run_cases (touch f next) g w = run_cases (next (f w)) g (f w)

  module _ (text : TimeText) (codecs : Codecs) where
    after_next-verdict :
        (path : String) (request_copy bytes : List ℕ) (r : Result (Unit {0})) (close : Option Error)
        (g : G) (w : W)
        → (r ≡ ok tt) ⊎ (r ≡ panic)
        → also_reported
            (close_reports close)
            (after_next text codecs writer path request_copy (r, ((g, bytes), w)))
          ≡ (
            verdict r
                (is_judged writer g)
                (check_expectation text codecs path request_copy bytes)
                (close_reports close),
            (g, w),
          )
    unfolding after_next
    after_next-verdict path request_copy bytes r close g w (inl returned) = rw returned (
        judged-verdict (is_judged writer g) (check_expectation text codecs path request_copy bytes)
          (close_reports close) (g, w))
    after_next-verdict path request_copy bytes r close g w (inr panicked) = rw panicked

    -- If a write of the original writer that succeeds is a full one, then on a validated endpoint,
    -- with a body that can be read and whose `Close` does not panic, the validator leaves the
    -- response and the rest of the world as the handlers alone do, given the buffered body. It
    -- panics if the handlers do. If they return, and the status is 200 or nothing was written, it
    -- reports what the check of the request's body against the bytes that the handlers have written
    -- with success by `Write` reports, and panics if the check does; else it reports nothing. An
    -- error of `Close` is reported before.
    pub validator-transparent :
        (next : Body → Handling W) (content : List ℕ) (close : Option Error) (path : String) (g : G)
        (w : W)
        → (path ≡ "/user_profiles/:cookie") ⊎ (path ≡ "/aggregates")
        → let o = run writer (next (buffered content)) (g, w) in
          let bytes = sent writer (next (buffered content)) (g, w) in
          expectation_validator text codecs writer next (request path content close) (g, w) ≡ (
            verdict o.0
                (is_judged writer o.1.0)
                (check_expectation text codecs path content bytes)
                (close_reports close),
            o.1,
          )
    unfolding expectation_validator validated copy_request_body
    validator-transparent next content none path g w endpoint =
        rw (is_validated path endpoint, run-multi (next (buffered content)) g [] w)
          (after_next-verdict path content _ _ none _ _ (run_cases (next (buffered content)) g w))
    validator-transparent next content (some e) path g w endpoint =
        rw (is_validated path endpoint, run-multi (next (buffered content)) g [] w)
          (after_next-verdict path content _ _ (some e) _ _
            (run_cases (next (buffered content)) g w))

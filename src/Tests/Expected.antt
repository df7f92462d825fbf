-- ===== src/Tests/Expected.antt =====
-- Answers beside expected ones.
use allezon.Base.{
  ℕ, zero, suc, ◌≡◌, ◌↔◌, ◌≢◌, refl, sym, Bool, true, false, ◌∙◌, str_eq, eq_iff, none, some,
  Option, inl, inr, arith, ◌++◌, String, List, [], ◌∷◌, Result, ok, err, failed, length,
}
use mathlib.Core.Bool.{true≢false, false≢true}
use mathlib.Core.List.{List-discrete}
use native.Mathlib.Decide.{ℕ_discrete}
use allezon.Types.{UserTag}
use allezon.Dto.{UserProfileDto}
use allezon.Middleware.{
  UserProfile, Body, Handling, finish, header, body, ResponseWriter, Codecs, run, check_expectation,
  expectation_validator, user_profiles_full_path,
}
use allezon.Middleware.Transparent.{
  WriterLaws, sent, request, buffered, is_judged, verdict, validator-transparent,
}
use allezon.Middleware.Agreement.{
  DiffLaws, ReadsAs, AreCarried, answer, check_iff, own_answer-accepted,
}
use allezon.Tests.Data.{sale, visit, text, text_laws}

same_text : (x y : String) (b : Bool) → str_eq x y ≡ b → Dec (x ≡ y)
same_text x y true h = yes ((eq_iff x y).0 h)
same_text x y false h = no (λ e. true≢false (sym ((eq_iff x y).1 e) ∙ h))

text_discrete : Discrete String
text_discrete x y = same_text x y (str_eq x y) refl

tag_discrete : Discrete UserTag
tag_discrete = hlevel (ℕ_discrete, text_discrete)

pub profile_discrete : Discrete UserProfile
profile_discrete = hlevel (List-discrete, tag_discrete, text_discrete)

abbrev difference : {A : Type 0} → Dec A → String
difference (yes h) = ""
difference (no h) = "different"

not_empty : ◌≢◌ {A = String} "different" ""
not_empty e = false≢true ((eq_iff "different" "").1 e)

difference_iff : {A : Type 0} (decision : Dec A) → (difference decision ≡ "") ↔ A
difference_iff (yes h) = (λ e. h, λ a. refl)
difference_iff (no h) = (λ e. absurd (not_empty e), λ a. absurd (h a))

-- One byte stands for one profile.
abbrev shop : UserProfileDto
shop = answer text "cookie" (visit ∷ []) (sale ∷ [])

abbrev read_profile : List ℕ → Result UserProfileDto
read_profile (suc zero ∷ []) = ok shop
read_profile _ = err failed

abbrev pub codecs : Codecs
codecs = record {
  unmarshal_profile = read_profile;
  unmarshal_aggregates = λ bytes. err failed;
  diff_profiles = λ x y. difference (profile_discrete x y);
  diff_aggregates = λ x y. "different";
}

diff_laws : DiffLaws codecs
diff_laws = record { diff_iff = λ x y. difference_iff (profile_discrete x y) }

check_iff_example :
    (check_expectation text codecs user_profiles_full_path (1 ∷ []) (2 ∷ []) ≡ ok none)
    ↔ ((q : UserProfile) × ReadsAs text codecs (1 ∷ []) q × ReadsAs text codecs (2 ∷ []) q)
check_iff_example = check_iff text codecs (1 ∷ []) (2 ∷ []) diff_laws

visit_carried : AreCarried text (visit ∷ [])
unfolding AreCarried
visit_carried = (omega arith, inr (inl refl), inl refl, tt)

sale_carried : AreCarried text (sale ∷ [])
unfolding AreCarried
sale_carried = (omega arith, inr (inl refl), inr refl, tt)

own_answer-accepted_example :
    check_expectation text codecs user_profiles_full_path (1 ∷ []) (1 ∷ []) ≡ ok none
own_answer-accepted_example =
    own_answer-accepted text codecs "cookie" (visit ∷ []) (sale ∷ []) (1 ∷ []) (1 ∷ []) diff_laws
      text_laws visit_carried sale_carried refl refl

-- A writer that keeps the status, if there is one, and the bytes
abbrev pub Kept : Type 0
Kept = Option ℕ × List ℕ

abbrev pub code_of : Option ℕ → ℕ
code_of none = 200
code_of (some code) = code

abbrev pub is_some : Option ℕ → Bool
is_some none = false
is_some (some code) = true

abbrev pub writer : ResponseWriter Kept
writer = record {
  write_header = λ code (status, bytes). (some code, bytes);
  write = λ new (status, bytes). (ok (length new), (some (code_of status), bytes ++ new));
  write_string = λ new (status, bytes). (ok (length new), (some (code_of status), bytes ++ new));
  status = λ (status, bytes). code_of status;
  written = λ (status, bytes). is_some status;
  abort_with_status = λ code (status, bytes). (some code, bytes);
}

pub writer_laws : WriterLaws writer
writer_laws = record { write-full = λ bytes g n h. cc }

-- The handler answers with the byte of the profile.
abbrev handler : Body → Handling ℕ
handler b = header 200 (body (1 ∷ []) (λ wrote. finish))

abbrev pub empty : Kept
empty = (none, [])

validator-transparent_example :
    let o = run writer (handler (buffered (1 ∷ []))) (empty, 0) in
    expectation_validator text codecs writer handler
      (request user_profiles_full_path (1 ∷ []) none)
      (empty, 0)
    ≡ (
      verdict o.0
          (is_judged writer o.1.0)
          (check_expectation text codecs user_profiles_full_path
            (1 ∷ [])
            (sent writer (handler (buffered (1 ∷ []))) (empty, 0)))
          [],
      o.1,
    )
validator-transparent_example =
    validator-transparent writer writer_laws text codecs handler (1 ∷ []) none
      user_profiles_full_path empty 0 (inl refl)

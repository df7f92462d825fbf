-- ===== src/Middleware/Agreement.antt =====
-- When `checkExpectation` of src/cmd/api/middleware/expect.go reports nothing.
use allezon.Base.{
  ℕ, ◌-◌, ◌%◌, ◌<◌, ◌≡◌, inl, inr, ◌↔◌, refl, String, Option, none, some, List, [], ◌∷◌, map,
  Result, ok, err, panic, eq_iff, str_eq, Bool-cases,
}
use allezon.Time.{millisecond}
use allezon.Types.{UserTag}
use allezon.Types.Roundtrip.{IsAction}
use allezon.Dto.{TimeText, UserProfileDto, into_user_tag_dto}
use allezon.Dto.Laws.{IsDevice, TimeTextLaws, year_10000, from-into}
use allezon.Middleware.{
  UserProfile, Codecs, Report, mismatch, expected_not_decoded, actual_not_decoded,
  expected_not_converted, actual_not_converted, or_report, report_difference, from_tags,
  from_user_profile_dto, check_profile, check_expectation, user_profiles_full_path,
}

-- `cmp.Diff` of two profiles, none of whose lists is empty without being nil
pub record DiffLaws (codecs : Codecs) : Type 0 where
  pub diff_iff : (x y : UserProfile) → (codecs.diff_profiles x y ≡ "") ↔ (x ≡ y)

or_report-none :
    {A : Type 0} (r : Result A) (report : Report) (f : A → Result (Option Report))
    → or_report r report f ≡ ok none
    → (a : A) × (r ≡ ok a) × (f a ≡ ok none)
or_report-none (ok a) report f h = (a, refl, h)
or_report-none (err e) report f h = absurd cc
or_report-none panic report f h = absurd cc

not_none : (report : Report) → ◌≡◌ {A = Result (Option Report)} (ok (some report)) (ok none) → ⊥
not_none report h = cc

no_difference : (diff : String) → report_difference diff ≡ ok none → diff ≡ ""
no_difference diff h = elim (Bool-cases (str_eq diff "")) [
  | inl same ↦ (eq_iff diff "").0 same
  | inr other ↦ absurd (not_none mismatch (rw other at h))
]

module _ (text : TimeText) where
  -- The tags that transfer objects carry
  unfoldable pub AreCarried : List UserTag → Type 0
  AreCarried [] = Unit
  AreCarried (tag ∷ tags) =
      (tag.time < year_10000) × IsDevice tag.device × IsAction tag.action × AreCarried tags

  abbrev cut : UserTag → UserTag
  cut tag = record tag { time = tag.time - tag.time % millisecond }

  from_tags-into :
      (tags : List UserTag)
      → TimeTextLaws text
      → AreCarried tags
      → from_tags text (map (into_user_tag_dto text) tags) ≡ ok (map cut tags)
  unfolding from_tags AreCarried
  from_tags-into [] laws h = refl
  from_tags-into (tag ∷ tags) laws (year, device, action, rest) =
      rw (from-into text tag laws year device action, from_tags-into tags laws rest)

  abbrev pub answer : String → List UserTag → List UserTag → UserProfileDto
  answer cookie views buys = record {
    cookie = cookie;
    views = map (into_user_tag_dto text) views;
    buys = map (into_user_tag_dto text) buys;
  }

  abbrev cut_profile : String → List UserTag → List UserTag → UserProfile
  cut_profile cookie views buys = record {
    cookie = cookie;
    views = map cut views;
    buys = map cut buys;
  }

  answer-cut :
      (cookie : String) (views buys : List UserTag)
      → TimeTextLaws text
      → AreCarried views
      → AreCarried buys
      → from_user_profile_dto text (answer cookie views buys) ≡ ok (cut_profile cookie views buys)
  unfolding from_user_profile_dto
  answer-cut cookie views buys laws v b =
      rw (from_tags-into views laws v, from_tags-into buys laws b)

module _ (text : TimeText) (codecs : Codecs) where
  -- The body is that of a profile.
  abbrev pub ReadsAs : List ℕ → UserProfile → Type 0
  ReadsAs bytes q =
      (dto : UserProfileDto) × (codecs.unmarshal_profile bytes ≡ ok dto)
      × (from_user_profile_dto text dto ≡ ok q)

  -- If `cmp.Diff` is empty exactly for equal profiles, the check of a profile reports nothing,
  -- and does not panic, exactly when both bodies decode to profiles that convert to the same one.
  pub check_iff :
      (expected actual : List ℕ)
      → DiffLaws codecs
      → (check_expectation text codecs user_profiles_full_path expected actual ≡ ok none)
        ↔ ((q : UserProfile) × ReadsAs expected q × ReadsAs actual q)
  unfolding check_expectation check_profile
  check_iff expected actual laws = (
    (λ h.
        let (e_dto, e_read, h₁) =
          or_report-none (codecs.unmarshal_profile expected) expected_not_decoded _ h in
        let (a_dto, a_read, h₂) =
          or_report-none (codecs.unmarshal_profile actual) actual_not_decoded _ h₁ in
        let (e, e_is, h₃) =
          or_report-none (from_user_profile_dto text e_dto) expected_not_converted _ h₂ in
        let (a, a_is, h₄) =
          or_report-none (from_user_profile_dto text a_dto) actual_not_converted _ h₃ in
        let same = (laws.diff_iff e a).0 (no_difference (codecs.diff_profiles e a) h₄) in
        (e, (e_dto, e_read, e_is), (a_dto, a_read, rw same a_is))),
    (λ (q, (e_dto, e_read, e_is), (a_dto, a_read, a_is)).
        let same = (laws.diff_iff q q).1 refl in rw (e_read, a_read, e_is, a_is, same)),
  )

  -- Under the same condition on `cmp.Diff`, and if the texts of instants read back, two bodies
  -- that decode to the transfer objects of the same tags, of years below 10000 and with known
  -- devices and actions, are accepted without a report or a panic.
  pub own_answer-accepted :
      (cookie : String) (views buys : List UserTag) (expected actual : List ℕ)
      → DiffLaws codecs
      → TimeTextLaws text
      → AreCarried text views
      → AreCarried text buys
      → codecs.unmarshal_profile expected ≡ ok (answer text cookie views buys)
      → codecs.unmarshal_profile actual ≡ ok (answer text cookie views buys)
      → check_expectation text codecs user_profiles_full_path expected actual ≡ ok none
  own_answer-accepted cookie views buys expected actual laws time v b e a =
      let is = answer-cut text cookie views buys time v b in
      (check_iff expected actual laws).1 (
        cut_profile text cookie views buys,
        (answer text cookie views buys, e, is),
        (answer text cookie views buys, a, is),
      )

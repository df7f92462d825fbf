-- ===== src/Api/UserTags/Handled.antt =====
-- When src/cmd/api/server/userTags.go answers that a tag was taken, and when it starts a cleanup.
use allezon.Base.{
  ℕ, ◌≡◌, ◌↔◌, refl, arith, sym, ap, ap₂, ◌∙◌, Bool, true, false, none, some, Result, ok, err,
  panic, int64_lt, if◌then◌else◌,
}
use allezon.Base.Exec.{wrapping, wrapping-ok, return-ok, >>=-ok}
use allezon.Types.{UserTag}
use allezon.Dto.{UserTagDto, from_user_tag_dto}
use allezon.Http.{Response, status, aborted, status_no_content}
use allezon.Api.{Server}
use allezon.Api.UserTags.{
  Cleanup, add_user_tag, waited, run_both, handle_tag, user_tags_handler, user_tag_gc_threshold,
}

abbrev code : Response (Unit {0}) → ℕ
code (status n) = n
code (aborted n) = 0
code _ = 0

abbrev answer_code : Result (Response (Unit {0}) × Cleanup) → ℕ
answer_code (ok (r, c)) = code r
answer_code _ = 0

abbrev answer_cleanup : Result (Response (Unit {0}) × Cleanup) → Cleanup
answer_cleanup (ok (r, c)) = c
answer_cleanup _ = none

abbrev result_or : Cleanup → Result Cleanup → Cleanup
result_or c (ok d) = d
result_or c _ = c

waited_iff :
    (added : Result Cleanup) (sent : Result (Unit {0})) (cleanup : Cleanup)
    → (waited added sent ≡ ok (status status_no_content, cleanup))
      ↔ ((added ≡ ok cleanup) × (sent ≡ ok tt))
unfolding waited
waited_iff (ok c) (ok _) cleanup = (
  λ h. (ap (λ r. ok (answer_cleanup r)) h, refl),
  λ h. ap (λ r. ok (status status_no_content, result_or none r)) h.0,
)
waited_iff (ok c) (err e) cleanup = (λ h. absurd (omega (arith, ap answer_code h)), λ h. cc)
waited_iff (ok c) panic cleanup = (λ h. cc, λ h. cc)
waited_iff (err e) (ok _) cleanup = (λ h. absurd (omega (arith, ap answer_code h)), λ h. cc)
waited_iff (err e) (err d) cleanup = (λ h. absurd (omega (arith, ap answer_code h)), λ h. cc)
waited_iff (err e) panic cleanup = (λ h. cc, λ h. cc)
waited_iff panic sent cleanup = (λ h. cc, λ h. cc)

module _ {S : Type 0} (s : Server S) where
  -- A cleanup is started exactly when the profile has more tags than the threshold.
  unfoldable pub cleanup_for : UserTag → ℕ → Cleanup
  cleanup_for tag n =
      if int64_lt user_tag_gc_threshold n then some (tag.cookie, tag.action) else none

  -- The database took the tag, answered `n`, and left `st'`.
  unfoldable pub Added : UserTag → ℕ → S → S → Type 0
  Added tag n st st' = s.profiles_db.user_profiles.add tag st ≡ (ok n, st')

  unfoldable pub Sent : UserTag → S → S → Type 0
  Sent tag st st' = s.send tag st ≡ (ok tt, st')

  add_user_tag_iff :
      (tag : UserTag) (c : Cleanup) (st st' : S)
      → (add_user_tag s tag st ≡ (ok c, st'))
        ↔ ((n : ℕ) × Added tag n st st' × (c ≡ cleanup_for tag n))
  unfolding add_user_tag Added cleanup_for
  add_user_tag_iff tag c st st' = (
    λ h.
        let (n, st₁, added, returned) =
          >>=-ok (wrapping (s.profiles_db.user_profiles.add tag)) _ st c st' h in
        let (value, same) = return-ok _ c st₁ st' returned in
        (
          n,
          wrapping-ok (s.profiles_db.user_profiles.add tag) st n st₁ added
              ∙ ap (λ x. (ok n, x)) (sym same),
          sym value,
        ),
    λ (n, added, is). rw (added, is),
  )

  -- Both calls succeed, in either order, and the database answers `n`.
  unfoldable pub BothDone : Bool → UserTag → ℕ → S → S → Type 0
  BothDone true tag n st st' = (st₁ : S) × Added tag n st st₁ × Sent tag st₁ st'
  BothDone false tag n st st' = (st₁ : S) × Sent tag st st₁ × Added tag n st₁ st'

  waited-state_iff :
      (added : Result Cleanup) (sent : Result (Unit {0})) (c : Cleanup) (st st' : S)
      → (◌≡◌ {A = Result (Response (Unit {0}) × Cleanup) × S}
          (waited added sent, st)
          (ok (status status_no_content, c), st'))
        ↔ ((added ≡ ok c) × (sent ≡ ok tt) × (st ≡ st'))
  waited-state_iff added sent c st st' = (
    λ h. let (a, b) = (waited_iff added sent c).0 (ap (λ x. x.0) h) in (a, b, ap (λ x. x.1) h),
    λ (a, b, same). ap₂ (λ x y. (x, y)) ((waited_iff added sent c).1 (a, b)) same,
  )

  run_both_iff :
      (add_first : Bool) (tag : UserTag) (c : Cleanup) (st st' : S)
      → (run_both s add_first tag st ≡ (ok (status status_no_content, c), st'))
        ↔ ((n : ℕ) × BothDone add_first tag n st st' × (c ≡ cleanup_for tag n))
  unfolding run_both BothDone Sent waited
  run_both_iff true tag c st st' = (
    λ h.
        let st₁ = (add_user_tag s tag st).1 in
        let (added, sent, same) =
          (waited-state_iff _ (s.send tag st₁).0 c (s.send tag st₁).1 st').0 h in
        let (n, is_added, is) = (add_user_tag_iff tag c st st₁).0 (ap (λ x. (x, st₁)) added) in
        (n, (st₁, is_added, ap₂ (λ x y. (x, y)) sent same), is),
    λ (n, (st₁, added, sent), is).
        let done = (add_user_tag_iff tag c st st₁).1 (n, added, is) in rw (done, sent),
  )
  run_both_iff false tag c st st' = (
    λ h.
        let st₁ = (s.send tag st).1 in
        let (added, sent, same) =
          (waited-state_iff (add_user_tag s tag st₁).0 (s.send tag st).0 c
              (add_user_tag s tag st₁).1 st').0
            h in
        let (n, is_added, is) =
          (add_user_tag_iff tag c st₁ st').0 (ap₂ (λ x y. (x, y)) added same) in
        (n, (st₁, ap (λ x. (x, st₁)) sent, is_added), is),
    λ (n, (st₁, sent, added), is).
        let done = (add_user_tag_iff tag c st₁ st').1 (n, added, is) in rw (sent, done),
  )

  -- A tag that converts is answered with 204 exactly when the profile takes it and the producer
  -- sends it, in the order in which the two are run; a cleanup is started exactly when the profile
  -- then has more tags than the threshold.
  pub user_tags_handler_iff :
      (add_first : Bool) (req : UserTagDto) (tag : UserTag) (c : Cleanup) (st st' : S)
      → from_user_tag_dto s.time_text req ≡ ok tag
      → (user_tags_handler s add_first (ok req) st ≡ (ok (status status_no_content, c), st'))
        ↔ ((n : ℕ) × BothDone add_first tag n st st' × (c ≡ cleanup_for tag n))
  unfolding user_tags_handler handle_tag
  user_tags_handler_iff add_first req tag c st st' decoded =
      rw decoded (run_both_iff add_first tag c st st')

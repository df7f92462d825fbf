-- ===== src/Container/Closing.antt =====
-- `Close` of src/pkg/container/container.go: every resource is closed, whatever fails.
use allezon.Base.{
  ◌≡◌, ◌≢◌, ◌↔◌, refl, String, Option, none, some, List, [], ◌∷◌, ◌++◌, Error, Result, ok, err,
  panic, failed, wrapped, All,
}
use allezon.Base.Exec.{Exec, ◌>>=◌, return, lift}
use allezon.Container.{Resource, Environment, Docker}

-- `if err != nil { errs = append(errs, …) }`
abbrev pub error_of : Result (Unit {0}) → Result (List Error)
error_of (ok u) = ok []
error_of (err e) = ok (wrapped e ∷ [])
error_of panic = panic

abbrev pub collected : {S : Type 0} → Exec S (Unit {0}) → Exec S (List Error)
collected m s = let o = m s in (error_of o.0, o.1)

-- The test of `errs`, whose texts are put into one error
abbrev pub torn_down : List Error → Result (Unit {0})
torn_down [] = ok tt
torn_down (e ∷ errs) = err failed

-- The resources that there are
abbrev pub handles : List (Option Resource) → List Resource
handles [] = []
handles (none ∷ resources) = handles resources
handles (some r ∷ resources) = r ∷ handles resources

module _ {S : Type 0} (docker : Docker S) where
  unfoldable pub close_resources : List (Option Resource) → Exec S (List Error)
  close_resources [] = return []
  close_resources (none ∷ resources) = close_resources resources
  close_resources (some r ∷ resources) = do
    errs ← collected (docker.close_resource r)
    more ← close_resources resources
    return (errs ++ more)

  abbrev pub remove_network : Option String → Exec S (List Error)
  remove_network none = return []
  remove_network (some n) = collected (docker.close_network n)

  unfoldable pub close : Environment S → Exec S (Unit {0})
  unfolding close_resources
  close env = do
    errs ← close_resources env.resources
    more ← remove_network env.network
    lift (torn_down (errs ++ more))

  -- All are closed, one after the other.
  unfoldable pub all_closed : List Resource → S → S
  all_closed [] s = s
  all_closed (r ∷ rs) s = all_closed rs (docker.close_resource r s).1

  -- How each is closed
  unfoldable pub outcomes : List Resource → S → List (Result (Unit {0}))
  outcomes [] s = []
  outcomes (r ∷ rs) s = let o = docker.close_resource r s in o.0 ∷ outcomes rs o.1

  abbrev pub network_closed : Option String → S → S
  network_closed none s = s
  network_closed (some n) s = (docker.close_network n s).1

  abbrev pub IsNetworkClosed : Option String → S → Type 0
  IsNetworkClosed none s = Unit
  IsNetworkClosed (some n) s = (docker.close_network n s).0 ≡ ok tt

cons_not_nil : (e : Error) (errs : List Error) → e ∷ errs ≢ []
cons_not_nil e errs h = cc

err_not_ok : (e : Error) → ◌≢◌ {A = Result (Unit {0})} (err e) (ok tt)
err_not_ok e h = cc

error_of-cases :
    (o : Result (Unit {0}))
    → o ≢ panic
    → (errs : List Error) × (error_of o ≡ ok errs) × ((errs ≡ []) ↔ (o ≡ ok tt))
error_of-cases (ok u) safe = ([], refl, (λ h. refl, λ h. refl))
error_of-cases (err e) safe = (
  wrapped e ∷ [],
  refl,
  (λ h. absurd (cons_not_nil (wrapped e) [] h), λ h. absurd (err_not_ok e h)),
)
error_of-cases panic safe = absurd (safe refl)

append-nil_iff : (xs ys : List Error) → (xs ++ ys ≡ []) ↔ ((xs ≡ []) × (ys ≡ []))
append-nil_iff [] ys = (λ h. (refl, h), λ h. h.1)
append-nil_iff (x ∷ xs) ys =
    (λ h. absurd (cons_not_nil x (xs ++ ys) h), λ h. absurd (cons_not_nil x xs h.0))

torn_down_iff : (errs : List Error) → (torn_down errs ≡ ok tt) ↔ (errs ≡ [])
torn_down_iff [] = (λ h. refl, λ h. refl)
torn_down_iff (e ∷ errs) = (λ h. absurd (err_not_ok failed h), λ h. absurd (cons_not_nil e errs h))

module _ {S : Type 0} (docker : Docker S)
    (resource_safe : (r : Resource) (s : S) → (docker.close_resource r s).0 ≢ panic)
    (network_safe : (n : String) (s : S) → (docker.close_network n s).0 ≢ panic) where
  close_resources_lem :
      (rs : List (Option Resource)) (s : S)
      → (errs : List Error) × (close_resources docker rs s
          ≡ (ok errs, all_closed docker (handles rs) s))
        × ((errs ≡ []) ↔ All (λ o. o ≡ ok tt) (outcomes docker (handles rs) s))
  unfolding close_resources all_closed outcomes
  close_resources_lem [] s = ([], refl, (λ h. tt, λ h. refl))
  close_resources_lem (none ∷ rs) s = close_resources_lem rs s
  close_resources_lem (some r ∷ rs) s =
      let o = docker.close_resource r s in
      let (first, is, first_iff) = error_of-cases o.0 (resource_safe r s) in
      let (more, rest, more_iff) = close_resources_lem rs o.1 in
      let both = append-nil_iff first more in
      (
        first ++ more,
        rw (is, rest),
        (
          (λ h. (first_iff.0 (both.0 h).0, more_iff.0 (both.0 h).1)),
          (λ h. both.1 (first_iff.1 h.0, more_iff.1 h.1)),
        ),
      )

  remove_network_lem :
      (n : Option String) (s : S)
      → (errs : List Error) × (remove_network docker n s ≡ (ok errs, network_closed docker n s))
        × ((errs ≡ []) ↔ IsNetworkClosed docker n s)
  remove_network_lem none s = ([], refl, (λ h. tt, λ h. refl))
  remove_network_lem (some n) s =
      let o = docker.close_network n s in
      let (errs, is, errs_iff) = error_of-cases o.0 (network_safe n s) in (errs, rw is, errs_iff)

  -- If no closing panics, Close closes every resource, in order, and then the network, whatever
  -- fails; it returns nil exactly when each of these succeeded.
  pub close_lem :
      (env : Environment S) (s : S)
      → let after = all_closed docker (handles env.resources) s in
        ((close docker env s).1 ≡ network_closed docker env.network after)
        × (((close docker env s).0 ≡ ok tt) ↔ (
            All (λ o. o ≡ ok tt) (outcomes docker (handles env.resources) s)
            × IsNetworkClosed docker env.network after))
  unfolding close
  close_lem env s =
      let (errs, is, errs_iff) = close_resources_lem env.resources s in
      let after = all_closed docker (handles env.resources) s in
      let (more, rest, more_iff) = remove_network_lem env.network after in
      let both = append-nil_iff errs more in
      let all = torn_down_iff (errs ++ more) in
      rw (is, rest)
        (
          refl,
          (
            (λ h. (errs_iff.0 (both.0 (all.0 h)).0, more_iff.0 (both.0 (all.0 h)).1)),
            (λ h. all.1 (both.1 (errs_iff.1 h.0, more_iff.1 h.1))),
          ),
        )

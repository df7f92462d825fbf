-- ===== src/Container/Torn.antt =====
-- `Close` of src/pkg/container/container.go behind `Run`: no container is left.
use allezon.Base.{
  ◌≡◌, ◌≢◌, inl, inr, refl, sym, ap, ◌∙◌, subst, String, Option, none, some, List, [], ◌∷◌, Result,
  ok, panic, All,
}
use allezon.Container.{Resource, Environment, Docker}
use allezon.Container.Running.{run}
use allezon.Container.Closing.{handles, outcomes, all_closed, network_closed, close, close_lem}
use allezon.Container.Tracked.{OwnedLaws}
use allezon.Container.Started.{IsPlain, Tracks, run-Preserves}

module _ {S : Type 0} (docker : Docker S) (laws : OwnedLaws docker) where
  open laws use {owned}

  closed-none :
      (rs : List Resource) (s : S)
      → owned s ≡ rs
      → All (λ o. o ≡ ok tt) (outcomes docker rs s)
      → owned (all_closed docker rs s) ≡ []
  unfolding all_closed outcomes
  closed-none [] s h done = h
  closed-none (r ∷ rs) s h done =
      let o = docker.close_resource r s in
      closed-none rs o.1 (laws.close-ok r rs s o.1 (ap (λ x. (x, o.1)) done.0) h) done.1

  network-owned : (n : Option String) (s : S) → owned (network_closed docker n s) ≡ owned s
  network-owned none s = refl
  network-owned (some n) s = laws.close_network-Keeps n s

  module _ (resource_safe : (r : Resource) (s : S) → (docker.close_resource r s).0 ≢ panic)
      (network_safe : (n : String) (s : S) → (docker.close_network n s).0 ≢ panic) where
    -- From an environment whose resources are those that are open, with callbacks that open and
    -- close none, after a Run that succeeds or fails and a Close that returns nil no resource is
    -- open, if only `RunWithOptions` opens resources, only their `Close` closes them, the retry
    -- returns what its last run returned, and no closing panics.
    pub run-close :
        (env env' : Environment S) (s s' s'' : S) (r : Result (Unit {0}))
        → owned s ≡ handles env.resources
        → All (IsPlain docker laws) env.services
        → run docker (env, s) ≡ (r, (env', s'))
        → r ≢ panic
        → close docker env' s' ≡ (ok tt, s'')
        → owned s'' ≡ []
    run-close env env' s s' s'' r same plain ran safe closed =
        let (state, all_iff) = close_lem docker resource_safe network_safe env' s' in
        let done = (all_iff.0 (ap (λ (o : Result (Unit {0}) × S). o.0) closed)).0 in
        elim (run-Preserves docker laws (env, s) (same, plain)) [
          | inl panicked ↦ absurd (
              safe (sym (ap (λ (o : Result (Unit {0}) × (Environment S × S)). o.0) ran) ∙ panicked))
          | inr tracked ↦
              let tracks : Tracks docker laws (env', s') =
                subst (λ (o : Result (Unit {0}) × (Environment S × S)). Tracks docker laws o.1) ran
                  tracked in
              let left : (close docker env' s').1 ≡ s'' =
                ap (λ (o : Result (Unit {0}) × S). o.1) closed in
              ap owned (sym left ∙ state)
              ∙ network-owned env'.network (all_closed docker (handles env'.resources) s')
              ∙ closed-none (handles env'.resources) s' tracks.0 done
        ]

-- ===== src/Container/Tracked.antt =====
-- What `Run` of src/pkg/container/container.go has started, `Close` finds.
use Prim.Native.String.{count, ◌++◌ as ◌<>◌}
use allezon.Base.{
  ℕ, zero, suc, ◌≡◌, inl, inr, refl, ap, ◌∙◌, subst, String, List, [], ◌∷◌, ◌++◌, Error, Result, ok,
  err, panic, wrapped, Bool-cases,
}
use allezon.Base.Exec.{Exec, ◌>>=◌, return, lift, throw, catch, handle, continue}
use allezon.Base.Keeps.{Keeps, >>=-Keeps, catch-Keeps}
use allezon.Container.{
  Config, RunOptions, Resource, Environment, Docker, docker_string, suffix, rand_string,
  letter_runes, rune_at, with_dashes,
}
use allezon.Container.Running.{do_start_service, start_service}

-- Runs of which all but the last fail
pub data Retried {S : Type 0} (m : Exec S Resource) : S → Result Resource → S → Type 0 where
  last : (s s' : S) (r : Result Resource) → m s ≡ (r, s') → Retried m s r s'
  again :
      (e : Error) (s s₁ s' : S) (r : Result Resource)
      → m s ≡ (err e, s₁)
      → Retried m s₁ r s'
      → Retried m s r s'

-- `owned` are the resources that were handed out and have not been closed: only `RunWithOptions`
-- adds one, and only its own `Close` takes one away. The retry returns what its last run returned.
pub record OwnedLaws {S : Type 0} (docker : Docker S) : Type 0 where
  pub owned : S → List Resource
  pub new_logger-Keeps : Keeps owned docker.new_logger
  pub new_pool-Keeps : Keeps owned docker.new_pool
  pub ping-Keeps : Keeps owned docker.ping
  pub create_network-Keeps : (name : String) → Keeps owned (docker.create_network name)
  pub close_network-Keeps : (n : String) → Keeps owned (docker.close_network n)
  pub remove-Keeps : (name : String) → Keeps owned (docker.remove_container_by_name name)
  pub intn-Keeps : (n : ℕ) → Keeps owned (docker.intn n)
  pub run-ok :
      (options : RunOptions) (s s' : S) (r : Resource)
      → docker.run_with_options options s ≡ (ok r, s')
      → owned s' ≡ owned s ++ (r ∷ [])
  pub run-err :
      (options : RunOptions) (s s' : S) (e : Error)
      → docker.run_with_options options s ≡ (err e, s')
      → owned s' ≡ owned s
  pub close-ok :
      (r : Resource) (rs : List Resource) (s s' : S)
      → docker.close_resource r s ≡ (ok tt, s')
      → owned s ≡ r ∷ rs
      → owned s' ≡ rs
  pub retry-Retried :
      (config : Config) (m : Exec S Resource) (s s' : S) (r : Result Resource)
      → docker.retry config m s ≡ (r, s')
      → Retried m s r s'

-- Where a start of a container leaves `owned`
abbrev pub Grown : {S : Type 0} → (S → List Resource) → S → Result Resource × S → Type 0
Grown owned s (ok r, s') = owned s' ≡ owned s ++ (r ∷ [])
Grown owned s (err e, s') = owned s' ≡ owned s
Grown owned s (panic, s') = Unit

module _ {S : Type 0} (owned : S → List Resource) where
  Grown-wrapped :
      (s : S) (o : Result Resource × S)
      → Grown owned s o
      → Grown owned s (handle o.0 (λ e. throw (wrapped e)) o.1)
  Grown-wrapped s (ok r, s') h = h
  Grown-wrapped s (err e, s') h = h
  Grown-wrapped s (panic, s') h = tt

  Grown-from :
      (s s₁ : S) (o : Result Resource × S) → owned s₁ ≡ owned s → Grown owned s₁ o → Grown owned s o
  Grown-from s s₁ (ok r, s') same h = h ∙ ap (λ l. l ++ (r ∷ [])) same
  Grown-from s s₁ (err e, s') same h = h ∙ same
  Grown-from s s₁ (panic, s') same h = tt

  Grown-after :
      (s : S) (o : Result (Unit {0}) × S) (m : Exec S Resource)
      → owned o.1 ≡ owned s
      → ((s₁ : S) → Grown owned s₁ (m s₁))
      → Grown owned s (continue o.0 (λ u. m) o.1)
  Grown-after s (ok u, s₁) m same h = Grown-from s s₁ (m s₁) same (h s₁)
  Grown-after s (err e, s₁) m same h = same
  Grown-after s (panic, s₁) m same h = tt

module _ {S : Type 0} (docker : Docker S) (laws : OwnedLaws docker) where
  open laws use {owned}

  run-Grown : (options : RunOptions) (s : S) → Grown owned s (docker.run_with_options options s)
  run-Grown options s = grown (docker.run_with_options options s) refl
    where
      grown : (o : Result Resource × S) → docker.run_with_options options s ≡ o → Grown owned s o
      grown (ok r, s') is = laws.run-ok options s s' r is
      grown (err e, s') is = laws.run-err options s s' e is
      grown (panic, s') is = tt

  do_start_service-Grown :
      (options : RunOptions) (s : S) → Grown owned s (do_start_service docker options s)
  unfolding do_start_service
  do_start_service-Grown options s =
      Grown-after owned s (catch (docker.remove_container_by_name options.name) (λ e. return tt) s)
        _
        (catch-Keeps owned (docker.remove_container_by_name options.name) (λ e. return tt)
          (laws.remove-Keeps options.name) (λ e t. refl) s)
        (λ s₁. Grown-wrapped owned s₁ _ (run-Grown options s₁))

  Retried-Grown :
      (m : Exec S Resource) (s s' : S) (r : Result Resource)
      → ((s₁ : S) → Grown owned s₁ (m s₁))
      → Retried m s r s'
      → Grown owned s (r, s')
  Retried-Grown m s s' r h (last _ _ _ is) = subst (Grown owned s) is (h s)
  Retried-Grown m s s' r h (again e _ s₁ _ _ is rest) =
      Grown-from owned s s₁ (r, s') (subst (Grown owned s) is (h s))
        (Retried-Grown m s₁ s' r h rest)

  pub start_service-Grown :
      (config : Config) (options : RunOptions) (s : S)
      → Grown owned s (start_service docker config options s)
  unfolding start_service
  start_service-Grown config options s =
      let m = do_start_service docker options in
      let o = docker.retry config m s in
      Grown-wrapped owned s o (
        Retried-Grown m s o.1 o.0 (do_start_service-Grown options)
          (laws.retry-Retried config m s o.1 o.0 refl))

  rand_string-Keeps : (n : ℕ) → Keeps owned (rand_string docker n)
  unfolding rand_string
  rand_string-Keeps zero s = refl
  rand_string-Keeps (suc n) s =
      let then_rest : ℕ → Exec S String = λ i. lift (rune_at letter_runes i) >>= λ c.
      rand_string docker n >>= λ rest. return (String.◌∷◌ c rest) in
      >>=-Keeps owned (docker.intn (count letter_runes)) then_rest
        (laws.intn-Keeps (count letter_runes))
        (λ i.
          >>=-Keeps owned (lift (rune_at letter_runes i))
            (λ c. rand_string docker n >>= λ rest. return (String.◌∷◌ c rest)) (λ t. refl)
            (λ c.
              >>=-Keeps owned (rand_string docker n) (λ rest. return (String.◌∷◌ c rest))
                (rand_string-Keeps n) (λ rest t. refl)))
        s

  suffix-Keeps : (config : Config) → Keeps owned (suffix docker config)
  unfolding suffix
  suffix-Keeps config s = elim (Bool-cases config.service_name_random_suffix) [
    | inl random ↦
        let n = config.service_name_random_suffix_length in
        rw random (
          >>=-Keeps owned (rand_string docker n) (λ r. return ("-" <> r)) (rand_string-Keeps n)
            (λ r t. refl) s)
    | inr plain ↦ rw plain
  ]

  pub docker_string-Keeps :
      (env : Environment S) (name : String) → Keeps owned (docker_string docker env name)
  unfolding docker_string
  docker_string-Keeps env name =
      >>=-Keeps owned (suffix docker env.config)
        (λ r. return (with_dashes env.name <> ("-" <> (name <> r)))) (suffix-Keeps env.config)
        (λ r t. refl)

-- ===== src/Container/Started.antt =====
-- `Run` of src/pkg/container/container.go keeps every resource that it has started.
use allezon.Base.{
  ℕ, zero, suc, ◌≡◌, inl, inr, refl, sym, ap, ◌∙◌, String, Option, none, some, List, [], ◌∷◌, ◌++◌,
  Error, Result, ok, err, panic, wrapped, All,
}
use allezon.Base.Exec.{Exec, ◌>>=◌, ◌>>◌, return, throw, catch, wrapping, handle, continue}
use allezon.Container.{
  RunOptions, Resource, Service, OnServiceCreated, Environment, Docker, docker_string,
}
use allezon.Container.Running.{
  update_at, with_options, networks_of, outside, of_env, change, run_callback, start_service,
  keep_resource, named, started, add_service, add_services, add_started, add_named, set_options,
  set_network, create_network, connect, make_network, all_services, run,
}
use allezon.Container.Closing.{handles}
use allezon.Container.Invariant.{
  Preserves, Fine, >>=-Preserves, catch-Preserves, wrapping-Preserves,
}
use allezon.Container.Tracked.{OwnedLaws, Grown, start_service-Grown, docker_string-Keeps}
use allezon.Base.Keeps.{Keeps, >>=-Keeps, wrapping-Keeps}

handles-append :
    (rs : List (Option Resource)) (r : Resource)
    → handles (rs ++ (some r ∷ [])) ≡ handles rs ++ (r ∷ [])
handles-append [] r = refl
handles-append (none ∷ rs) r = handles-append rs r
handles-append (some x ∷ rs) r = ap (λ l. x ∷ l) (handles-append rs r)

All-update_at :
    {A : Type 0} (P : A → Type 0) (i : ℕ) (f : A → A) (xs : List A)
    → ((x : A) → P x → P (f x))
    → All P xs
    → All P (update_at i f xs)
All-update_at P i f [] h k = tt
All-update_at P zero f (x ∷ xs) h k = (h x k.0, k.1)
All-update_at P (suc i) f (x ∷ xs) h k = (k.0, All-update_at P i f xs h k.1)

module _ {S : Type 0} (docker : Docker S) (laws : OwnedLaws docker) where
  open laws use {owned}

  -- The callback of a service leaves `owned` as it is.
  abbrev pub IsPlain : Service (OnServiceCreated S) → Type 0
  IsPlain service =
      (f : OnServiceCreated S)
      → service.on_services_created ≡ some f
      → (c : Service (Unit {0})) → Keeps owned (f c)

  -- The resources that are owned are those of the environment.
  abbrev pub Tracks : Environment S × S → Type 0
  Tracks (env, s) = (owned s ≡ handles env.resources) × All IsPlain env.services

  outside-Preserves : {A : Type 0} (m : Exec S A) → Keeps owned m → Preserves Tracks (outside m)
  outside-Preserves m h (env, s) (same, plain) = inr (h s ∙ same, plain)

  of_env-Preserves :
      {A : Type 0} (f : Environment S → Exec S A)
      → ((env : Environment S) → Keeps owned (f env))
      → Preserves Tracks (of_env f)
  of_env-Preserves f h (env, s) (same, plain) = inr (h env s ∙ same, plain)

  keep-Fine :
      (i : ℕ) (env : Environment S) (s : S) (o : Result Resource × S)
      → Tracks (env, s)
      → Grown owned s o
      → Fine Tracks
          (continue o.0 (λ r. change (keep_resource docker i r) >>= λ u. return r) (env, o.1))
  unfolding keep_resource
  keep-Fine i env s (ok r, s') (same, plain) grown = inr (
    grown ∙ ap (λ l. l ++ (r ∷ [])) same ∙ sym (handles-append env.resources r),
    All-update_at IsPlain i _ env.services (λ service h. h) plain,
  )
  keep-Fine i env s (err e, s') (same, plain) grown = inr (grown ∙ same, plain)
  keep-Fine i env s (panic, s') h grown = inl refl

  wrapped-Grown :
      (s : S) (o : Result Resource × S)
      → Grown owned s o
      → Grown owned s (handle o.0 (λ e. throw (wrapped e)) o.1)
  wrapped-Grown s (ok r, s') h = h
  wrapped-Grown s (err e, s') h = h
  wrapped-Grown s (panic, s') h = tt

  started-Preserves : (i : ℕ) (options : RunOptions) → Preserves Tracks (started docker i options)
  unfolding started
  started-Preserves i options (env, s) h =
      keep-Fine i env s (wrapping (start_service docker env.config options) s) h (
        wrapped-Grown s (start_service docker env.config options s)
          (start_service-Grown docker laws env.config options s))

  run_callback-Keeps :
      (callback : Option (OnServiceCreated S)) (name : String) (options : RunOptions) (r : Resource)
      → ((f : OnServiceCreated S)
          → callback ≡ some f
          → (c : Service (Unit {0})) → Keeps owned (f c))
      → Keeps owned (run_callback docker callback name options r)
  run_callback-Keeps none name options r h s = refl
  run_callback-Keeps (some f) name options r h s =
      let c : Service (Unit {0}) = record {
        name = name;
        options = options;
        on_services_created = none;
        resource = some r;
      } in
      wrapping-Keeps owned (f c) (h f refl c) s

  named-Keeps :
      (service : Service (OnServiceCreated S)) (env : Environment S)
      → Keeps owned (named docker service env)
  unfolding named
  named-Keeps service env =
      >>=-Keeps owned (docker_string docker env service.name)
        (λ name. return (record service.options {
          networks = networks_of env.network service.options.networks;
          name = name;
        }))
        (docker_string-Keeps docker laws env service.name) (λ name s. refl)

  add_service-Preserves :
      (i : ℕ) (service : Service (OnServiceCreated S))
      → IsPlain service
      → Preserves Tracks (add_service docker i service)
  unfolding add_service
  add_service-Preserves i service plain =
      >>=-Preserves Tracks (of_env (named docker service)) (add_named docker i service)
        (of_env-Preserves (named docker service) (named-Keeps service))
        (λ options.
          >>=-Preserves Tracks (change (set_options docker i options))
            (λ u. started docker i options >>= add_started docker service options)
            (λ (env, s) h. inr (
              h.0,
              All-update_at IsPlain i (with_options docker options) env.services (λ x k. k) h.1,
            ))
            (λ u.
              >>=-Preserves Tracks (started docker i options) (add_started docker service options)
                (started-Preserves i options)
                (λ r.
                  outside-Preserves
                    (run_callback docker service.on_services_created service.name options r)
                    (run_callback-Keeps service.on_services_created service.name options r plain))))

  add_services-Preserves :
      (i : ℕ) (services : List (Service (OnServiceCreated S)))
      → All IsPlain services
      → Preserves Tracks (add_services docker i services)
  unfolding add_services
  add_services-Preserves i [] plain x h = inr h
  add_services-Preserves i (service ∷ services) plain x h =
      >>=-Preserves Tracks (wrapping (add_service docker i service))
        (λ u. add_services docker (suc i) services)
        (wrapping-Preserves Tracks (add_service docker i service)
          (add_service-Preserves i service plain.0))
        (λ u. add_services-Preserves (suc i) services plain.1) x h

  create_network-Preserves : (name : String) → Preserves Tracks (create_network docker name)
  unfolding create_network
  create_network-Preserves name =
      let no_network : Error → Exec (Environment S × S) String =
        λ e. change (set_network docker none) >> throw (wrapped e) in
      >>=-Preserves Tracks (catch (outside (docker.create_network name)) no_network)
        (λ n. change (set_network docker (some n)))
        (catch-Preserves Tracks (outside (docker.create_network name)) no_network
          (outside-Preserves (docker.create_network name) (laws.create_network-Keeps name))
          (λ e x h. inr h))
        (λ n x h. inr h)

  connect-Keeps : Keeps owned (connect docker)
  connect-Keeps =
      >>=-Keeps owned (wrapping docker.new_logger)
        (λ u. wrapping docker.new_pool >> wrapping docker.ping)
        (wrapping-Keeps owned docker.new_logger laws.new_logger-Keeps)
        (λ u.
          >>=-Keeps owned (wrapping docker.new_pool) (λ v. wrapping docker.ping)
            (wrapping-Keeps owned docker.new_pool laws.new_pool-Keeps)
            (λ v. wrapping-Keeps owned docker.ping laws.ping-Keeps))

  pub run-Preserves : Preserves Tracks (run docker)
  unfolding run
  run-Preserves =
      >>=-Preserves Tracks (outside (connect docker))
        (λ u. make_network docker >> all_services docker)
        (outside-Preserves (connect docker) connect-Keeps)
        (λ u.
          >>=-Preserves Tracks (make_network docker) (λ v. all_services docker)
            (>>=-Preserves Tracks (of_env (λ env. docker_string docker env "network"))
              (create_network docker)
              (of_env-Preserves (λ env. docker_string docker env "network")
                (λ env. docker_string-Keeps docker laws env "network"))
              create_network-Preserves)
            (λ v (env, s) h. add_services-Preserves 0 env.services h.1 (env, s) h))

-- ===== src/Container/Running.antt =====
-- `Run` and `GetLogs` of src/pkg/container/container.go.
use allezon.Base.{
  ℕ, zero, suc, String, Option, none, some, List, [], ◌∷◌, ◌++◌, ok, panic, failed, wrapped,
}
use allezon.Base.Exec.{Exec, ◌>>=◌, ◌>>◌, return, lift, throw, catch, wrapping}
use allezon.Container.{
  Config, RunOptions, Resource, Service, OnServiceCreated, Environment, Docker, docker_string,
  get_service,
}

-- What leaves the environment as it is
abbrev pub outside : {S A : Type 0} → Exec S A → Exec (Environment S × S) A
outside m (env, s) = let o = m s in (o.0, (env, o.1))

abbrev pub of_env : {S A : Type 0} → (Environment S → Exec S A) → Exec (Environment S × S) A
of_env f (env, s) = let o = f env s in (o.0, (env, o.1))

abbrev pub change :
    {S : Type 0} → (Environment S → Environment S) → Exec (Environment S × S) (Unit {0})
change f (env, s) = (ok tt, (f env, s))

-- The services are shared by pointers: a change of one is seen in the list of the environment.
abbrev pub update_at : {A : Type 0} → ℕ → (A → A) → List A → List A
update_at i f [] = []
update_at zero f (x ∷ xs) = f x ∷ xs
update_at (suc i) f (x ∷ xs) = x ∷ update_at i f xs

abbrev pub networks_of : Option String → List String → List String
networks_of none networks = networks
networks_of (some n) networks = n ∷ []

module _ {S : Type 0} (docker : Docker S) where
  -- The error of the removal is logged.
  unfoldable pub do_start_service : RunOptions → Exec S Resource
  do_start_service options =
      catch (docker.remove_container_by_name options.name) (λ e. return tt)
      >> wrapping (docker.run_with_options options)

  unfoldable pub start_service : Config → RunOptions → Exec S Resource
  start_service config options = wrapping (docker.retry config (do_start_service options))

  abbrev pub with_options : RunOptions → Service (OnServiceCreated S) → Service (OnServiceCreated S)
  with_options options service = record service { options = options }

  -- `env.resources = append(env.resources, r)` and `service.Resource = r`
  unfoldable pub keep_resource : ℕ → Resource → Environment S → Environment S
  keep_resource i r env = record env {
    resources = env.resources ++ (some r ∷ []);
    services = update_at i (λ service. record service { resource = some r }) env.services;
  }

  abbrev pub run_callback :
      Option (OnServiceCreated S) → String → RunOptions → Resource → Exec S (Unit {0})
  run_callback none name options r = return tt
  run_callback (some f) name options r =
      wrapping (
        f (record {
          name = name;
          options = options;
          on_services_created = none;
          resource = some r;
        }))

  -- The options that a service is started with
  unfoldable pub named : Service (OnServiceCreated S) → Environment S → Exec S RunOptions
  named service env = docker_string docker env service.name >>= λ name.
      return (record service.options {
        networks = networks_of env.network service.options.networks;
        name = name;
      })

  unfoldable pub started : ℕ → RunOptions → Exec (Environment S × S) Resource
  started i options = of_env (λ env. wrapping (start_service env.config options)) >>= λ r.
      change (keep_resource i r) >>= λ u. return r

  abbrev pub set_options : ℕ → RunOptions → Environment S → Environment S
  set_options i options env = record env {
    services = update_at i (with_options options) env.services;
  }

  abbrev pub add_started :
      Service (OnServiceCreated S) → RunOptions → Resource → Exec (Environment S × S) (Unit {0})
  add_started service options r =
      outside (run_callback service.on_services_created service.name options r)

  abbrev pub add_named :
      ℕ → Service (OnServiceCreated S) → RunOptions → Exec (Environment S × S) (Unit {0})
  add_named i service options =
      change (set_options i options) >> (started i options >>= add_started service options)

  unfoldable pub add_service :
      ℕ → Service (OnServiceCreated S) → Exec (Environment S × S) (Unit {0})
  unfolding named started
  add_service i service = of_env (named service) >>= add_named i service

  -- The loop of `Run`
  unfoldable pub add_services :
      ℕ → List (Service (OnServiceCreated S)) → Exec (Environment S × S) (Unit {0})
  unfolding add_service
  add_services i [] = return tt
  add_services i (service ∷ services) =
      wrapping (add_service i service) >> add_services (suc i) services

  abbrev pub set_network : Option String → Environment S → Environment S
  set_network n env = record env { network = n }

  -- `env.network, err = env.Pool.CreateNetwork(…)`
  unfoldable pub create_network : String → Exec (Environment S × S) (Unit {0})
  create_network name =
      catch (outside (docker.create_network name))
        (λ e. change (set_network none) >> throw (wrapped e))
      >>= λ n. change (set_network (some n))

  abbrev pub make_network : Exec (Environment S × S) (Unit {0})
  make_network = of_env (λ env. docker_string docker env "network") >>= create_network

  abbrev pub all_services : Exec (Environment S × S) (Unit {0})
  all_services (env, s) = add_services 0 env.services (env, s)

  abbrev pub connect : Exec S (Unit {0})
  connect = wrapping docker.new_logger >> (wrapping docker.new_pool >> wrapping docker.ping)

  unfoldable pub run : Exec (Environment S × S) (Unit {0})
  unfolding create_network add_services
  run = outside connect >> (make_network >> all_services)

  abbrev pub logs_of : Option Resource → Exec S (String × String)
  logs_of none = lift panic
  logs_of (some r) = wrapping (docker.logs r.id)

  abbrev pub logs_of_service : Option (Service (OnServiceCreated S)) → Exec S (String × String)
  logs_of_service none = throw failed
  logs_of_service (some service) = logs_of service.resource

  unfoldable pub get_logs : String → Exec (Environment S × S) (String × String)
  get_logs service_name = of_env (λ env. logs_of_service (get_service env.services service_name))

-- ===== src/Tests/Contained.antt =====
-- An environment of two containers in memory.
use allezon.Base.{
  ◌≡◌, refl, sym, ap, ◌∙◌, Option, none, some, List, [], ◌∷◌, ◌++◌, Error, Result, ok, err, All,
}
use allezon.Base.Exec.{return}
use allezon.Container.{
  RunOptions, Resource, Service, OnServiceCreated, Environment, Docker, new_environment, new_config,
  exposed_host_port, docker_string, suffix, rand_string,
}
use allezon.Container.Running.{
  run, add_services, add_service, named, started, start_service, do_start_service, keep_resource,
  create_network,
}
use allezon.Container.Closing.{close, close_resources}
use allezon.Container.Tracked.{OwnedLaws, last}
use allezon.Base.Keeps.{Keeps}
use allezon.Container.Torn.{run-close}
use allezon.Container.Started.{IsPlain}
use allezon.Container.Waiting.{Tools}
use allezon.Container.Services.{id_getter_service, api_service}

-- The resources that have been handed out and not closed
abbrev Open : Type 0
Open = List Resource

abbrev made : RunOptions → Resource
made options = record { id = options.name; get_host_port = λ port. "localhost:1" }

abbrev rest_of : Open → Open
rest_of [] = []
rest_of (r ∷ rs) = rs

abbrev docker : Docker Open
docker = record {
  new_logger = return tt;
  new_pool = return tt;
  ping = return tt;
  create_network = λ name. return name;
  remove_container_by_name = λ name. return tt;
  run_with_options = λ options s. (ok (made options), s ++ (made options ∷ []));
  logs = λ id. return ("", "");
  close_resource = λ r s. (ok tt, rest_of s);
  close_network = λ n. return tt;
  intn = λ n. return 0;
  retry = λ config m. m;
}

pub added :
    (o : RunOptions) (s s' : Open) (r : Resource)
    → ◌≡◌ {A = Result Resource × Open} (ok (made o), s ++ (made o ∷ [])) (ok r, s')
    → s' ≡ s ++ (r ∷ [])
added o s s' r h =
    let q : made o ≡ r = cc in
    ap (λ (x : Result Resource × Open). x.1) (sym h) ∙ ap (λ x. s ++ (x ∷ [])) q

pub not_failed :
    (r : Resource) (e : Error) (s s' : Open)
    → ◌≡◌ {A = Result Resource × Open} (ok r, s) (err e, s')
    → ⊥
not_failed r e s s' h = cc

unfoldable owned_laws : OwnedLaws docker
owned_laws = record {
  owned = λ s. s;
  new_logger-Keeps = λ s. refl;
  new_pool-Keeps = λ s. refl;
  ping-Keeps = λ s. refl;
  create_network-Keeps = λ name s. refl;
  close_network-Keeps = λ n s. refl;
  remove-Keeps = λ name s. refl;
  intn-Keeps = λ n s. refl;
  run-ok = λ o s s' r h. added o s s' r h;
  run-err = λ o s s' e h. absurd (not_failed (made o) e (s ++ (made o ∷ [])) s' h);
  close-ok = λ r rs s s' h k. ap (λ (x : Result (Unit {0}) × Open). x.1) (sym h) ∙ ap rest_of k;
  retry-Retried = λ config m s s' r h. last s s' r h;
}

abbrev tools : Tools Open
tools = record {
  getwd = return "/home/Allezon/src";
  make = λ target dir. return tt;
  http_get = λ url. return 200;
  retry = λ m. m;
  new_hosts = λ address. return [];
  new_aerospike_client = λ hosts. return tt;
  new_kafka_client = λ addresses. return tt;
  refresh_metadata = return tt;
  close_kafka_client = return tt;
}

-- A callback that finds its service ready at once
abbrev ready : OnServiceCreated Open
ready c = return tt

abbrev environment : Environment Open
environment =
    new_environment "test/all"
      (record (id_getter_service tools) { on_services_created = some ready }
        ∷ record (api_service tools) { on_services_created = none }
        ∷ [])
      none

abbrev running : Environment Open × Open
running = (run docker (environment, [])).1

ran : run docker (environment, []) ≡ (ok tt, running)
unfolding run add_services add_service named started start_service do_start_service keep_resource
    create_network new_environment new_config docker_string suffix rand_string id_getter_service
    api_service exposed_host_port
ran = refl

-- What a callback leaves
abbrev left_by : Option (OnServiceCreated Open) → Service (Unit {0}) → Open → Open
left_by none c s = s
left_by (some f) c s = (f c s).1

ready-IsPlain :
    (f : OnServiceCreated Open)
    → some ready ≡ some f
    → (c : Service (Unit {0})) → Keeps (λ s. s) (f c)
ready-IsPlain f h c s = ap (λ o. left_by o c s) (sym h)

nothing-IsPlain :
    (f : OnServiceCreated Open) → none ≡ some f → (c : Service (Unit {0})) → Keeps (λ s. s) (f c)
nothing-IsPlain f h c s = ap (λ o. left_by o c s) (sym h)

environment-IsPlain : All (IsPlain docker owned_laws) environment.services
unfolding new_environment id_getter_service api_service owned_laws
environment-IsPlain = (ready-IsPlain, (nothing-IsPlain, tt))

abbrev torn : Open
torn = (close docker running.0 running.1).1

closed : close docker running.0 running.1 ≡ (ok tt, torn)
unfolding close close_resources run add_services add_service named started start_service
    do_start_service keep_resource create_network new_environment new_config docker_string suffix
    rand_string id_getter_service api_service exposed_host_port
closed = refl

run-close_example : owned_laws.owned torn ≡ []
unfolding owned_laws new_environment
run-close_example =
    run-close docker owned_laws (λ r s h. cc) (λ n s h. cc) environment running.0 [] running.1 torn
      (ok tt) refl environment-IsPlain ran (λ h. cc) closed

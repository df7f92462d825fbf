-- ===== src/Programs/Running.antt =====
-- `main` of src/cmd/api/main.go: when it returns, and how it ends.
use allezon.Base.{ℕ, ◌≡◌, ◌↔◌, ap, Bool, true, false, Result, ok, if◌then◌else◌}
use allezon.Base.Exec.{Exec, return, lift, >>=-ok}
use allezon.IdClient.{ClientState, new_client}
use allezon.Api.{Server}
use allezon.Config.{ApiConfig, new_api_config}
use allezon.Config.Field.{Viper}
use allezon.Programs.{Outside, or_fatal, new_logger}
use allezon.Programs.Api.{producer, db_client, prepare, start, serve, main}
use allezon.Programs.Starting.{
  or_fatal_iff, NoError, or_fatal-NoError, >>=-NoError, Started, start-Started, Started-start,
}

module _ {S H V : Type 0} (outside : Outside S H) (viper : Viper V)
    (engine : Server (ClientState S) → ℕ → Exec (ClientState S) (Unit {0})) where
  served_ok :
      (o : Result (Unit {0}) × ClientState S) (s' : S)
      → ◌≡◌ {A = Result (Unit {0}) × S} (o.0, o.1.remote) (ok tt, s')
      → (t : ClientState S) × (o ≡ (ok tt, t)) × (t.remote ≡ s')
  served_ok o s' h = (o.1, ap (λ p. (p.0, o.1)) h, ap (λ p. p.1) h)

  -- The main function of the API service returns exactly when the level of the log is known, the
  -- topic is initialized, the producer and both database clients are opened in this order, each
  -- unless its null client is asked for, and the server made of them, with an empty cache of ids,
  -- is run on the configured port and returns no error.
  pub main_iff :
      (v : V) (conf : ApiConfig) (s s' : S)
      → new_api_config viper v ≡ ok conf
      → (main outside viper engine v s ≡ (ok tt, s')) ↔ (
          (server : Server (ClientState S)) × (s₁ : S) × (t : ClientState S) × Started outside viper
            conf s s₁ server
          × (engine server conf.port (new_client (outside.transport conf.id_getter_address) s₁)
              ≡ (ok tt, t))
          × (t.remote ≡ s'))
  unfolding main
  main_iff v conf s s' read = (
    λ h.
        let (server, s₁, started, ran) =
          >>=-ok (start outside viper conf) (serve outside viper engine conf) s tt s'
            (rw read at h) in
        let first = new_client (outside.transport conf.id_getter_address) s₁ in
        let (t, served, left) = served_ok (or_fatal (engine server conf.port) first) s' ran in
        (
          server,
          s₁,
          t,
          start-Started outside viper conf s s₁ server started,
          (or_fatal_iff (engine server conf.port) first tt t).0 served,
          left,
        ),
    λ (server, s₁, t, started, served, left).
        let opened = Started-start outside viper conf s s₁ server started in
        rw (read, opened, served, left),
  )

  if-NoError :
      {A : Type 0} (b : Bool) (a : A) (m : Exec S A) → NoError (if b then return a else or_fatal m)
  if-NoError true a m s e = λ h. cc
  if-NoError false a m s e = or_fatal-NoError m s e

  prepare-NoError : (conf : ApiConfig) → NoError (prepare outside viper conf)
  unfolding prepare
  prepare-NoError conf =
      >>=-NoError (or_fatal (new_logger outside conf.log_level)) _
        (or_fatal-NoError (new_logger outside conf.log_level)) (λ u. or_fatal-NoError _)

  start-NoError : (conf : ApiConfig) → NoError (start outside viper conf)
  unfolding start producer db_client
  start-NoError conf = >>=-NoError (prepare outside viper conf) _ (prepare-NoError conf) (λ u.
      >>=-NoError (producer outside viper conf) _ (if-NoError conf.kafka_null_producer _ _) (λ send.
        >>=-NoError (db_client outside viper conf.db_null_client conf.db_profiles_addresses) _
          (if-NoError conf.db_null_client _ _)
          (λ profiles.
            >>=-NoError (db_client outside viper conf.db_null_client conf.db_aggregates_addresses) _
              (if-NoError conf.db_null_client _ _) (λ aggregates s e h. cc))))

  -- No error passes `main`: whatever fails ends the process.
  pub main-NoError : (v : V) → NoError (main outside viper engine v)
  unfolding main
  main-NoError v =
      >>=-NoError (or_fatal (lift (new_api_config viper v))) _
        (or_fatal-NoError (lift (new_api_config viper v)))
        (λ conf.
          >>=-NoError (start outside viper conf) _ (start-NoError conf)
            (λ server s. or_fatal-NoError (engine server conf.port) _))

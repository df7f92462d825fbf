-- ===== src/Programs/Starting.antt =====
-- When the API service of src/cmd/api/main.go starts, and on what.
use allezon.Base.{
  ◌≡◌, ◌≢◌, ◌↔◌, refl, sym, ap, subst, ◌∙◌, Bool, true, false, Error, Result, ok, err, panic, wrap,
  if◌then◌else◌,
}
use allezon.Base.Exec.{
  Exec, ◌>>=◌, ◌>>◌, continue, return, lift, handle, >>=-ok, lift-ok, return-ok,
}
use allezon.Types.{UserTag}
use allezon.Db.{Client}
use allezon.IdClient.{ClientState}
use allezon.Messaging.{null_send}
use allezon.Messaging.Topic.{TopicDetail, initialize}
use allezon.Api.{Server}
use allezon.Config.{ApiConfig}
use allezon.Config.Field.{Viper}
use allezon.Programs.{Outside, or_fatal, new_logger, new_db_client, new_producer, null_db_client}
use allezon.Programs.Api.{producer, db_client, new_server, prepare, start}

module _ {S A : Type 0} where
  fatal_ok :
      (o : Result A × S) (a : A) (s' : S)
      → handle o.0 (λ e. lift panic) o.1 ≡ (ok a, s')
      → o ≡ (ok a, s')
  fatal_ok (ok b, s) a s' h = h
  fatal_ok (err e, s) a s' h = cc
  fatal_ok (panic, s) a s' h = cc

  pub or_fatal_iff :
      (m : Exec S A) (s : S) (a : A) (s' : S) → (or_fatal m s ≡ (ok a, s')) ↔ (m s ≡ (ok a, s'))
  or_fatal_iff m s a s' = (fatal_ok (m s) a s', λ h. rw h)

  -- A null client if it is asked for, and otherwise one that has been opened
  unfoldable pub Chosen : Bool → A → Exec S A → A → S → S → Type 0
  Chosen true null_one opened a s s' = (a ≡ null_one) × (s' ≡ s)
  Chosen false null_one opened a s s' = opened s ≡ (ok a, s')

  null_or_opened_iff :
      (null : Bool) (null_one : A) (opened : Exec S A) (a : A) (s s' : S)
      → ((if null then return null_one else or_fatal opened) s ≡ (ok a, s'))
        ↔ Chosen null null_one opened a s s'
  unfolding Chosen
  null_or_opened_iff true null_one opened a s s' = (λ h. (cc, cc), λ h. cc)
  null_or_opened_iff false null_one opened a s s' = or_fatal_iff opened s a s'

  never_err : (o : Result A × S) (e : Error) → (handle o.0 (λ e. lift panic) o.1).0 ≢ err e
  never_err (ok a, s) e h = cc
  never_err (err d, s) e h = cc
  never_err (panic, s) e h = cc

  -- An action that returns or ends the process
  abbrev pub NoError : Exec S A → Type 0
  NoError m = (s : S) (e : Error) → (m s).0 ≢ err e

  pub or_fatal-NoError : (m : Exec S A) → NoError (or_fatal m)
  or_fatal-NoError m s e = never_err (m s) e

module _ {S A B : Type 0} where
  continue-NoError :
      (o : Result A × S) (f : A → Exec S B) (e : Error)
      → (o.0 ≢ err e)
      → ((a : A) → NoError (f a))
      → (continue o.0 f o.1).0 ≢ err e
  continue-NoError (ok a, s) f e h k = k a s e
  continue-NoError (err d, s) f e h k = λ p. let same : d ≡ e = cc in h (ap err same)
  continue-NoError (panic, s) f e h k = λ p. cc

  pub >>=-NoError :
      (m : Exec S A) (f : A → Exec S B) → NoError m → ((a : A) → NoError (f a)) → NoError (m >>= f)
  >>=-NoError m f h k s e = continue-NoError (m s) f e (h s e) k

module _ {S H V : Type 0} (outside : Outside S H) (viper : Viper V) where
  -- What has been opened, one after the other, when the server is run
  pub record Started (conf : ApiConfig) (s s' : S) (server : Server (ClientState S)) : Type 0 where
    pub level : outside.parse_level conf.log_level ≡ ok tt
    pub after_topic : S
    pub topic :
        initialize
          (outside.cluster_admin conf.kafka_addresses)
          (record {
            num_partitions = conf.kafka_num_partitions;
            replication_factor = conf.kafka_replication_factor;
          })
          s
        ≡ (ok tt, after_topic)
    pub send : UserTag → Exec S (Unit {0})
    pub after_send : S
    pub sender :
        Chosen conf.kafka_null_producer null_send
          (new_producer outside conf.kafka_addresses)
          send
          after_topic
          after_send
    pub profiles : Client S
    pub after_profiles : S
    pub profiles_db :
        Chosen conf.db_null_client null_db_client
          (new_db_client outside conf.db_profiles_addresses)
          profiles
          after_send
          after_profiles
    pub aggregates : Client S
    pub aggregates_db :
        Chosen conf.db_null_client null_db_client
          (new_db_client outside conf.db_aggregates_addresses)
          aggregates
          after_profiles
          s'
    pub is : server ≡ new_server outside viper conf send profiles aggregates

  level_ok : (o : Result (Unit {0})) → wrap o ≡ ok tt → o ≡ ok tt
  level_ok (ok u) h = refl
  level_ok (err e) h = cc
  level_ok panic h = cc

  pub start-Started :
      (conf : ApiConfig) (s s' : S) (server : Server (ClientState S))
      → start outside viper conf s ≡ (ok server, s')
      → Started conf s s' server
  unfolding start prepare producer db_client new_logger
  start-Started conf s s' server h =
      let details : TopicDetail = record {
        num_partitions = conf.kafka_num_partitions;
        replication_factor = conf.kafka_replication_factor;
      } in
      let log : Exec S (Unit {0}) = or_fatal (new_logger outside conf.log_level) in
      let topic : Exec S (Unit {0}) =
        or_fatal (initialize (outside.cluster_admin conf.kafka_addresses) details) in
      let done : (UserTag → Exec S (Unit {0}))
          → Client S
          → Client S
          → Exec S (Server (ClientState S)) =
        λ send profiles aggregates.
          return (new_server outside viper conf send profiles aggregates) in
      let fourth : (UserTag → Exec S (Unit {0})) → Client S → Exec S (Server (ClientState S)) =
        λ send profiles.
          db_client outside viper conf.db_null_client conf.db_aggregates_addresses
          >>= done send profiles in
      let third : (UserTag → Exec S (Unit {0})) → Exec S (Server (ClientState S)) = λ send.
        db_client outside viper conf.db_null_client conf.db_profiles_addresses >>= fourth send in
      let second : Unit {0} → Exec S (Server (ClientState S)) =
        λ u. producer outside viper conf >>= third in
      let (u, s₁, prepared, h₁) = >>=-ok (log >> topic) second s server s' h in
      let (u', s₀, logged, opened) = >>=-ok log (λ u. topic) s tt s₁ prepared in
      let (level, same) =
        lift-ok (wrap (outside.parse_level conf.log_level)) s tt s₀
          ((or_fatal_iff (new_logger outside conf.log_level) s tt s₀).0 logged) in
      let (send, s₂, sending, h₂) = >>=-ok (producer outside viper conf) third s₁ server s' h₁ in
      let (profiles, s₃, first, h₃) =
        >>=-ok (db_client outside viper conf.db_null_client conf.db_profiles_addresses)
          (fourth send) s₂ server s' h₂ in
      let (aggregates, s₄, last, h₄) =
        >>=-ok (db_client outside viper conf.db_null_client conf.db_aggregates_addresses)
          (done send profiles) s₃ server s' h₃ in
      let (is, as_before) =
        return-ok (new_server outside viper conf send profiles aggregates) server s₄ s' h₄ in
      record {
        level = level_ok (outside.parse_level conf.log_level) level;
        after_topic = s₁;
        topic =
            ap (initialize (outside.cluster_admin conf.kafka_addresses) details) (sym same)
            ∙ (or_fatal_iff (initialize (outside.cluster_admin conf.kafka_addresses) details) s₀ tt
                  s₁).0
                opened;
        send = send;
        after_send = s₂;
        sender =
            (null_or_opened_iff conf.kafka_null_producer null_send
                (new_producer outside conf.kafka_addresses) send s₁ s₂).0
              sending;
        profiles = profiles;
        after_profiles = s₃;
        profiles_db =
            (null_or_opened_iff conf.db_null_client null_db_client
                (new_db_client outside conf.db_profiles_addresses) profiles s₂ s₃).0
              first;
        aggregates = aggregates;
        aggregates_db =
            subst
              (Chosen conf.db_null_client null_db_client
                (new_db_client outside conf.db_aggregates_addresses) aggregates s₃)
              (sym as_before)
              ((null_or_opened_iff conf.db_null_client null_db_client
                  (new_db_client outside conf.db_aggregates_addresses) aggregates s₃ s₄).0
                last);
        is = sym is;
      }

  pub Started-start :
      (conf : ApiConfig) (s s' : S) (server : Server (ClientState S))
      → Started conf s s' server
      → start outside viper conf s ≡ (ok server, s')
  unfolding start prepare producer db_client new_logger
  Started-start conf s s' server h =
      let sending =
        (null_or_opened_iff conf.kafka_null_producer null_send
            (new_producer outside conf.kafka_addresses) h.send h.after_topic h.after_send).1
          h.sender in
      let first =
        (null_or_opened_iff conf.db_null_client null_db_client
            (new_db_client outside conf.db_profiles_addresses) h.profiles h.after_send
            h.after_profiles).1
          h.profiles_db in
      let last =
        (null_or_opened_iff conf.db_null_client null_db_client
            (new_db_client outside conf.db_aggregates_addresses) h.aggregates h.after_profiles s').1
          h.aggregates_db in
      rw (h.level, h.topic, sending, first, last) (ap (λ server. (ok server, s')) (sym h.is))

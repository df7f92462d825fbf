-- ===== src/Programs/IdGetter.antt =====
-- src/cmd/id_getter/main.go, `NewClientFromAddresses` of db/db.go, and `New` and `Run` of
-- server/server.go.
use allezon.Base.{ℕ, String, [], List, Result}
use allezon.Base.Exec.{Exec, ◌>>=◌, ◌>>◌, return, lift}
use allezon.IdGetter.{ElementsClient}
use allezon.IdGetter.Elements.{elements_client}
use allezon.IdGetter.Server.{Server}
use allezon.Config.{IdGetterConfig, new_id_getter_config}
use allezon.Config.Field.{Viper}
use allezon.Programs.{Outside, or_fatal, new_logger}

-- `server.New`: a server starts with an empty cache.
unfoldable pub new_server : {S : Type 0} → S → Server S
new_server s = record { store = s; ids_cache = [] }

module _ {S H V : Type 0} (outside : Outside S H) (viper : Viper V) where
  unfoldable pub new_elements_client : List String → Exec S (ElementsClient S)
  new_elements_client addresses = do
    hosts ← lift (outside.new_hosts addresses)
    database ← outside.new_client_with_hosts hosts
    return (elements_client database)

  unfoldable pub start : IdGetterConfig → Exec S (ElementsClient S)
  unfolding new_elements_client
  start conf =
      or_fatal (new_logger outside conf.log_level)
      >> or_fatal (new_elements_client conf.db_addresses)

  -- `engine` is `Run` of gin's engine with the routes of the server, on a port.
  module _ (engine : ElementsClient S → ℕ → Exec (Server S) (Unit {0})) where
    abbrev pub serve : IdGetterConfig → ElementsClient S → S → Result (Unit {0}) × S
    serve conf db s =
        let served = or_fatal (engine db conf.port) (new_server s) in (served.0, served.1.store)

    unfoldable pub main : V → Exec S (Unit {0})
    unfolding start
    main v = do
      conf ← or_fatal (lift (new_id_getter_config viper v))
      db ← start conf
      serve conf db

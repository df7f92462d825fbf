-- ===== src/Api.antt =====
-- src/cmd/api/server: the handlers of the API service, with the state `S` of what stands behind its
-- clients. Binding of requests (gin and its validator) is a parameter of each handler.
pub mod TimeRange
pub mod Profiles
pub mod Requested
pub mod Aggregates
pub mod UserTags
pub mod Routing
use allezon.Base.{ℕ, String, Bool}
use allezon.Base.Exec.{Exec}
use allezon.Types.{UserTag}
use allezon.Db.{Client}
use allezon.Dto.{TimeText}
use allezon.IdClient

-- The fields of `server` that the handlers use; `time_text` is package time's.
pub record Server (S : Type 0) : Type 0 where
  pub time_text : TimeText
  pub send : UserTag → Exec S (Unit {0})
  pub profiles_db : Client S
  pub aggregates_db : Client S
  pub id_getter : IdClient.Client S

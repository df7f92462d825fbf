-- ===== src/IdGetter.antt =====
-- src/cmd/id_getter: the service that numbers the elements of collections. `Elements` is db/db.go,
-- `Server` is server/server.go, `Handler` its handler; the other children are
-- about the ids it gives.
pub mod Elements
pub mod Server
pub mod Assigned
pub mod Caching
pub mod Stable
pub mod Restart
pub mod Handler
pub mod Concurrent
pub mod Listed
pub mod Shown
use allezon.Base.{ℕ, suc, String, Bool, Option, none, some, List, [], ◌∷◌, str_eq, if◌then◌else◌}
use allezon.Base.Exec.{Exec}

-- api/getId.go
abbrev pub get_id_url : String
get_id_url = "/get_id"

pub record GetIdRequest : Type 0 where
  pub collection_name : String
  pub element : String
  pub create_missing : Bool

pub record GetIdResponse : Type 0 where
  pub id : ℕ

-- The interface `Client` of db/db.go; `S` is the state of the database.
pub record ElementsClient (S : Type 0) : Type 0 where
  pub get_elements : String → Exec S (List String)
  pub append_element : String → String → Exec S ℕ

abbrev pub succ_option : Option ℕ → Option ℕ
succ_option none = none
succ_option (some n) = some (suc n)

-- `slices.Index(list, element)`, where `none` is -1
unfoldable pub index : String → List String → Option ℕ
index e [] = none
index e (x ∷ xs) = if str_eq x e then some 0 else succ_option (index e xs)

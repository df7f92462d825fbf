-- ===== src/Http.antt =====
-- What a gin handler leaves behind: a JSON body with its status, a bare status, or an abort. A
-- panic is turned into status 500 by the recovery middleware (github.com/gin-contrib/zap).
use allezon.Base.{ℕ, String, List, [], ◌∷◌, Result, ok, err, panic}
use allezon.Base.Exec.{Exec, return}

pub data Response {ℓ} (A : Type ℓ) : Type ℓ where
  -- `c.JSON(code, body)`
  json : ℕ → A → Response A
  -- `c.Status(code)`
  status : ℕ → Response A
  -- `c.AbortWithError(code, err)`
  aborted : ℕ → Response A

abbrev pub status_ok : ℕ
status_ok = 200

abbrev pub status_no_content : ℕ
status_no_content = 204

abbrev pub status_bad_request : ℕ
status_bad_request = 400

abbrev pub status_internal_server_error : ℕ
status_internal_server_error = 500

module _ {ℓ κ} {S : Type ℓ} {A B : Type κ} where
  abbrev pub go_on : Result A → ℕ → (A → Exec S (Response B)) → S → Result (Response B) × S
  go_on (ok a) code f s = f a s
  go_on (err e) code f s = (ok (aborted code), s)
  go_on panic code f s = (panic, s)

  -- `if err != nil { c.AbortWithError(code, err); return }`
  abbrev pub or_abort : ℕ → Exec S A → (A → Exec S (Response B)) → Exec S (Response B)
  or_abort code m f s = go_on (m s).0 code f (m s).1

-- `gin.H`
abbrev pub Fields : Type 0
Fields = List (String × String)

-- `health` of each of the three servers
unfoldable pub health : {S : Type 0} → Exec S (Response Fields)
health = return (json status_ok (("status", "ok") ∷ []))

pub data Method : Type 0 where
  get post : Method

-- A route that `New` registers, with its handler
pub record Route (H : Type 0) : Type 0 where
  pub method : Method
  pub path : String
  pub handler : H

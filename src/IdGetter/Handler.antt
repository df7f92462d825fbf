-- ===== src/IdGetter/Handler.antt =====
-- src/cmd/id_getter/server/server.go: `getIDHandler`. The body of the request and its decoding are
-- those of gin and encoding/json.
use allezon.Base.{ℕ, List, [], ◌∷◌, Result, truncate}
use allezon.Base.Exec.{Exec, lift, return}
use allezon.Http.{
  Response, Route, get, post, json, status_ok, status_bad_request, status_internal_server_error,
  or_abort,
}
use allezon.IdGetter.{ElementsClient, GetIdRequest, GetIdResponse, get_id_url}
use allezon.IdGetter.Server.{Server, get_id}

-- `c.GetRawData` has given the body, or failed.
unfoldable pub get_id_handler :
    {S : Type 0}
    → (List ℕ → Result GetIdRequest)
    → ElementsClient S
    → Result (List ℕ)
    → Exec (Server S) (Response GetIdResponse)
get_id_handler unmarshal db raw_data = or_abort status_bad_request (lift raw_data) λ body.
    or_abort status_bad_request (lift (unmarshal body)) λ req.
      or_abort status_internal_server_error
        (get_id db req.collection_name req.element req.create_missing)
        λ id. return (json status_ok (record { id = truncate 32 id }))

pub data Handler : Type 0 where
  health_handler id_handler : Handler

-- The routes of `New`
abbrev pub routes : List (Route Handler)
routes =
    record { method = get; path = "/health"; handler = health_handler }
    ∷ record { method = post; path = get_id_url; handler = id_handler }
    ∷ []

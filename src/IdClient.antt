-- ===== src/IdClient.antt =====
-- src/pkg/idGetter: the client of the service, with its cache. HTTP and JSON are parameters.
pub mod Laws
use allezon.Base.{
  ℕ, String, Bool, true, false, Option, none, some, List, [], Result, ok, err, panic, failed,
  wrapped, wrap, ◌==◌, truncate, if◌then◌else◌,
}
use allezon.Base.Assoc.{Assoc, lookup, insert}
use allezon.Base.Exec.{Exec, ◌>>=◌, ◌>>◌, return, lift, throw, wrapping}
use allezon.Http.{status_ok}
use allezon.IdGetter.{GetIdRequest, GetIdResponse, get_id_url}

abbrev pub origin_collection : String
origin_collection = "origin"

abbrev pub brand_collection : String
brand_collection = "brand"

abbrev pub category_collection : String
category_collection = "category"

-- The interface `Client`; an `int32` is its bit pattern.
pub record Client (S : Type 0) : Type 0 where
  pub get_id : String → String → Bool → Exec S ℕ

-- The conversion to `uint16`, and back to `int32`, must keep the id.
unfoldable pub check_u16 : ℕ → Result ℕ
check_u16 id = let id_res = truncate 16 id in if id_res == id then ok id_res else err failed

unfoldable pub get_u16_id : {S : Type 0} → Client S → String → String → Bool → Exec S ℕ
unfolding check_u16
get_u16_id cl collection element create_missing = do
  id ← cl.get_id collection element create_missing
  lift (check_u16 id)

-- A response, and its body.
pub record Reply : Type 0 where
  pub status_code : ℕ
  pub body : List ℕ

-- `http.Client.Post` to a path of the address, `json.Marshal` and `Decode`
pub record Transport (S : Type 0) : Type 0 where
  pub marshal : GetIdRequest → Result (List ℕ)
  pub post : String → List ℕ → Exec S Reply
  pub decode : List ℕ → Result GetIdResponse

abbrev pub Cache : Type 0
Cache = Assoc (Assoc ℕ)

-- `client`, beside the state of what it calls
pub record ClientState (S : Type 0) : Type 0 where
  pub remote : S
  pub cache_enabled : Bool
  pub cache : Cache

abbrev pub put_remote : {S A : Type 0} → ClientState S → Result A × S → Result A × ClientState S
put_remote s (r, remote) = (r, record s { remote = remote })

abbrev pub on_remote : {S A : Type 0} → Exec S A → Exec (ClientState S) A
on_remote m s = put_remote s (m s.remote)

abbrev pub in_collection : String → Option (Assoc ℕ) → Option ℕ
in_collection element none = none
in_collection element (some cache) = lookup element cache

unfoldable pub get_from_cache : {S : Type 0} → String → String → ClientState S → Option ℕ
get_from_cache name element c =
    if c.cache_enabled then in_collection element (lookup name c.cache) else none

abbrev pub with_element : String → ℕ → Option (Assoc ℕ) → Assoc ℕ
with_element element id none = insert element id []
with_element element id (some cache) = insert element id cache

unfoldable pub save_in_cache : {S : Type 0} → String → String → ℕ → ClientState S → ClientState S
save_in_cache name element id c =
    if c.cache_enabled
    then record c { cache = insert name (with_element element id (lookup name c.cache)) c.cache }
    else c

-- `res.ID`, or the error of decoding, wrapped
abbrev pub decoded_id : Result GetIdResponse → Result ℕ
decoded_id (ok res) = ok res.id
decoded_id (err e) = err (wrapped e)
decoded_id panic = panic

module _ {S : Type 0} (http : Transport S) where
  unfoldable pub read_reply : Reply → Result ℕ
  read_reply resp =
      if resp.status_code == status_ok then decoded_id (http.decode resp.body) else err failed

  unfoldable pub get_id_from_server : String → String → Bool → Exec S ℕ
  unfolding read_reply
  get_id_from_server collection_name element create_missing = do
    body ← lift (
        wrap (
          http.marshal (record {
            collection_name = collection_name;
            element = element;
            create_missing = create_missing;
          })))
    resp ← wrapping (http.post get_id_url body)
    lift (read_reply resp)

  unfoldable pub store_id : String → String → ℕ → Exec (ClientState S) ℕ
  store_id collection_name element id c = (ok id, save_in_cache collection_name element id c)

  unfoldable pub or_ask : String → String → Bool → Option ℕ → Exec (ClientState S) ℕ
  unfolding store_id
  or_ask collection_name element create_missing (some id) = return id
  or_ask collection_name element create_missing none = do
    id ← wrapping (on_remote (get_id_from_server collection_name element create_missing))
    store_id collection_name element id

  unfoldable pub get_id : String → String → Bool → Exec (ClientState S) ℕ
  unfolding or_ask
  get_id collection_name element create_missing c =
      or_ask collection_name element create_missing (get_from_cache collection_name element c) c

  -- The client that `NewClient` and `NewPureClient` return; they differ in the initial state.
  unfoldable pub client : Client (ClientState S)
  client = record { get_id = get_id }

  unfoldable pub new_client : S → ClientState S
  new_client remote = record { remote = remote; cache_enabled = true; cache = [] }

  unfoldable pub new_pure_client : S → ClientState S
  new_pure_client remote = record { remote = remote; cache_enabled = false; cache = [] }

-- null.go
unfoldable pub null_client : {S : Type 0} → Client S
null_client = record { get_id = λ collection_name element create_missing. return 0 }

-- ===== src/IdGetter/Elements.antt =====
-- src/cmd/id_getter/db/db.go: the client of the database.
use allezon.Base.{
  ℕ, String, false, Option, some, List, [], ◌∷◌, Result, ok, err, failed, sentinel, wrapped,
  matches, ids_key_not_found, element_exists, key_not_found_error, fail_element_exists,
  if◌then◌else◌,
}
use allezon.Base.Exec.{Exec, ◌>>=◌, lift, throw, reads, catch}
use allezon.Db.Aerospike.{
  Database, Value, Scalar, WritePolicy, text, list, bin, list_append, update, none_expected,
  ttl_dont_expire,
}
use allezon.Db.Profiles.Client.{int_of}
use allezon.IdGetter.{ElementsClient}

abbrev pub namespace : String
namespace = "allezon"

abbrev pub set : String
set = "ids"

abbrev pub ids_bin : String
ids_bin = "ids"

abbrev pub append_policy : WritePolicy
append_policy = record {
  generation = 0;
  expiration = ttl_dont_expire;
  record_exists_action = update;
  generation_policy = none_expected;
  send_key = false;
}

abbrev cons_result : String → Result (List String) → Result (List String)
cons_result s (ok l) = ok (s ∷ l)
cons_result s r = r

-- The loop that asserts that each element is a string.
unfoldable pub strings : List Scalar → Result (List String)
strings [] = ok []
strings (text s ∷ els) = cons_result s (strings els)
strings (_ ∷ els) = err failed

unfoldable pub elements_of : Option Value → Result (List String)
unfolding strings
elements_of (some (list els)) = strings els
elements_of _ = err failed

module _ {S : Type 0} (db : Database S) where
  unfoldable pub append_element : String → String → Exec S ℕ
  append_element category element = do
    key ← lift (db.new_key namespace set category)
    r ← catch (db.operate append_policy key (list_append ids_bin element)) (λ e.
        if matches e fail_element_exists
        then throw (wrapped (sentinel element_exists))
        else throw (wrapped e))
    lift (int_of (bin ids_bin r.bins))

  -- The last error is made with the `err` of `NewKey`, which is nil, and so carries no cause.
  unfoldable pub get_elements : String → Exec S (List String)
  unfolding elements_of
  get_elements category = do
    key ← lift (db.new_key namespace set category)
    r ← catch (reads (db.get key (ids_bin ∷ []))) (λ e.
        if matches e key_not_found_error
        then throw (wrapped (sentinel ids_key_not_found))
        else throw failed)
    lift (elements_of (bin ids_bin r.bins))

  unfoldable pub elements_client : ElementsClient S
  elements_client = record { get_elements = get_elements; append_element = append_element }

-- ===== src/Db/Profiles.antt =====
-- src/pkg/db/user_profiles.go: the bins of a profile and their decoding. `Client` has the methods
-- of `userProfileClient`.
pub mod Client
pub mod Trimming
pub mod Stored
pub mod Storing
pub mod Reading
pub mod History
use allezon.Base.{
  ℕ, String, Option, none, some, List, [], ◌∷◌, Result, ok, err, panic, failed, wrap, ◌>>=◌, ◌==◌,
  if◌then◌else◌,
}
use allezon.Types.{Action, view, buy, UserTag}
use allezon.Types.Marshal.{Protobuf, unmarshal_user_tag}
use allezon.Db.Aerospike.{Bins, Value, Scalar, pairs, blob, bin}

abbrev pub user_profiles_namespace : String
user_profiles_namespace = "allezon"

abbrev pub user_profiles_set : String
user_profiles_set = "user_profiles"

abbrev pub user_profiles_views_bin : String
user_profiles_views_bin = "views"

abbrev pub user_profiles_buys_bin : String
user_profiles_buys_bin = "buys"

-- The default case logs a fatal error, which ends the process.
unfoldable pub action_to_bin : Action → Result String
action_to_bin action =
    if action == buy
    then ok user_profiles_buys_bin
    else if action == view
    then ok user_profiles_views_bin
    else panic

module _ (p : Protobuf) where
  -- The loop of `decodeBin`.
  unfoldable pub decode_pairs : List (Scalar × Scalar) → Result (List UserTag)
  decode_pairs [] = ok []
  decode_pairs ((key, blob value) ∷ kvs) = do
    tag ← wrap (unmarshal_user_tag p value)
    tags ← decode_pairs kvs
    ok (tag ∷ tags)
  decode_pairs ((key, _) ∷ kvs) = err failed

  -- A missing bin leaves the tags empty.
  unfoldable pub decode_raw : Option Value → Result (List UserTag)
  unfolding decode_pairs
  decode_raw none = ok []
  decode_raw (some (pairs kvs)) = decode_pairs kvs
  decode_raw (some _) = err failed

  unfoldable pub decode_bin : Action → Bins → Result (List UserTag)
  unfolding decode_raw
  decode_bin action bins = do bin_name ← action_to_bin action; decode_raw (bin bin_name bins)

-- ===== src/Db/Profiles/Client.antt =====
-- src/pkg/db/user_profiles.go: the methods of `userProfileClient`, over the database.
use allezon.Base.{
  ℕ, String, false, Option, none, some, [], ◌∷◌, Result, ok, err, failed, wrapped, sentinel,
  matches, key_not_found, generation_mismatch, key_not_found_error, generation_error, wrap,
  int64_sub, int64_nonpositive, if◌then◌else◌,
}
use allezon.Base.Exec.{Exec, ◌>>=◌, ◌>>◌, return, lift, throw, reads, catch, wrapping}
use allezon.Time.{unix_milli}
use allezon.Types.{Action, view, buy, UserTag}
use allezon.Types.Marshal.{Protobuf, marshal_user_tag}
use allezon.Db.{UserProfile, UserProfileClient}
use allezon.Db.Aerospike.{
  Database, Key, Record, Value, WritePolicy, scalar, nil, int, bin, map_put, map_size,
  map_remove_by_index_range_count, update, update_only, none_expected, expect_gen_equal,
  ttl_dont_expire,
}
use allezon.Db.Profiles.{
  user_profiles_namespace, user_profiles_set, user_profiles_views_bin, user_profiles_buys_bin,
  action_to_bin, decode_bin,
}

-- The policies of `Add` and of the two steps of `RemoveOverLimit`.
abbrev pub add_policy : WritePolicy
add_policy = record {
  generation = 0;
  expiration = ttl_dont_expire;
  record_exists_action = update;
  generation_policy = none_expected;
  send_key = false;
}

abbrev pub size_policy : WritePolicy
size_policy = record add_policy { record_exists_action = update_only }

abbrev pub remove_policy : ℕ → WritePolicy
remove_policy generation = record size_policy {
  generation = generation;
  generation_policy = expect_gen_equal;
}

-- `newLen.(int)`
abbrev pub int_of : Option Value → Result ℕ
int_of (some (scalar (int n))) = ok n
int_of _ = err failed

module _ {S : Type 0} (p : Protobuf) (db : Database S) where
  unfoldable pub get : String → Exec S UserProfile
  get cookie = do
    key ← lift (db.new_key user_profiles_namespace user_profiles_set cookie)
    r ← catch (reads (db.get key (user_profiles_views_bin ∷ user_profiles_buys_bin ∷ []))) (λ e.
        if matches e key_not_found_error
        then throw (wrapped (sentinel key_not_found))
        else throw (wrapped e))
    views ← lift (wrap (decode_bin p view r.bins))
    buys ← lift (wrap (decode_bin p buy r.bins))
    return (record { views = views; buys = buys })

  unfoldable pub add : UserTag → Exec S ℕ
  add tag = do
    key ← lift (wrap (db.new_key user_profiles_namespace user_profiles_set tag.cookie))
    marshalled_tag ← lift (wrap (marshal_user_tag p tag))
    bin_name ← lift (action_to_bin tag.action)
    r ← wrapping (db.operate add_policy key (map_put bin_name (unix_milli tag.time) marshalled_tag))
    lift (int_of (bin bin_name r.bins))

module _ {S : Type 0} (db : Database S) where
  -- The second step of `RemoveOverLimit`.
  unfoldable pub remove_oldest : Key → String → ℕ → ℕ → Exec S (Unit {0})
  remove_oldest key bin_name generation to_remove =
      catch
        (db.operate (remove_policy generation) key
            (map_remove_by_index_range_count bin_name 0 to_remove)
          >> return tt)
        (λ e.
          if matches e generation_error
          then throw (wrapped (sentinel generation_mismatch))
          else throw (wrapped e))

  -- What `RemoveOverLimit` does with the size that it read.
  unfoldable pub trim : Key → String → ℕ → ℕ → Option Value → Exec S (Unit {0})
  unfolding remove_oldest
  trim key bin_name limit generation none = throw failed
  trim key bin_name limit generation (some (scalar nil)) = return tt
  trim key bin_name limit generation (some raw) = do
    length ← lift (int_of (some raw))
    let to_remove = int64_sub length limit
    if int64_nonpositive to_remove
        then return tt
        else remove_oldest key bin_name generation to_remove

  unfoldable pub trim_record : Key → String → ℕ → Option Record → Exec S (Unit {0})
  unfolding trim
  trim_record key bin_name limit none = return tt
  trim_record key bin_name limit (some r) =
      trim key bin_name limit r.generation (bin bin_name r.bins)

  -- The first step: `none` where there is no such record, and nothing to do.
  unfoldable pub read_size : Key → String → Exec S (Option Record)
  read_size key bin_name =
      catch (do r ← db.operate size_policy key (map_size bin_name); return (some r))
        (λ e. if matches e key_not_found_error then return none else throw (wrapped e))

  unfoldable pub remove_over_limit : String → Action → ℕ → Exec S (Unit {0})
  unfolding read_size trim_record
  remove_over_limit cookie action limit = do
    key ← lift (wrap (db.new_key user_profiles_namespace user_profiles_set cookie))
    bin_name ← lift (action_to_bin action)
    sized ← read_size key bin_name
    trim_record key bin_name limit sized

-- `client.UserProfiles`
unfoldable pub user_profiles : {S : Type 0} → Protobuf → Database S → UserProfileClient S
user_profiles p db = record {
  get = get p db;
  add = add p db;
  remove_over_limit = remove_over_limit db;
}

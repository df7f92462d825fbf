-- ===== src/Db/Aggregates/Client.antt =====
-- src/pkg/db/aggregates.go: the methods of `aggregatesClient`, over the database.
use allezon.Base.{
  false, true, List, [], ◌∷◌, Error, wrapped, matches, key_not_found_error, index_found, panic,
  int64_pattern, if◌then◌else◌,
}
use allezon.Base.Exec.{Exec, ◌>>=◌, ◌>>◌, return, lift, throw, reads, catch, wrapping}
use allezon.Time.{Time}
use allezon.Types.{Action, UserTag}
use allezon.Db.{ActionAggregates, AggregateKey, AggregatesClient}
use allezon.Db.Aerospike.{
  Database, WritePolicy, Statement, scalar, int, add, update_only, create_only, none_expected,
  ttl_server_default,
}
use allezon.Db.Aggregates.{
  aggregates_namespace, aggregates_set, aggregates_index, aggregates_ts_bin, action_to_bin,
  read_results,
}
use allezon.Db.Aggregates.Codec.{to_ts, to_key, encode_sum_and_count}

-- `as.NewWritePolicy(0, as.TTLServerDefault)` and the fields that `Add` sets on it
abbrev pub update_policy : WritePolicy
update_policy = record {
  generation = 0;
  expiration = ttl_server_default;
  record_exists_action = update_only;
  generation_policy = none_expected;
  send_key = false;
}

abbrev pub create_policy : WritePolicy
create_policy = record update_policy { record_exists_action = create_only; send_key = true }

module _ {S : Type 0} (db : Database S) where
  unfoldable pub get : Time → Action → Exec S (List ActionAggregates)
  get t action = do
    let ts = to_ts t
    bin_name ← lift (action_to_bin action)
    let statement : Statement = record {
      namespace = aggregates_namespace;
      set_name = aggregates_set;
      bin_name = bin_name;
      filter_bin = aggregates_ts_bin;
      filter_value = ts;
    }
    results ← wrapping (reads (db.query statement))
    lift (read_results ts bin_name results)

  unfoldable pub add_tag : AggregateKey → UserTag → Exec S (Unit {0})
  add_tag a_key tag = do
    let ts = to_ts tag.time
    key ← lift (db.new_key aggregates_namespace aggregates_set (to_key ts a_key))
    bin_name ← lift (action_to_bin tag.action)
    let encoded = encode_sum_and_count tag.product_info.price
    let create : Exec S (Unit {0}) = wrapping (
        db.put create_policy key (
          (bin_name, scalar (int encoded))
          ∷ (aggregates_ts_bin, scalar (int (int64_pattern ts)))
          ∷ []))
    catch (db.operate update_policy key (add bin_name encoded) >> return tt)
        (λ e. if matches e key_not_found_error then create else throw (wrapped e))

  -- A fatal error ends the process.
  unfoldable pub index_error : Error → Exec S (Unit {0})
  index_error e = if matches e index_found then return tt else lift panic

  unfoldable pub create_index : Exec S (Unit {0})
  unfolding index_error
  create_index =
      catch
        (do
          db.create_index aggregates_namespace aggregates_set aggregates_index aggregates_ts_bin
          catch db.on_complete index_error)
        index_error

  -- `client.Aggregates`
  unfoldable pub aggregates : Exec S (AggregatesClient S)
  unfolding create_index
  aggregates = do create_index; return (record { get = get; add = add_tag })

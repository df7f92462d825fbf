-- ===== src/Db/Null.antt =====
-- src/pkg/db/null.go: clients that do nothing (but log, which is not modelled).
use allezon.Base.{[]}
use allezon.Base.Exec.{return}
use allezon.Db.{UserProfileClient, AggregatesClient}

unfoldable pub null_user_profile_client : {S : Type 0} → UserProfileClient S
null_user_profile_client = record {
  get = λ cookie. return (record { views = []; buys = [] });
  add = λ tag. return 0;
  remove_over_limit = λ cookie action limit. return tt;
}

unfoldable pub null_aggregates_client : {S : Type 0} → AggregatesClient S
null_aggregates_client = record { get = λ t action. return []; add = λ key tag. return tt }

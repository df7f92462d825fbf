-- ===== src/Api/UserTags.antt =====
-- src/cmd/api/server/userTags.go. The two goroutines of the handler are run in either order
-- (`add_first`); a goroutine that is started and not waited for is returned, to be run later.
pub mod Handled
pub mod Kept
use allezon.Base.{
  ℕ, String, Bool, true, false, Option, none, some, Error, Result, ok, err, panic, int64_lt,
  if◌then◌else◌,
}
use allezon.Base.Exec.{Exec, ◌>>=◌, return, lift, wrapping, catch}
use allezon.Types.{UserTag, Action}
use allezon.Dto.{UserTagDto, from_user_tag_dto}
use allezon.Http.{
  Response, status, aborted, status_no_content, status_bad_request, status_internal_server_error,
}
use allezon.Api.{Server}

abbrev pub user_tag_limit : ℕ
user_tag_limit = 200

-- `int(userTagLimit * float32(1.1))`
abbrev pub user_tag_gc_threshold : ℕ
user_tag_gc_threshold = 220

-- The arguments of the `removeOldUserTags` that is started.
abbrev pub Cleanup : Type 0
Cleanup = Option (String × Action)

-- What both goroutines have left: the cleanup is started though sending fails. A panic in a
-- goroutine is passed on as `panic`; in Go it ends the program, and nothing recovers from it.
unfoldable pub waited : Result Cleanup → Result (Unit {0}) → Result (Response (Unit {0}) × Cleanup)
waited panic sent = panic
waited added panic = panic
waited (ok cleanup) (ok _) = ok (status status_no_content, cleanup)
waited (ok cleanup) (err e) = ok (aborted status_internal_server_error, cleanup)
waited (err e) sent = ok (aborted status_internal_server_error, none)

module _ {S : Type 0} (s : Server S) where
  unfoldable pub add_user_tag : UserTag → Exec S Cleanup
  add_user_tag tag = do
    new_len ← wrapping (s.profiles_db.user_profiles.add tag)
    return (if int64_lt user_tag_gc_threshold new_len then some (tag.cookie, tag.action) else none)

  -- `retry` is `backoff.Retry` with its settings. Its error is logged.
  unfoldable pub remove_old_user_tags :
      (Exec S (Unit {0}) → Exec S (Unit {0})) → String → Action → Exec S (Unit {0})
  remove_old_user_tags retry cookie action =
      catch (retry (s.profiles_db.user_profiles.remove_over_limit cookie action user_tag_limit))
        (λ e. return tt)

  unfoldable pub run_both : Bool → UserTag → Exec S (Response (Unit {0}) × Cleanup)
  unfolding waited
  run_both true tag st =
      let added = add_user_tag tag st in
      let sent = s.send tag added.1 in (waited added.0 sent.0, sent.1)
  run_both false tag st =
      let sent = s.send tag st in
      let added = add_user_tag tag sent.1 in (waited added.0 sent.0, added.1)

  unfoldable pub handle_tag : Bool → Result UserTag → Exec S (Response (Unit {0}) × Cleanup)
  unfolding run_both
  handle_tag add_first (ok tag) = run_both add_first tag
  handle_tag add_first (err e) = return (aborted status_bad_request, none)
  handle_tag add_first panic = lift panic

  unfoldable pub user_tags_handler :
      Bool → Result UserTagDto → Exec S (Response (Unit {0}) × Cleanup)
  unfolding handle_tag
  user_tags_handler add_first (ok req) = handle_tag add_first (from_user_tag_dto s.time_text req)
  user_tags_handler add_first (err e) = return (aborted status_bad_request, none)
  user_tags_handler add_first panic = lift panic

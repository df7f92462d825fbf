-- ===== src/Api/TimeRange.antt =====
-- `parseTimeRange` of src/cmd/api/server/userProfiles.go and `validateAggregatesTimeRange` of
-- aggregates.go.
use allezon.Base.{
  ◌+◌, ◌-◌, ◌*◌, ◌≤◌, ◌≡◌, ◌↔◌, String, List, [], ◌∷◌, Result, ok, err, failed, wrap, ◌>>=◌, arith,
  ltb, if◌then◌else◌,
}
use allezon.Base.Decimal.{split}
use allezon.Time.{Time, minute, second, after}
use allezon.Dto.{TimeText}

unfoldable pub parse_parts : TimeText → String → List String → Result (Time × Time)
parse_parts text layout (first ∷ last ∷ []) = do
  from ← wrap (text.parse layout first)
  to ← wrap (text.parse layout last)
  ok (from, to)
parse_parts text layout _ = err failed

unfoldable pub parse_time_range : TimeText → String → String → Result (Time × Time)
unfolding parse_parts
parse_time_range text layout str = parse_parts text layout (split b'_' str)

-- `to.Sub(from)` is not negative behind the first test. A difference beyond 292 years is cut to
-- that by `Sub`, and fails the second test all the same.
unfoldable pub validate_aggregates_time_range : Time → Time → Result (Unit {0})
validate_aggregates_time_range from to =
    if after from to
    then err failed
    else if ltb (10 * minute) (to - from)
    then err failed
    else if ltb 0 (second from)
    then err failed
    else if ltb 0 (second to)
    then err failed
    else ok tt

-- A range is accepted exactly when it is not reversed, spans at most ten minutes, and begins and
-- ends in the first second of a minute.
pub validate_iff :
    (from to : Time)
    → (validate_aggregates_time_range from to ≡ ok tt)
      ↔ ((from ≤ to) × (to ≤ from + 10 * minute) × (second from ≡ 0) × (second to ≡ 0))
unfolding validate_aggregates_time_range
validate_iff from to = (λ h. ground arith, λ h. ground arith)

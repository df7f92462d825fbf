-- ===== src/Dto/Laws.antt =====
-- The conversions of src/pkg/dto/dto.go, one after the other.
use allezon.Base.{ℕ, ◌*◌, ◌<◌, ◌-◌, ◌%◌, String, ◌≡◌, ◌⊎◌, inl, inr, ok, eq_iff, arith}
use allezon.Time.{Time, millisecond, seconds}
use allezon.Types.{pc, mobile, tv, device_string, action_string, UserTag}
use allezon.Types.Roundtrip.{IsAction}
use allezon.Dto.{
  TimeText, user_tag_time_layout, UserTagDto, to_device, to_action, from_user_tag_dto,
  into_user_tag_dto,
}

abbrev pub IsDevice : ℕ → Type 0
IsDevice d = (d ≡ pc) ⊎ (d ≡ mobile) ⊎ (d ≡ tv)

-- The first instant of the year 10000, whose number has no place in the layout: 3,652,425 days.
abbrev pub year_10000 : Time
year_10000 = 315_569_520_000 * seconds

-- `Format` with this layout writes the fraction to the millisecond, less its trailing zeros, and
-- `Parse` reads it back, for years of four digits.
pub record TimeTextLaws (text : TimeText) : Type 0 where
  pub parse-format :
      (t : Time)
      → t < year_10000
      → text.parse user_tag_time_layout (text.format user_tag_time_layout t)
        ≡ ok (t - t % millisecond)

to_device-device_string : (d : ℕ) → IsDevice d → to_device (device_string d) ≡ ok d
unfolding to_device device_string
to_device-device_string d (inl e) = rw e
to_device-device_string d (inr (inl e)) = rw e
to_device-device_string d (inr (inr e)) = rw e

to_action-action_string : (a : ℕ) → IsAction a → to_action (action_string a) ≡ ok a
unfolding to_action action_string
to_action-action_string a (inl e) = rw e
to_action-action_string a (inr e) = rw e

device_string-to_device : (s : String) (d : ℕ) → to_device s ≡ ok d → device_string d ≡ s
unfolding to_device device_string
device_string-to_device s d h = ground (arith, eq_iff s "PC", eq_iff s "MOBILE", eq_iff s "TV")

action_string-to_action : (s : String) (a : ℕ) → to_action s ≡ ok a → action_string a ≡ s
unfolding to_action action_string
action_string-to_action s a h = ground (arith, eq_iff s "VIEW", eq_iff s "BUY")

module _ (text : TimeText) where
  -- A tag of a year below 10000, with a known device and action, is converted to a transfer object that converts back to
  -- it, its time cut to milliseconds.
  pub from-into :
      (tag : UserTag)
      → TimeTextLaws text
      → tag.time < year_10000
      → IsDevice tag.device
      → IsAction tag.action
      → from_user_tag_dto text (into_user_tag_dto text tag)
        ≡ ok (record tag { time = tag.time - tag.time % millisecond })
  unfolding from_user_tag_dto into_user_tag_dto
  from-into tag laws year device action = rw (
    laws.parse-format tag.time year,
    to_device-device_string tag.device device,
    to_action-action_string tag.action action,
  )

  -- A transfer object that is accepted is given back, but for the spelling of its time.
  pub into-from :
      (dto : UserTagDto) (tag : UserTag)
      → from_user_tag_dto text dto ≡ ok tag
      → into_user_tag_dto text tag ≡ record dto { time = text.format user_tag_time_layout tag.time }
  unfolding from_user_tag_dto into_user_tag_dto
  into-from dto tag accepted = ground (
    arith,
    device_string-to_device dto.device tag.device,
    action_string-to_action dto.action tag.action,
  )

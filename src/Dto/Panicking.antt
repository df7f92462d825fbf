-- ===== src/Dto/Panicking.antt =====
-- When `FromUserTagDTO` of src/pkg/dto/dto.go panics.
use allezon.Base.{
  ℕ, String, ◌≡◌, ◌↔◌, ◌⊎◌, inl, inr, sym, ◌∙◌, false, none, Error, Result, ok, err, panic, failed,
  eq_iff, str_eq, arith, Bool-cases, Option-cases, Result-cases,
}
use mathlib.Core.Bool.{true≢false}
use allezon.Time.{Time}
use allezon.Types.{pc, mobile, tv, view, buy, UserTag}
use allezon.Dto.{
  TimeText, user_tag_time_layout, UserTagDto, to_device, to_action, from_user_tag_dto,
}

-- The names of devices and actions in a transfer object
abbrev pub IsDeviceName : String → Type 0
IsDeviceName s = (s ≡ "PC") ⊎ ((s ≡ "MOBILE") ⊎ (s ≡ "TV"))

abbrev pub IsActionName : String → Type 0
IsActionName s = (s ≡ "VIEW") ⊎ (s ≡ "BUY")

not_named : (s t : String) → str_eq s t ≡ false → s ≡ t → ⊥
not_named s t other h = true≢false (sym ((eq_iff s t).1 h) ∙ other)

parsed_not : (e : Error) (t : Time) → ◌≡◌ {A = Result Time} (err e) (ok t) → ⊥
parsed_not e t h = cc

device_cases :
    (s : String)
    → (IsDeviceName s × ((d : ℕ) × (to_device s ≡ ok d)))
      ⊎ ((to_device s ≡ err failed) × (IsDeviceName s → ⊥))
unfolding to_device
device_cases s = elim (Bool-cases (str_eq s "PC")) [
  | inl is ↦ inl (inl ((eq_iff s "PC").0 is), (pc, rw is))
  | inr not_pc ↦ elim (Bool-cases (str_eq s "MOBILE")) [
    | inl is ↦ inl (inr (inl ((eq_iff s "MOBILE").0 is)), (mobile, rw (not_pc, is)))
    | inr not_mobile ↦ elim (Bool-cases (str_eq s "TV")) [
      | inl is ↦ inl (inr (inr ((eq_iff s "TV").0 is)), (tv, rw (not_pc, not_mobile, is)))
      | inr not_tv ↦ inr (
        rw (not_pc, not_mobile, not_tv),
        λ named. elim named [
          | inl is ↦ not_named s "PC" not_pc is
          | inr (inl is) ↦ not_named s "MOBILE" not_mobile is
          | inr (inr is) ↦ not_named s "TV" not_tv is
        ],
      )
    ]
  ]
]

action_cases :
    (s : String)
    → (IsActionName s × ((a : ℕ) × (to_action s ≡ ok a)))
      ⊎ ((to_action s ≡ err failed) × (IsActionName s → ⊥))
unfolding to_action
action_cases s = elim (Bool-cases (str_eq s "VIEW")) [
  | inl is ↦ inl (inl ((eq_iff s "VIEW").0 is), (view, rw is))
  | inr not_view ↦ elim (Bool-cases (str_eq s "BUY")) [
    | inl is ↦ inl (inr ((eq_iff s "BUY").0 is), (buy, rw (not_view, is)))
    | inr not_buy ↦ inr (
      rw (not_view, not_buy),
      λ named. elim named [
        | inl is ↦ not_named s "VIEW" not_view is
        | inr is ↦ not_named s "BUY" not_buy is
      ],
    )
  ]
]

module _ (text : TimeText) where
  no_panic : (e : Error) → ◌≡◌ {A = Result UserTag} (err e) panic → ⊥
  no_panic e h = cc

  from-named :
      (dto : UserTagDto) (t : Time) (d a : ℕ)
      → text.parse user_tag_time_layout dto.time ≡ ok t
      → to_device dto.device ≡ ok d
      → to_action dto.action ≡ ok a
      → (from_user_tag_dto text dto ≡ panic) ↔ (dto.product_info.product_id ≡ none)
  unfolding from_user_tag_dto
  from-named dto t d a time device action =
      rw (time, device, action)
        (
          (λ e. elim (Option-cases dto.product_info.product_id) [
            | inl nil ↦ nil
            | inr (id, given) ↦ absurd (ground arith)
          ]),
          λ nil. rw nil,
        )

  -- What a transfer object is like whose conversion panics
  pub record Dereferences (dto : UserTagDto) : Type 0 where
    pub time : (t : Time) × (text.parse user_tag_time_layout dto.time ≡ ok t)
    pub device : IsDeviceName dto.device
    pub action : IsActionName dto.action
    pub product_id : dto.product_info.product_id ≡ none

  from-unread :
      (dto : UserTagDto) (e : Error)
      → text.parse user_tag_time_layout dto.time ≡ err e
      → from_user_tag_dto text dto ≡ err e
  unfolding from_user_tag_dto
  from-unread dto e h = rw h

  from-no_device :
      (dto : UserTagDto) (t : Time)
      → text.parse user_tag_time_layout dto.time ≡ ok t
      → to_device dto.device ≡ err failed
      → from_user_tag_dto text dto ≡ err failed
  unfolding from_user_tag_dto
  from-no_device dto t time device = rw (time, device)

  from-no_action :
      (dto : UserTagDto) (t : Time) (d : ℕ)
      → text.parse user_tag_time_layout dto.time ≡ ok t
      → to_device dto.device ≡ ok d
      → to_action dto.action ≡ err failed
      → from_user_tag_dto text dto ≡ err failed
  unfolding from_user_tag_dto
  from-no_action dto t d time device action = rw (time, device, action)

  fails_iff :
      (dto : UserTagDto) (e : Error)
      → from_user_tag_dto text dto ≡ err e
      → (Dereferences dto → ⊥)
      → (from_user_tag_dto text dto ≡ panic) ↔ Dereferences dto
  fails_iff dto e is never = (λ h. absurd (no_panic e (sym is ∙ h)), λ how. absurd (never how))

  -- If `time.Parse` does not panic, the conversion of a transfer object panics exactly when its
  -- time is one that parses, its device is "PC", "MOBILE" or "TV", its action is "VIEW" or "BUY",
  -- and its product id is nil.
  pub from_panics_iff :
      (dto : UserTagDto)
      → (text.parse user_tag_time_layout dto.time ≡ panic → ⊥)
      → (from_user_tag_dto text dto ≡ panic) ↔ Dereferences dto
  from_panics_iff dto calm = elim (Result-cases (text.parse user_tag_time_layout dto.time)) [
    | inl (t, time) ↦ elim (device_cases dto.device) [
      | inl (device_named, (d, device)) ↦ elim (action_cases dto.action) [
        | inl (action_named, (a, action)) ↦
            let nil = from-named dto t d a time device action in
            (
              λ h. record {
                time = (t, time);
                device = device_named;
                action = action_named;
                product_id = nil.0 h;
              },
              λ how. nil.1 how.product_id,
            )
        | inr (action, unnamed) ↦
            fails_iff dto failed (from-no_action dto t d time device action)
              (λ how. unnamed how.action)
      ]
      | inr (device, unnamed) ↦
          fails_iff dto failed (from-no_device dto t time device) (λ how. unnamed how.device)
    ]
    | inr (inl (e, time)) ↦
        fails_iff dto e (from-unread dto e time) (λ how. parsed_not e _ (sym time ∙ how.time.1))
    | inr (inr panicked) ↦ absurd (calm panicked)
  ]

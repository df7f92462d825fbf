-- ===== src/Api/Profiles/Selected.antt =====
-- Which tags a profile of src/cmd/api/server/userProfiles.go shows.
use allezon.Base.{
  ℕ, zero, suc, ◌+◌, ◌-◌, ◌/◌, ◌≤◌, ◌<◌, ◌≡◌, ◌↔◌, refl, Bool, true, false, List, [], ◌∷◌, ◌++◌,
  map, reverse, arith, length, take, filter, length-append, ltb, Bool-cases, ◌==◌, if◌then◌else◌,
  inl, inr,
}
use mathlib.Core.List.{append_assoc, append-nil}
use allezon.Time.{Time, millisecond}
use allezon.Types.{UserTag}
use allezon.Dto.{TimeText, UserTagDto, into_user_tag_dto}
use allezon.Api.Profiles.{in_range, select, convert_tags}

-- A tag is in range by its milliseconds: from the first of `from` on, before that of `to`.
pub in_range_iff :
    (from to : Time) (tag : UserTag)
    → (in_range from to tag ≡ true) ↔ (
        (from / millisecond ≤ tag.time / millisecond) × (tag.time / millisecond < to / millisecond))
unfolding in_range
in_range_iff from to tag = (λ h. ground arith, λ h. ground arith)

pub take_nothing : {A : Type 0} (n : ℕ) → take {A = A} n [] ≡ []
take_nothing zero = refl
take_nothing (suc n) = refl

take_next :
    {A : Type 0} (limit n : ℕ) (x : A) (xs : List A)
    → n < limit
    → take (limit - n) (x ∷ xs) ≡ x ∷ take (limit - (n + 1)) xs
take_next limit n x xs h = let p : limit - n ≡ suc (limit - (n + 1)) = omega arith in rw p

take_none : {A : Type 0} (limit n : ℕ) (xs : List A) → limit ≤ n → take (limit - n) xs ≡ []
take_none limit n xs h = let p : limit - n ≡ 0 = omega arith in rw p

if-yes : {A : Type 0} (b : Bool) (x y : A) → b ≡ true → (if b then x else y) ≡ x
if-yes b x y h = ground arith

if-no : {A : Type 0} (b : Bool) (x y : A) → b ≡ false → (if b then x else y) ≡ y
if-no b x y h = ground arith

module _ (text : TimeText) (from to : Time) (limit : ℕ) where
  -- What a loop that has kept `selected` of the tags still adds.
  abbrev added : List UserTag → List UserTagDto → List UserTagDto
  added tags selected =
      map (into_user_tag_dto text) (take (limit - length selected) (filter (in_range from to) tags))

  select-append :
      (tags : List UserTag) (selected : List UserTagDto)
      → length selected ≤ limit
      → select text from to limit tags selected ≡ selected ++ added tags selected
  unfolding select
  select-append [] selected h =
      rw (take_nothing {A = UserTag} (limit - length selected), append-nil selected)
  select-append (tag ∷ tags) selected h = elim (Bool-cases (ltb (length selected) limit)) [
    | inl more ↦ elim (Bool-cases (in_range from to tag)) [
      | inl inside ↦
          let x = into_user_tag_dto text tag in
          let longer : length (selected ++ (x ∷ [])) ≡ length selected + 1 =
            length-append selected (x ∷ []) in
          let room : length selected < limit = ground arith in
          let rest = select-append tags (selected ++ (x ∷ [])) (omega arith) in
          rw (
            more,
            inside,
            rest,
            longer,
            take_next limit (length selected) tag (filter (in_range from to) tags) room,
            append_assoc selected (x ∷ []) (
                map (into_user_tag_dto text)
                  (take (limit - (length selected + 1)) (filter (in_range from to) tags))),
          )
      | inr outside ↦ rw (more, outside, select-append tags selected h)
    ]
    | inr full ↦ rw (
      full,
      take_none limit (length selected) (filter (in_range from to) (tag ∷ tags)) (ground arith),
      append-nil selected,
    )
  ]

  -- The tags of a profile that are shown are, from the newest on, those in the range, cut to the
  -- limit.
  pub convert_tags-select :
      (tags : List UserTag)
      → convert_tags text tags from to limit
        ≡ map (into_user_tag_dto text) (take limit (filter (in_range from to) (reverse tags)))
  unfolding convert_tags
  convert_tags-select tags = elim (Bool-cases (limit == 0)) [
    | inl is_zero ↦ let p : limit ≡ 0 = ground arith in rw (is_zero, p)
    | inr positive ↦
        let q : limit - length {A = UserTagDto} [] ≡ limit = omega arith in
        rw (positive, select-append (reverse tags) [] (omega arith), q)
  ]

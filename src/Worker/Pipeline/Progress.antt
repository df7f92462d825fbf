-- ===== src/Worker/Pipeline/Progress.antt =====
-- A pipeline of src/cmd/worker/worker/worker.go that is not drained can make a step.
use allezon.Base.{
  ◌≡◌, ◌≢◌, ◌⊎◌, inl, inr, refl, sym, ap, ◌∙◌, List, [], ◌∷◌, ◌++◌, panic, arith, length, All,
  Result-cases,
}
use allezon.Base.Exec.{Exec}
use allezon.Types.{UserTag}
use allezon.Types.Marshal.{Protobuf, unmarshal_user_tag}
use allezon.Db.{AggregatesClient}
use allezon.IdClient.{Client}
use allezon.Messaging.{Event, message, closed, done}
use allezon.Worker.Pipeline.{
  ClaimRun, receiving, sending, marking, ended, Processor, idle, busy, Pipeline, Step, receive,
  skip, send, mark, finish, take_tag, process, processing,
}

-- A part of a list, with what stands before and behind it
abbrev Somewhere : {A : Type 0} → (A → Type 0) → List A → Type 0
Somewhere {A} P xs =
    (before : List A) × (x : A) × (after : List A) × (xs ≡ before ++ (x ∷ after)) × P x

search_list :
    {A : Type 0} (P Q : A → Type 0)
    → ((x : A) → P x ⊎ Q x)
    → (xs : List A) → Somewhere P xs ⊎ All Q xs
search_list P Q decide [] = inr tt
search_list P Q decide (x ∷ xs) = elim (decide x) [
  | inl found ↦ inl ([], x, xs, refl, found)
  | inr not_here ↦ elim (search_list P Q decide xs) [
    | inl (before, y, after, at, found) ↦ inl (x ∷ before, y, after, ap (λ l. x ∷ l) at, found)
    | inr nowhere ↦ inr (not_here, nowhere)
  ]
]

All-middle :
    {A : Type 0} (P : A → Type 0) (before : List A) (x y : A) (after : List A)
    → (P x → P y)
    → All P (before ++ (x ∷ after))
    → All P (before ++ (y ∷ after))
All-middle P [] x y after f h = (f h.0, h.1)
All-middle P (z ∷ before) x y after f h = (h.0, All-middle P before x y after f h.1)

All-at :
    {A : Type 0} (P : A → Type 0) (before : List A) (x : A) (after : List A)
    → All P (before ++ (x ∷ after))
    → P x
All-at P [] x after h = h.0
All-at P (z ∷ before) x after h = All-at P before x after h.1

module _ (p : Protobuf) where
  -- No event makes the consumer panic.
  abbrev pub IsSafeEvent : Event → Type 0
  IsSafeEvent (message msg) = unmarshal_user_tag p msg.value ≢ panic
  IsSafeEvent closed = ⊥
  IsSafeEvent done = Unit

  abbrev pub IsSafe : ClaimRun → Type 0
  IsSafe (receiving events) = All IsSafeEvent events
  IsSafe (sending msg tag events) = All IsSafeEvent events
  IsSafe (marking msg events) = All IsSafeEvent events
  IsSafe (ended events) = All IsSafeEvent events

-- A claim that waits for more, or whose session is over
abbrev pub IsQuiet : ClaimRun → Type 0
IsQuiet (receiving []) = Unit
IsQuiet (receiving (event ∷ events)) = ⊥
IsQuiet (sending msg tag events) = ⊥
IsQuiet (marking msg events) = ⊥
IsQuiet (ended events) = Unit

abbrev IsActive : ClaimRun → Type 0
IsActive (receiving []) = ⊥
IsActive (receiving (event ∷ events)) = Unit
IsActive (sending msg tag events) = Unit
IsActive (marking msg events) = Unit
IsActive (ended events) = ⊥

ClaimRun-cases : (c : ClaimRun) → IsActive c ⊎ IsQuiet c
ClaimRun-cases (receiving []) = inr tt
ClaimRun-cases (receiving (event ∷ events)) = inl tt
ClaimRun-cases (sending msg tag events) = inl tt
ClaimRun-cases (marking msg events) = inl tt
ClaimRun-cases (ended events) = inr tt

abbrev IsBusy : Processor → Type 0
IsBusy x = (tag : UserTag) × (x ≡ busy tag)

Processor-cases : (x : Processor) → IsBusy x ⊎ (x ≡ idle)
Processor-cases idle = inr refl
Processor-cases (busy tag) = inl (tag, refl)

-- Nothing is under way.
unfoldable pub IsDrained : {S : Type 0} → Pipeline S → Type 0
IsDrained m = All IsQuiet m.claims × (m.tags_chan ≡ []) × All (λ x. x ≡ idle) m.processors

module _ {S : Type 0} (p : Protobuf) (ids : Client S) (aggregates : AggregatesClient S)
    (retry : Exec S (Unit {0}) → Exec S (Unit {0}))
    (no_panic : (tag : UserTag) (s : S) → (processing p ids aggregates retry tag s).0 ≢ panic) where
  abbrev pub Next : Pipeline S → Type 0
  Next m =
      (n : Pipeline S) × Step p ids aggregates retry m n
      × All (IsSafe p) n.claims
      × (n.processors ≢ [])

  middle-nonempty :
      {A : Type 0} (before : List A) (x : A) (after : List A) → before ++ (x ∷ after) ≢ []
  middle-nonempty [] x after h = cc
  middle-nonempty (y ∷ before) x after h = cc

  next_receiving :
      (m : Pipeline S) (before after : List ClaimRun) (event : Event) (events : List Event)
      → m.claims ≡ before ++ (receiving (event ∷ events) ∷ after)
      → All (IsSafe p) (before ++ (receiving (event ∷ events) ∷ after))
      → m.processors ≢ []
      → Next m
  next_receiving m before after closed events at safe some_run =
      absurd (All-at (IsSafe p) before (receiving (closed ∷ events)) after safe).0
  next_receiving m before after done events at safe some_run = (
    _,
    finish m before after events at,
    All-middle (IsSafe p) before (receiving (done ∷ events)) (ended events) after (λ h. h.1) safe,
    some_run,
  )
  next_receiving m before after (message msg) events at safe some_run =
      elim (Result-cases (unmarshal_user_tag p msg.value)) [
        | inl (tag, is) ↦ (
          _,
          receive m before after msg tag events at is,
          All-middle (IsSafe p) before (receiving (message msg ∷ events)) (sending msg tag events)
              after (λ h. h.1) safe,
          some_run,
        )
        | inr (inl (e, is)) ↦ (
          _,
          skip m before after msg e events at is,
          All-middle (IsSafe p) before (receiving (message msg ∷ events)) (receiving events) after
              (λ h. h.1) safe,
          some_run,
        )
        | inr (inr is) ↦
            absurd ((All-at (IsSafe p) before (receiving (message msg ∷ events)) after safe).0 is)
      ]

  next_claim :
      (m : Pipeline S) (before after : List ClaimRun) (c : ClaimRun)
      → m.claims ≡ before ++ (c ∷ after)
      → IsActive c
      → All (IsSafe p) (before ++ (c ∷ after))
      → m.processors ≢ []
      → m.tags_chan ≡ []
      → Next m
  next_claim m before after (receiving []) at active safe some_run empty = absurd active
  next_claim m before after (receiving (event ∷ events)) at active safe some_run empty =
      next_receiving m before after event events at safe some_run
  next_claim m before after (ended events) at active safe some_run empty = absurd active
  next_claim m before after (sending msg tag events) at active safe some_run empty =
      let none_yet : length m.tags_chan ≡ 0 = rw empty refl in
      (
        _,
        send m before after msg tag events at (omega arith),
        All-middle (IsSafe p) before (sending msg tag events) (marking msg events) after (λ h. h)
            safe,
        some_run,
      )
  next_claim m before after (marking msg events) at active safe some_run empty = (
    _,
    mark m before after msg events at,
    All-middle (IsSafe p) before (marking msg events) (receiving events) after (λ h. h) safe,
    some_run,
  )

  next_process :
      (m : Pipeline S) (before after : List Processor) (tag : UserTag)
      → m.processors ≡ before ++ (busy tag ∷ after)
      → All (IsSafe p) m.claims
      → Next m
  next_process m before after tag at safe = (
    _,
    process m before after tag at (no_panic tag m.state),
    safe,
    middle-nonempty before idle after,
  )

  next_take :
      (m : Pipeline S) (tag : UserTag) (tags : List UserTag) (processors : List Processor)
      → m.processors ≡ processors
      → m.tags_chan ≡ tag ∷ tags
      → All (λ x. x ≡ idle) processors
      → processors ≢ []
      → All (IsSafe p) m.claims
      → Next m
  next_take m tag tags [] is queued idle_all some_run safe = absurd (some_run refl)
  next_take m tag tags (x ∷ rest) is queued idle_all some_run safe =
      let at : m.processors ≡ [] ++ (idle ∷ rest) = is ∙ ap (λ y. y ∷ rest) idle_all.0 in
      (_, take_tag m [] rest tag tags at queued, safe, middle-nonempty [] (busy tag) rest)

  next_or_claims :
      (m : Pipeline S) (tags : List UserTag)
      → m.tags_chan ≡ tags
      → All (λ x. x ≡ idle) m.processors
      → m.processors ≢ []
      → All (IsSafe p) m.claims
      → Next m ⊎ IsDrained m
  unfolding IsDrained
  next_or_claims m (tag ∷ tags) queued idle_all some_run safe =
      inl (next_take m tag tags m.processors refl queued idle_all some_run safe)
  next_or_claims m [] queued idle_all some_run safe =
      elim (search_list IsActive IsQuiet ClaimRun-cases m.claims) [
        | inl (before, c, after, at, active) ↦
            inl (next_claim m before after c at active (rw (sym at) safe) some_run queued)
        | inr quiet ↦ inr (quiet, queued, idle_all)
      ]

  pub next : (m : Pipeline S) → m.processors ≢ [] → All (IsSafe p) m.claims → Next m ⊎ IsDrained m
  next m some_run safe = elim (search_list IsBusy (λ x. x ≡ idle) Processor-cases m.processors) [
    | inl (before, x, after, at, (tag, is)) ↦
        inl (next_process m before after tag (at ∙ ap (λ y. before ++ (y ∷ after)) is) safe)
    | inr idle_all ↦ next_or_claims m m.tags_chan refl idle_all some_run safe
  ]

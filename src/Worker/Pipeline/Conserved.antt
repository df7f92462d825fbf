-- ===== src/Worker/Pipeline/Conserved.antt =====
-- Where the tags are while src/cmd/worker/worker/worker.go runs.
use allezon.Base.{ℕ, ◌+◌, ◌≡◌, refl, ap, ◌∙◌, List, [], ◌∷◌, ◌++◌, Result, ok, arith}
use allezon.Base.Exec.{Exec}
use allezon.Types.{UserTag}
use allezon.Types.Marshal.{Protobuf, unmarshal_user_tag}
use allezon.Db.{AggregatesClient}
use allezon.IdClient.{Client}
use allezon.Messaging.{Message, Event, message, closed, done}
use allezon.Worker.Pipeline.{
  ClaimRun, receiving, sending, marking, ended, Processor, idle, busy, Pipeline, Step, Steps,
  receive, skip, send, mark, finish, take_tag, process, stay, go,
}

-- A sum over a list
abbrev pub weigh : {A : Type 0} → (A → ℕ) → List A → ℕ
weigh f [] = 0
weigh f (x ∷ xs) = f x + weigh f xs

pub weigh-append :
    {A : Type 0} (f : A → ℕ) (xs ys : List A) → weigh f (xs ++ ys) ≡ weigh f xs + weigh f ys
weigh-append f [] ys = omega arith
weigh-append f (x ∷ xs) ys = let rest = weigh-append f xs ys in omega arith

module _ (p : Protobuf) (weight : UserTag → ℕ) where
  abbrev pub decoded_weight : Result UserTag → ℕ
  decoded_weight (ok tag) = weight tag
  decoded_weight _ = 0

  abbrev pub event_weight : Event → ℕ
  event_weight (message msg) = decoded_weight (unmarshal_user_tag p msg.value)
  event_weight closed = 0
  event_weight done = 0

  -- What a claim has not yet sent
  abbrev pub claim_weight : ClaimRun → ℕ
  claim_weight (receiving events) = weigh event_weight events
  claim_weight (sending msg tag events) = weight tag + weigh event_weight events
  claim_weight (marking msg events) = weigh event_weight events
  claim_weight (ended events) = weigh event_weight events

  abbrev pub processor_weight : Processor → ℕ
  processor_weight idle = 0
  processor_weight (busy tag) = weight tag

  abbrev pub message_weight : Message → ℕ
  message_weight msg = decoded_weight (unmarshal_user_tag p msg.value)

  -- What is sent but not yet marked
  abbrev pub marking_weight : ClaimRun → ℕ
  marking_weight (marking msg events) = message_weight msg
  marking_weight _ = 0

  module _ {S : Type 0} where
    abbrev pub unsent : Pipeline S → ℕ
    unsent m = weigh claim_weight m.claims

    abbrev pub underway : Pipeline S → ℕ
    underway m = weigh weight m.tags_chan + weigh processor_weight m.processors

    abbrev pub total : Pipeline S → ℕ
    total m = unsent m + (underway m + weigh weight m.processed)

    module _ (ids : Client S) (aggregates : AggregatesClient S)
        (retry : Exec S (Unit {0}) → Exec S (Unit {0})) where
      Step-total : (m n : Pipeline S) → Step p ids aggregates retry m n → total n ≡ total m
      Step-total m n (receive _ before after msg tag events at is) =
          let a = ap (weigh claim_weight) at in
          let b = weigh-append claim_weight before (receiving (message msg ∷ events) ∷ after) in
          let c = weigh-append claim_weight before (sending msg tag events ∷ after) in
          let d : event_weight (message msg) ≡ weight tag = rw is refl in omega arith
      Step-total m n (skip _ before after msg e events at is) =
          let a = ap (weigh claim_weight) at in
          let b = weigh-append claim_weight before (receiving (message msg ∷ events) ∷ after) in
          let c = weigh-append claim_weight before (receiving events ∷ after) in
          let d : event_weight (message msg) ≡ 0 = rw is refl in omega arith
      Step-total m n (send _ before after msg tag events at room) =
          let a = ap (weigh claim_weight) at in
          let b = weigh-append claim_weight before (sending msg tag events ∷ after) in
          let c = weigh-append claim_weight before (marking msg events ∷ after) in
          let d = weigh-append weight m.tags_chan (tag ∷ []) in omega arith
      Step-total m n (mark _ before after msg events at) =
          let a = ap (weigh claim_weight) at in
          let b = weigh-append claim_weight before (marking msg events ∷ after) in
          let c = weigh-append claim_weight before (receiving events ∷ after) in omega arith
      Step-total m n (finish _ before after events at) =
          let a = ap (weigh claim_weight) at in
          let b = weigh-append claim_weight before (receiving (done ∷ events) ∷ after) in
          let c = weigh-append claim_weight before (ended events ∷ after) in omega arith
      Step-total m n (take_tag _ before after tag tags at queued) =
          let a = ap (weigh processor_weight) at in
          let b = weigh-append processor_weight before (idle ∷ after) in
          let c = weigh-append processor_weight before (busy tag ∷ after) in
          let d = ap (weigh weight) queued in omega arith
      Step-total m n (process _ before after tag at safe) =
          let a = ap (weigh processor_weight) at in
          let b = weigh-append processor_weight before (busy tag ∷ after) in
          let c = weigh-append processor_weight before (idle ∷ after) in
          let d = weigh-append weight m.processed (tag ∷ []) in omega arith

      pub Steps-total : (m n : Pipeline S) → Steps p ids aggregates retry m n → total n ≡ total m
      Steps-total m _ (stay _) = refl
      Steps-total m n (go _ k _ step steps) = Steps-total k n steps ∙ Step-total m k step

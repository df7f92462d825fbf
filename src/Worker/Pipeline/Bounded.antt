-- ===== src/Worker/Pipeline/Bounded.antt =====
-- No run of the pipeline of src/cmd/worker/worker/worker.go is longer than what its claims hold allows.
use allezon.Base.{ℕ, ◌+◌, ◌*◌, ◌<◌, ◌≤◌, ap, List, [], ◌∷◌, arith, length, length-append}
use allezon.Base.Exec.{Exec}
use allezon.Types.{UserTag}
use allezon.Types.Marshal.{Protobuf}
use allezon.Db.{AggregatesClient}
use allezon.IdClient.{Client}
use allezon.Messaging.{message, done}
use allezon.Worker.Pipeline.{
  ClaimRun, receiving, sending, marking, ended, Processor, idle, busy, Pipeline, Step, Steps,
  receive, skip, send, mark, finish, take_tag, process, stay, go,
}
use allezon.Worker.Pipeline.Conserved.{weigh, weigh-append}

-- How many steps what is held can still take part in
abbrev claim_steps : ClaimRun → ℕ
claim_steps (receiving events) = 6 * length events
claim_steps (sending msg tag events) = 5 + 6 * length events
claim_steps (marking msg events) = 1 + 6 * length events
claim_steps (ended events) = 0

abbrev processor_steps : Processor → ℕ
processor_steps idle = 0
processor_steps (busy tag) = 1

abbrev pub steps_left : {S : Type 0} → Pipeline S → ℕ
steps_left m =
    weigh claim_steps m.claims + (2 * length m.tags_chan + weigh processor_steps m.processors)

module _ {S : Type 0} (p : Protobuf) (ids : Client S) (aggregates : AggregatesClient S)
    (retry : Exec S (Unit {0}) → Exec S (Unit {0})) where
  -- A step uses up some of what is left.
  pub Step-steps_left :
      (m n : Pipeline S) → Step p ids aggregates retry m n → steps_left n < steps_left m
  Step-steps_left m n (receive _ before after msg tag events at is) =
      let a = ap (weigh claim_steps) at in
      let b = weigh-append claim_steps before (receiving (message msg ∷ events) ∷ after) in
      let c = weigh-append claim_steps before (sending msg tag events ∷ after) in omega arith
  Step-steps_left m n (skip _ before after msg e events at is) =
      let a = ap (weigh claim_steps) at in
      let b = weigh-append claim_steps before (receiving (message msg ∷ events) ∷ after) in
      let c = weigh-append claim_steps before (receiving events ∷ after) in omega arith
  Step-steps_left m n (send _ before after msg tag events at room) =
      let a = ap (weigh claim_steps) at in
      let b = weigh-append claim_steps before (sending msg tag events ∷ after) in
      let c = weigh-append claim_steps before (marking msg events ∷ after) in
      let d = length-append m.tags_chan (tag ∷ []) in omega arith
  Step-steps_left m n (mark _ before after msg events at) =
      let a = ap (weigh claim_steps) at in
      let b = weigh-append claim_steps before (marking msg events ∷ after) in
      let c = weigh-append claim_steps before (receiving events ∷ after) in omega arith
  Step-steps_left m n (finish _ before after events at) =
      let a = ap (weigh claim_steps) at in
      let b = weigh-append claim_steps before (receiving (done ∷ events) ∷ after) in
      let c = weigh-append claim_steps before (ended events ∷ after) in omega arith
  Step-steps_left m n (take_tag _ before after tag tags at queued) =
      let a = ap (weigh processor_steps) at in
      let b = weigh-append processor_steps before (idle ∷ after) in
      let c = weigh-append processor_steps before (busy tag ∷ after) in
      let d = ap (λ (l : List UserTag). length l) queued in omega arith
  Step-steps_left m n (process _ before after tag at safe) =
      let a = ap (weigh processor_steps) at in
      let b = weigh-append processor_steps before (busy tag ∷ after) in
      let c = weigh-append processor_steps before (idle ∷ after) in omega arith

  abbrev pub length_of : {m n : Pipeline S} → Steps p ids aggregates retry m n → ℕ
  length_of (stay _) = 0
  length_of (go _ k _ step steps) = 1 + length_of steps

  -- The steps from one state of the pipeline to another, and the steps that the other can still
  -- make, are together no more than those that the first can make by the events, tags and
  -- processors that it has: no run goes on for ever.
  pub Steps-length :
      (m n : Pipeline S) (steps : Steps p ids aggregates retry m n)
      → length_of steps + steps_left n ≤ steps_left m
  Steps-length m _ (stay _) = omega arith
  Steps-length m n (go _ k _ step steps) =
      let a = Steps-length k n steps in let b = Step-steps_left m k step in omega arith

-- ===== src/Worker/Pipeline/Drained.antt =====
-- Every run of the pipeline of src/cmd/worker/worker/worker.go can be led to its end.
use allezon.Base.{
  ℕ, zero, suc, ◌+◌, ◌≤◌, ◌≡◌, ◌≢◌, inl, inr, refl, ap, List, [], ◌∷◌, panic, arith, All,
}
use allezon.Base.Exec.{Exec}
use allezon.Types.{UserTag}
use allezon.Types.Marshal.{Protobuf}
use allezon.Db.{AggregatesClient}
use allezon.IdClient.{Client}
use allezon.Worker.Pipeline.{Processor, idle, Pipeline, Steps, stay, go, processing}
use allezon.Worker.Pipeline.Bounded.{steps_left, Step-steps_left}
use allezon.Worker.Pipeline.Conserved.{weigh, processor_weight, unsent, total, Steps-total}
use allezon.Worker.Pipeline.Progress.{IsSafe, IsDrained, next}

module _ {S : Type 0} (p : Protobuf) (ids : Client S) (aggregates : AggregatesClient S)
    (retry : Exec S (Unit {0}) → Exec S (Unit {0}))
    (no_panic : (tag : UserTag) (s : S) → (processing p ids aggregates retry tag s).0 ≢ panic) where
  -- A step is possible until nothing is under way, and uses up some of what is left.
  drain_within :
      (fuel : ℕ) (m : Pipeline S)
      → steps_left m ≤ fuel
      → m.processors ≢ []
      → All (IsSafe p) m.claims
      → (n : Pipeline S) × Steps p ids aggregates retry m n × IsDrained n
  drain_within zero m enough some_run safe =
      elim (next p ids aggregates retry no_panic m some_run safe) [
        | inr drained ↦ (m, stay m, drained)
        | inl (k, step, _, _) ↦
            let fewer = Step-steps_left p ids aggregates retry m k step in absurd (omega arith)
      ]
  drain_within (suc fuel) m enough some_run safe =
      elim (next p ids aggregates retry no_panic m some_run safe) [
        | inr drained ↦ (m, stay m, drained)
        | inl (k, step, safe', some_run') ↦
            let fewer = Step-steps_left p ids aggregates retry m k step in
            let (n, steps, drained) = drain_within fuel k (omega arith) some_run' safe' in
            (n, go m k n step steps, drained)
      ]

  idle-weight :
      (weight : UserTag → ℕ) (processors : List Processor)
      → All (λ x. x ≡ idle) processors
      → weigh (processor_weight p weight) processors ≡ 0
  idle-weight weight [] h = refl
  idle-weight weight (x ∷ processors) h =
      let a = ap (processor_weight p weight) h.0 in
      let b = idle-weight weight processors h.1 in omega arith

  drained-processed :
      (weight : UserTag → ℕ) (m n : Pipeline S)
      → Steps p ids aggregates retry m n
      → IsDrained n
      → weigh weight n.processed + unsent p weight n ≡ total p weight m
  unfolding IsDrained
  drained-processed weight m n steps (quiet, empty, idle_all) =
      let a = Steps-total p weight ids aggregates retry m n steps in
      let b = ap (weigh weight) empty in
      let c = idle-weight weight n.processors idle_all in omega arith

  -- If processing a tag never panics, and there are processors and no event that makes the
  -- consumer panic, then from any state of the pipeline there are steps to a state where every
  -- claim waits for more or has ended, the channel is empty and every processor is idle; there
  -- the tags that are processed, with those that ended sessions have left unread, weigh what all
  -- tags weighed, for every weight of tags.
  pub pipeline-drains :
      (m : Pipeline S)
      → m.processors ≢ []
      → All (IsSafe p) m.claims
      → (n : Pipeline S) × Steps p ids aggregates retry m n
        × IsDrained n
        × ((weight : UserTag → ℕ) → weigh weight n.processed + unsent p weight n ≡ total p weight m)
  pipeline-drains m some_run safe =
      let (n, steps, drained) = drain_within (steps_left m) m (omega arith) some_run safe in
      (n, steps, drained, λ weight. drained-processed weight m n steps drained)

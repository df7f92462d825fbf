-- ===== src/Worker/Pipeline.antt =====
-- `Run` of src/cmd/worker/worker/worker.go while it consumes: claims (`ConsumeClaim` of
-- src/pkg/messaging/consumer.go) that fill a bounded channel, and processors
-- (`runAggregatesProcessor`) that empty it, in any interleaving. What a processor does with one tag,
-- its calls and retries included, is one step: calls of different processors do not interleave.
pub mod Conserved
pub mod Bounded
pub mod Progress
pub mod Drained
use allezon.Base.{ℕ, ◌<◌, ◌≡◌, ◌≢◌, List, [], ◌∷◌, ◌++◌, Error, Result, ok, err, panic, length}
use allezon.Base.Exec.{Exec}
use allezon.Types.{UserTag}
use allezon.Types.Marshal.{Protobuf, unmarshal_user_tag}
use allezon.Db.{AggregatesClient}
use allezon.IdClient.{Client}
use allezon.Messaging.{Message, Event, message, done}
use allezon.Worker.{update_aggregates_backoff}

abbrev pub chan_size : ℕ
chan_size = 1024

-- A run of `ConsumeClaim`: at its `select`, before `c.tags <- tag`, before `session.MarkMessage`, or
-- at its end, each with what its session still holds.
pub data ClaimRun : Type 0 where
  receiving : List Event → ClaimRun
  sending : Message → UserTag → List Event → ClaimRun
  marking : Message → List Event → ClaimRun
  ended : List Event → ClaimRun

-- A run of `runAggregatesProcessor`
pub data Processor : Type 0 where
  idle : Processor
  busy : UserTag → Processor

-- `marked` and `processed` are what has been marked and processed so far, `state` is that behind the
-- clients.
pub record Pipeline (S : Type 0) : Type 0 where
  pub claims : List ClaimRun
  pub tags_chan : List UserTag
  pub processors : List Processor
  pub marked : List Message
  pub processed : List UserTag
  pub state : S

module _ {S : Type 0} (p : Protobuf) (ids : Client S) (aggregates : AggregatesClient S)
    (retry : Exec S (Unit {0}) → Exec S (Unit {0})) where
  abbrev pub processing : UserTag → S → Result (Unit {0}) × S
  processing tag = update_aggregates_backoff ids aggregates retry tag

  pub data Step : Pipeline S → Pipeline S → Type 0 where
    receive :
        (m : Pipeline S) (before after : List ClaimRun) (msg : Message) (tag : UserTag)
        (events : List Event)
        → m.claims ≡ before ++ (receiving (message msg ∷ events) ∷ after)
        → unmarshal_user_tag p msg.value ≡ ok tag
        → Step m (record m { claims = before ++ (sending msg tag events ∷ after) })
    skip :
        (m : Pipeline S) (before after : List ClaimRun) (msg : Message) (e : Error)
        (events : List Event)
        → m.claims ≡ before ++ (receiving (message msg ∷ events) ∷ after)
        → unmarshal_user_tag p msg.value ≡ err e
        → Step m (record m { claims = before ++ (receiving events ∷ after) })
    send :
        (m : Pipeline S) (before after : List ClaimRun) (msg : Message) (tag : UserTag)
        (events : List Event)
        → m.claims ≡ before ++ (sending msg tag events ∷ after)
        → length m.tags_chan < chan_size
        → Step m (record m {
          claims = before ++ (marking msg events ∷ after);
          tags_chan = m.tags_chan ++ (tag ∷ []);
        })
    mark :
        (m : Pipeline S) (before after : List ClaimRun) (msg : Message) (events : List Event)
        → m.claims ≡ before ++ (marking msg events ∷ after)
        → Step m (record m {
          claims = before ++ (receiving events ∷ after);
          marked = m.marked ++ (msg ∷ []);
        })
    finish :
        (m : Pipeline S) (before after : List ClaimRun) (events : List Event)
        → m.claims ≡ before ++ (receiving (done ∷ events) ∷ after)
        → Step m (record m { claims = before ++ (ended events ∷ after) })
    take_tag :
        (m : Pipeline S) (before after : List Processor) (tag : UserTag) (tags : List UserTag)
        → m.processors ≡ before ++ (idle ∷ after)
        → m.tags_chan ≡ tag ∷ tags
        → Step m (record m { processors = before ++ (busy tag ∷ after); tags_chan = tags })
    -- An error is logged.
    process :
        (m : Pipeline S) (before after : List Processor) (tag : UserTag)
        → m.processors ≡ before ++ (busy tag ∷ after)
        → (processing tag m.state).0 ≢ panic
        → Step m (record m {
          processors = before ++ (idle ∷ after);
          processed = m.processed ++ (tag ∷ []);
          state = (processing tag m.state).1;
        })

  pub data Steps : Pipeline S → Pipeline S → Type 0 where
    stay : (m : Pipeline S) → Steps m m
    go : (m n o : Pipeline S) → Step m n → Steps n o → Steps m o

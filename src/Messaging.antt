-- ===== src/Messaging.antt =====
-- src/pkg/messaging: the producer, and the consumer of a claim. The Kafka client is a parameter: what
-- `SendMessage` does, and the sequence of what the `select` of `ConsumeClaim` receives.
pub mod Delivery
pub mod Topic
pub mod Consuming
use allezon.Base.{
  ℕ, String, Bool, true, false, List, [], ◌∷◌, ◌++◌, Result, ok, err, panic, wrap, if◌then◌else◌,
}
use allezon.Base.Exec.{Exec, ◌>>=◌, return, lift, wrapping}
use allezon.Types.{UserTag}
use allezon.Types.Marshal.{Protobuf, marshal_user_tag, unmarshal_user_tag}

abbrev pub user_tags_topic : String
user_tags_topic = "user-tags"

-- `Producer.Send`; `send_message` takes the topic and the value.
unfoldable pub send :
    {S : Type 0} → Protobuf → (String → List ℕ → Exec S (Unit {0})) → UserTag → Exec S (Unit {0})
send p send_message tag = do
  tag_bytes ← lift (wrap (marshal_user_tag p tag))
  wrapping (send_message user_tags_topic tag_bytes)

-- null.go
unfoldable pub null_send : {S : Type 0} → UserTag → Exec S (Unit {0})
null_send tag = return tt

pub record Message : Type 0 where
  pub value : List ℕ
  pub offset : ℕ

-- What the `select` receives: a message, the zero value of the closed channel (a nil pointer), or
-- the end of the session.
pub data Event : Type 0 where
  message : Message → Event
  closed done : Event

-- What a claim has put into `tags`, and the messages it has marked.
pub record Claim : Type 0 where
  pub tags : List UserTag
  pub marked : List Message

pub data Status : Type 0 where
  -- waits for the next event
  waiting : Status
  -- `return nil`
  returned : Status
  panicked : Status

unfoldable pub take_message : Message → Claim → Result UserTag → Claim
take_message msg claim (ok tag) = record {
  tags = claim.tags ++ (tag ∷ []);
  marked = claim.marked ++ (msg ∷ []);
}
take_message msg claim _ = claim

abbrev pub panics : Result UserTag → Bool
panics panic = true
panics _ = false

module _ (p : Protobuf) where
  unfoldable pub consume_claim : List Event → Claim → Status × Claim
  unfolding take_message
  consume_claim [] claim = (waiting, claim)
  consume_claim (message msg ∷ events) claim =
      let tag = unmarshal_user_tag p msg.value in
      let rest = consume_claim events (take_message msg claim tag) in
      if panics tag then (panicked, claim) else rest
  consume_claim (closed ∷ events) claim = (panicked, claim)
  consume_claim (done ∷ events) claim = (returned, claim)

-- ===== src/Messaging/Delivery.antt =====
-- Which messages of a claim reach the workers (src/pkg/messaging/consumer.go).
use allezon.Base.{◌≡◌, refl, false, List, [], ◌∷◌, ◌++◌, map, Result, ok, err, panic, All}
use mathlib.Core.List.{append_assoc, append-nil}
use allezon.Types.{UserTag}
use allezon.Types.Marshal.{Protobuf, unmarshal_user_tag}
use allezon.Messaging.{Message, Event, message, Claim, take_message, panics, consume_claim}

-- The tags that the messages hold, and the messages that hold one.
unfoldable pub tag_of : Result UserTag → List UserTag
tag_of (ok tag) = tag ∷ []
tag_of _ = []

unfoldable pub kept : Message → Result UserTag → List Message
kept msg (ok tag) = msg ∷ []
kept msg _ = []

module _ (p : Protobuf) where
  unfoldable pub tags_of : List Message → List UserTag
  unfolding tag_of
  tags_of [] = []
  tags_of (msg ∷ messages) = tag_of (unmarshal_user_tag p msg.value) ++ tags_of messages

  unfoldable pub well_formed : List Message → List Message
  unfolding kept
  well_formed [] = []
  well_formed (msg ∷ messages) = kept msg (unmarshal_user_tag p msg.value) ++ well_formed messages

  abbrev pub delivered : Claim → List Message → Claim
  delivered claim messages = record {
    tags = claim.tags ++ tags_of messages;
    marked = claim.marked ++ well_formed messages;
  }

  taken :
      (msg : Message) (messages : List Message) (claim : Claim) (tag : Result UserTag)
      → panics tag ≡ false
      → delivered (take_message msg claim tag) messages ≡ (record {
        tags = claim.tags ++ (tag_of tag ++ tags_of messages);
        marked = claim.marked ++ (kept msg tag ++ well_formed messages);
      })
  unfolding take_message tag_of kept
  taken msg messages claim (ok tag) safe = rw (
    append_assoc claim.tags (tag ∷ []) (tags_of messages),
    append_assoc claim.marked (msg ∷ []) (well_formed messages),
  )
  taken msg messages claim (err e) safe = refl
  taken msg messages claim panic safe = cc

  -- Of messages that do not make the decoder panic, the tags of those that decode are delivered, in
  -- their order, and these messages are marked; the others are skipped, and are not marked. The
  -- claim goes on with the events behind them.
  pub consume_claim_delivers :
      (messages : List Message) (more : List Event) (claim : Claim)
      → All (λ msg. panics (unmarshal_user_tag p msg.value) ≡ false) messages
      → consume_claim p (map message messages ++ more) claim
        ≡ consume_claim p more (delivered claim messages)
  unfolding consume_claim tags_of well_formed
  consume_claim_delivers [] more claim safe = rw (append-nil claim.tags, append-nil claim.marked)
  consume_claim_delivers (msg ∷ messages) more claim safe =
      let tag = unmarshal_user_tag p msg.value in
      let rest = consume_claim_delivers messages more (take_message msg claim tag) safe.1 in
      let first = safe.0 in rw (first, rest, taken msg messages claim tag safe.0)

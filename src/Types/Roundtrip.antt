-- ===== src/Types/Roundtrip.antt =====
-- Tags, marshalled and unmarshalled again (src/pkg/types/userTag.go).
use allezon.Base.{
  ℕ, ◌≡◌, ◌↔◌, ◌⊎◌, inl, inr, none, some, List, ok, err, panic, failed, wrapped, truncate,
  sign_extend, arith, Option-cases, FitsInt32, truncate-sign_extend8, sign_extend-truncate_iff,
}
use allezon.Types.{view, buy, UserTag, IsUserTag}
use allezon.Types.Marshal.{
  Protobuf, ProtobufLaws, PbUserTag, product_info_from_proto, user_tag_into_proto,
  user_tag_from_proto, marshal_user_tag, unmarshal_user_tag,
}

abbrev pub IsAction : ℕ → Type 0
IsAction a = (a ≡ view) ⊎ (a ≡ buy)

-- What a marshalled tag reads back as: the product id has been cut to 32 bits.
abbrev pub stored : UserTag → UserTag
stored tag = record tag {
  product_info = record tag.product_info {
    product_id = sign_extend 32 64 (truncate 32 tag.product_info.product_id);
  };
}

stored_iff :
    (tag : UserTag)
    → IsUserTag tag
    → (ok (stored tag) ≡ ok tag) ↔ FitsInt32 tag.product_info.product_id
stored_iff tag valid =
    let kept = sign_extend-truncate_iff tag.product_info.product_id valid.product_id in
    (λ e. kept.0 (ground arith), λ fits. ground (arith, kept.1 fits))

module _ (p : Protobuf) where
  -- The message of a tag whose action is known.
  abbrev message : UserTag → PbUserTag p.Timestamp
  message tag = record {
    time = some (p.new tag.time);
    cookie = tag.cookie;
    country = tag.country;
    device = sign_extend 8 32 tag.device;
    action = tag.action;
    origin = tag.origin;
    product_info = some (record {
      product_id = truncate 32 tag.product_info.product_id;
      brand_id = tag.product_info.brand_id;
      category_id = tag.product_info.category_id;
      price = tag.product_info.price;
    });
  }

  into_message :
      (tag : UserTag) → IsAction tag.action → user_tag_into_proto p tag ≡ ok (message tag)
  unfolding user_tag_into_proto
  into_message tag known = ground arith

  module _ (laws : ProtobufLaws p) where
    from_message :
        (tag : UserTag)
        → IsUserTag tag
        → IsAction tag.action
        → user_tag_from_proto p (message tag) ≡ ok (stored tag)
    unfolding user_tag_from_proto
    from_message tag valid known =
        ground (arith, laws.as_time-new tag.time, truncate-sign_extend8 tag.device)

    pub stored-unmarshal :
        (tag : UserTag) (bytes : List ℕ)
        → IsUserTag tag
        → IsAction tag.action
        → marshal_user_tag p tag ≡ ok bytes
        → unmarshal_user_tag p bytes ≡ ok (stored tag)
    unfolding marshal_user_tag unmarshal_user_tag
    stored-unmarshal tag bytes valid known h =
        let written : p.marshal (message tag) ≡ ok bytes = rw (into_message tag known) at h in
        rw (laws.unmarshal-marshal (message tag) bytes written, from_message tag valid known)

    -- A tag with a known action is marshalled, and the bytes read back as the same tag exactly when
    -- its product id fits an int32. (The bytes are those of a Kafka message and of a profile.)
    pub unmarshal-marshal_iff :
        (tag : UserTag)
        → IsUserTag tag
        → IsAction tag.action
        → (bytes : List ℕ) × (marshal_user_tag p tag ≡ ok bytes)
          × ((unmarshal_user_tag p bytes ≡ ok tag) ↔ FitsInt32 tag.product_info.product_id)
    unfolding marshal_user_tag unmarshal_user_tag
    unmarshal-marshal_iff tag valid known =
        let (bytes, written) = laws.marshal_total (message tag) in
        (
          bytes,
          rw (into_message tag known) written,
          rw (laws.unmarshal-marshal (message tag) bytes written, from_message tag valid known)
              (stored_iff tag valid),
        )

  -- A tag with any other action is not marshalled.
  pub marshal_unknown_action :
      (tag : UserTag) → ¬ IsAction tag.action → marshal_user_tag p tag ≡ err (wrapped failed)
  unfolding marshal_user_tag user_tag_into_proto
  marshal_unknown_action tag unknown = ground arith

  -- Bytes that decode to a message panic exactly when its action is known and its product
  -- information is missing.
  pub unmarshal_panics_iff :
      (bytes : List ℕ) (m : PbUserTag p.Timestamp)
      → p.unmarshal bytes ≡ ok m
      → (unmarshal_user_tag p bytes ≡ panic) ↔ (IsAction m.action × (m.product_info ≡ none))
  unfolding unmarshal_user_tag user_tag_from_proto product_info_from_proto
  unmarshal_panics_iff bytes m decoded = rw decoded (
    (λ e. elim (Option-cases m.product_info) [
      | inl nil ↦ (ground arith, nil)
      | inr (info, e') ↦ absurd (ground arith)
    ]),
    λ h. ground arith,
  )

-- ===== src/Cbor/Messages.antt =====
-- common/broker_protocol.h: the messages, and their `reflect` for the serializer and the deserializer.
-- For the deserializer, `reflect` starts from the message that the caller declares.
use zenoh_proxy.Prelude.{ℕ, List}
use zenoh_proxy.Cbor.{TinyCbor}
use zenoh_proxy.Cbor.Serializer
use zenoh_proxy.Cbor.Deserializer

-- `MsgType`
abbrev pub b_connect : ℕ
b_connect = 0

abbrev pub b_disconnect : ℕ
b_disconnect = 1

abbrev pub b_subscriber : ℕ
b_subscriber = 2

abbrev pub b_publisher : ℕ
b_publisher = 3

abbrev pub b_publish : ℕ
b_publish = 4

pub record MsgConnect : Type 0 where
  pub client_id : List ℕ

pub record MsgPublish : Type 0 where
  pub id : ℕ
  pub value : List ℕ

pub record MsgPublisher : Type 0 where
  pub id : ℕ
  pub topic : List ℕ

pub record MsgSubscriber : Type 0 where
  pub id : ℕ
  pub topic : List ℕ

module _ (t : TinyCbor) where
  -- `reflect(_toCbor).toBytes()` for a buffer of the given capacity.
  unfoldable pub connect_to_bytes : ℕ → MsgConnect → List ℕ
  connect_to_bytes capacity m =
      let s₁ = Serializer.member_int t b_connect (Serializer.begin t capacity) in
      Serializer.to_bytes t (Serializer.end t (Serializer.member_string t m.client_id s₁))

  unfoldable pub disconnect_to_bytes : ℕ → List ℕ
  disconnect_to_bytes capacity =
      Serializer.to_bytes t
        (Serializer.end t (Serializer.member_int t b_disconnect (Serializer.begin t capacity)))

  unfoldable pub publish_to_bytes : ℕ → MsgPublish → List ℕ
  publish_to_bytes capacity m =
      let s₁ = Serializer.member_int t b_publish (Serializer.begin t capacity) in
      let s₂ = Serializer.member_int t m.id s₁ in
      Serializer.to_bytes t (Serializer.end t (Serializer.member_bytes t m.value s₂))

  unfoldable pub publisher_to_bytes : ℕ → MsgPublisher → List ℕ
  publisher_to_bytes capacity m =
      let s₁ = Serializer.member_int t b_publisher (Serializer.begin t capacity) in
      let s₂ = Serializer.member_int t m.id s₁ in
      Serializer.to_bytes t (Serializer.end t (Serializer.member_string t m.topic s₂))

  unfoldable pub subscriber_to_bytes : ℕ → MsgSubscriber → List ℕ
  subscriber_to_bytes capacity m =
      let s₁ = Serializer.member_int t b_subscriber (Serializer.begin t capacity) in
      let s₂ = Serializer.member_int t m.id s₁ in
      Serializer.to_bytes t (Serializer.end t (Serializer.member_string t m.topic s₂))

  -- `reflect(_fromCbor.fromBytes(bs))`: the deserializer's state, whose `success()` the callers test,
  -- and the message.
  unfoldable pub base_from_bytes : ℕ → List ℕ → ℕ → Deserializer.CborDeserializer t × ℕ
  base_from_bytes capacity bs old =
      let (d, msg_type) =
        Deserializer.member_int t old
          (Deserializer.begin t (Deserializer.from_bytes capacity bs)) in
      (Deserializer.end t d, msg_type)

  -- A `const` member reads an item, and keeps its value.
  abbrev pub from_second : ℕ → List ℕ → Deserializer.CborDeserializer t
  from_second capacity bs =
      (Deserializer.member_int t 0 (Deserializer.begin t (Deserializer.from_bytes capacity bs))).0

  unfoldable pub connect_from_bytes :
      ℕ → List ℕ → MsgConnect → Deserializer.CborDeserializer t × MsgConnect
  connect_from_bytes capacity bs old =
      let (d, client_id) = Deserializer.member_string t old.client_id (from_second capacity bs) in
      (Deserializer.end t d, record { client_id = client_id })

  unfoldable pub disconnect_from_bytes : ℕ → List ℕ → Deserializer.CborDeserializer t
  disconnect_from_bytes capacity bs = Deserializer.end t (from_second capacity bs)

  unfoldable pub publish_from_bytes :
      ℕ → List ℕ → MsgPublish → Deserializer.CborDeserializer t × MsgPublish
  publish_from_bytes capacity bs old =
      let (d₁, id) = Deserializer.member_int t old.id (from_second capacity bs) in
      let (d₂, value) = Deserializer.member_bytes t old.value d₁ in
      (Deserializer.end t d₂, record { id = id; value = value })

  unfoldable pub publisher_from_bytes :
      ℕ → List ℕ → MsgPublisher → Deserializer.CborDeserializer t × MsgPublisher
  publisher_from_bytes capacity bs old =
      let (d₁, id) = Deserializer.member_int t old.id (from_second capacity bs) in
      let (d₂, topic) = Deserializer.member_string t old.topic d₁ in
      (Deserializer.end t d₂, record { id = id; topic = topic })

  unfoldable pub subscriber_from_bytes :
      ℕ → List ℕ → MsgSubscriber → Deserializer.CborDeserializer t × MsgSubscriber
  subscriber_from_bytes capacity bs old =
      let (d₁, id) = Deserializer.member_int t old.id (from_second capacity bs) in
      let (d₂, topic) = Deserializer.member_string t old.topic d₁ in
      (Deserializer.end t d₂, record { id = id; topic = topic })

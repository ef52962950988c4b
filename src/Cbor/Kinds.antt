-- ===== src/Cbor/Kinds.antt =====
-- common/broker_protocol.h: the five messages as one family, indexed by the value of `MsgType`. A
-- sender serializes a message; a receiver first reads its type with `MsgBase`, then the message.
use zenoh_proxy.Prelude.{ℕ, true, List, ◌≡◌, refl}
use zenoh_proxy.Cbor.{TinyCbor, Item}
use zenoh_proxy.Cbor.Laws.{Laws}
use zenoh_proxy.Cbor.Deserializer
use zenoh_proxy.Cbor.Reads.{NoNul, Carries}
use zenoh_proxy.Cbor.Written.{
  Fits, connect_items, disconnect_items, publish_items, publisher_items, subscriber_items,
  connect_to_bytes-Carries, disconnect_to_bytes-Carries, publish_to_bytes-Carries,
  publisher_to_bytes-Carries, subscriber_to_bytes-Carries,
}
use zenoh_proxy.Cbor.Messages.{
  b_connect, b_disconnect, b_subscriber, b_publisher, b_publish, MsgConnect, MsgPublish,
  MsgPublisher, MsgSubscriber, connect_to_bytes, disconnect_to_bytes, publish_to_bytes,
  publisher_to_bytes, subscriber_to_bytes, base_from_bytes, connect_from_bytes,
  disconnect_from_bytes, publish_from_bytes, publisher_from_bytes, subscriber_from_bytes,
}
use zenoh_proxy.Cbor.RoundTrip.{
  base_from_bytes-Carries, connect_from_bytes-Carries, disconnect_from_bytes-Carries,
  publish_from_bytes-Carries, publisher_from_bytes-Carries, subscriber_from_bytes-Carries,
  err-success,
}

pub data Kind : Type 0 where
  a_connect : Kind
  a_disconnect : Kind
  a_subscriber : Kind
  a_publisher : Kind
  a_publish : Kind

abbrev pub type_of : Kind → ℕ
type_of a_connect = b_connect
type_of a_disconnect = b_disconnect
type_of a_subscriber = b_subscriber
type_of a_publisher = b_publisher
type_of a_publish = b_publish

abbrev pub MessageOf : Kind → Type 0
MessageOf a_connect = MsgConnect
MessageOf a_disconnect = Unit
MessageOf a_subscriber = MsgSubscriber
MessageOf a_publisher = MsgPublisher
MessageOf a_publish = MsgPublish

-- The strings of a message hold no zero byte: the deserializer takes them as C strings.
abbrev pub IsPlain : (k : Kind) → MessageOf k → Type 0
IsPlain a_connect m = NoNul m.client_id
IsPlain a_disconnect m = Unit
IsPlain a_subscriber m = NoNul m.topic
IsPlain a_publisher m = NoNul m.topic
IsPlain a_publish m = Unit

abbrev pub items_of : (k : Kind) → MessageOf k → List Item
items_of a_connect m = connect_items m
items_of a_disconnect m = disconnect_items
items_of a_subscriber m = subscriber_items m
items_of a_publisher m = publisher_items m
items_of a_publish m = publish_items m

module _ (t : TinyCbor) where
  abbrev pub message_to_bytes : (k : Kind) → ℕ → MessageOf k → List ℕ
  message_to_bytes a_connect c m = connect_to_bytes t c m
  message_to_bytes a_disconnect c m = disconnect_to_bytes t c
  message_to_bytes a_subscriber c m = subscriber_to_bytes t c m
  message_to_bytes a_publisher c m = publisher_to_bytes t c m
  message_to_bytes a_publish c m = publish_to_bytes t c m

  -- The last argument is the variable before the call.
  abbrev pub message_from_bytes :
      (k : Kind) → ℕ → List ℕ → MessageOf k → Deserializer.CborDeserializer t × MessageOf k
  message_from_bytes a_connect capacity bs old = connect_from_bytes t capacity bs old
  message_from_bytes a_disconnect capacity bs old = (disconnect_from_bytes t capacity bs, old)
  message_from_bytes a_subscriber capacity bs old = subscriber_from_bytes t capacity bs old
  message_from_bytes a_publisher capacity bs old = publisher_from_bytes t capacity bs old
  message_from_bytes a_publish capacity bs old = publish_from_bytes t capacity bs old

  -- A read succeeds and leaves the value in the variable.
  abbrev pub Gives : {A : Type 0} → (Deserializer.CborDeserializer t × A) → A → Type 0
  Gives r x = (Deserializer.success t r.0 ≡ true) × (r.1 ≡ x)

  module _ (laws : Laws t) where
    message_to_bytes-Carries :
        (k : Kind) (c capacity : ℕ) (m : MessageOf k)
        → Fits t laws c capacity (items_of k m)
        → Carries t laws capacity (message_to_bytes k c m) (items_of k m)
    message_to_bytes-Carries a_connect c capacity m fits =
        connect_to_bytes-Carries t laws c capacity m fits
    message_to_bytes-Carries a_disconnect c capacity m fits =
        disconnect_to_bytes-Carries t laws c capacity fits
    message_to_bytes-Carries a_subscriber c capacity m fits =
        subscriber_to_bytes-Carries t laws c capacity m fits
    message_to_bytes-Carries a_publisher c capacity m fits =
        publisher_to_bytes-Carries t laws c capacity m fits
    message_to_bytes-Carries a_publish c capacity m fits =
        publish_to_bytes-Carries t laws c capacity m fits

    type-Carries :
        (k : Kind) (capacity old : ℕ) (bs : List ℕ) (m : MessageOf k)
        → Carries t laws capacity bs (items_of k m)
        → Gives (base_from_bytes t capacity bs old) (type_of k)
    type-Carries a_connect capacity old bs m h =
        err-success t _ (base_from_bytes-Carries t laws capacity old _ bs _ h)
    type-Carries a_disconnect capacity old bs m h =
        err-success t _ (base_from_bytes-Carries t laws capacity old _ bs _ h)
    type-Carries a_subscriber capacity old bs m h =
        err-success t _ (base_from_bytes-Carries t laws capacity old _ bs _ h)
    type-Carries a_publisher capacity old bs m h =
        err-success t _ (base_from_bytes-Carries t laws capacity old _ bs _ h)
    type-Carries a_publish capacity old bs m h =
        err-success t _ (base_from_bytes-Carries t laws capacity old _ bs _ h)

    message_from_bytes-Carries :
        (k : Kind) (capacity : ℕ) (bs : List ℕ) (m old : MessageOf k)
        → IsPlain k m
        → Carries t laws capacity bs (items_of k m)
        → Gives (message_from_bytes k capacity bs old) m
    message_from_bytes-Carries a_connect capacity bs m old plain h =
        err-success t _ (connect_from_bytes-Carries t laws capacity bs m old plain h)
    message_from_bytes-Carries a_disconnect capacity bs m old plain h =
        err-success t _ (disconnect_from_bytes-Carries t laws capacity bs h, refl)
    message_from_bytes-Carries a_subscriber capacity bs m old plain h =
        err-success t _ (subscriber_from_bytes-Carries t laws capacity bs m old plain h)
    message_from_bytes-Carries a_publisher capacity bs m old plain h =
        err-success t _ (publisher_from_bytes-Carries t laws capacity bs m old plain h)
    message_from_bytes-Carries a_publish capacity bs m old plain h =
        err-success t _ (publish_from_bytes-Carries t laws capacity bs m old h)

    -- With the laws of TinyCBOR: a message of any of the five types, whose strings hold no zero byte
    -- and whose items fit into the buffers, is read back from its bytes: first its type, by the
    -- reader of the base, then, by the reader of that type, the same message, both with success and
    -- whatever was in the variables.
    pub message_from_bytes-message_to_bytes :
        (k : Kind) (c capacity old_type : ℕ) (m old : MessageOf k)
        → IsPlain k m
        → Fits t laws c capacity (items_of k m)
        → Gives (base_from_bytes t capacity (message_to_bytes k c m) old_type) (type_of k)
          × Gives (message_from_bytes k capacity (message_to_bytes k c m) old) m
    message_from_bytes-message_to_bytes k c capacity old_type m old plain fits =
        let h = message_to_bytes-Carries k c capacity m fits in
        (
          type-Carries k capacity old_type _ m h,
          message_from_bytes-Carries k capacity _ m old plain h,
        )

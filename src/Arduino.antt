-- ===== src/Arduino.antt =====
-- zenoh-arduino/src/broker.h: the resources of the broker on the microcontroller, and the flows of a
-- publisher and a subscriber of `uint64_t` values. What a sketch does with its own values is not
-- modelled.
pub mod Node
pub mod Resources
pub mod Loopback
pub mod Handshake
pub mod Recovery
pub mod Drivers
pub mod Extractor
pub mod Agreement
pub mod Quiet
pub mod Board
pub mod Received
pub mod Announced
pub mod Steady
pub mod Wire
pub mod Tests
pub mod SystemTests
use zenoh_proxy.Prelude.Prefix.{starts_with}
use zenoh_proxy.Prelude.{
  ℕ, ◌+◌, ◌%◌, ◌^◌, Bool, true, false, Option, none, some, List, [], ◌∷◌, ◌++◌, ◌==◌, if◌then◌else◌,
  ◌&&◌, ◌||◌,
}
use zenoh_proxy.Cbor.{TinyCbor}
use zenoh_proxy.Cbor.Serializer
use zenoh_proxy.Cbor.Deserializer
use zenoh_proxy.Cbor.Messages.{publish_to_bytes, publish_from_bytes}

pub record Resource : Type 0 where
  pub id : ℕ
  pub key : List ℕ

-- `Broker`, without its flows.
pub record Broker : Type 0 where
  pub resource_id : ℕ
  pub publishers : List Resource
  pub subscribers : List Resource

-- "src/" and "dst/"
abbrev pub src_text : List ℕ
src_text = 115 ∷ 114 ∷ 99 ∷ 47 ∷ []

abbrev pub dst_text : List ℕ
dst_text = 100 ∷ 115 ∷ 116 ∷ 47 ∷ []

-- "esp32/"
abbrev pub esp_text : List ℕ
esp_text = 101 ∷ 115 ∷ 112 ∷ 51 ∷ 50 ∷ 47 ∷ []

abbrev pub broker_src_prefix : List ℕ
broker_src_prefix = src_text ++ esp_text

abbrev pub broker_dst_prefix : List ℕ
broker_dst_prefix = dst_text ++ esp_text

unfoldable pub topic_of : List ℕ → List ℕ → List ℕ
topic_of prefix name =
    if starts_with src_text name || starts_with dst_text name then name else prefix ++ name

-- `Broker::publisher` and `Broker::subscriber`, with the resource that they give.
unfoldable pub publisher : List ℕ → Broker → Broker × Resource
publisher name b =
    let r : Resource = record { id = b.resource_id; key = topic_of broker_src_prefix name } in
    (record b { resource_id = b.resource_id + 1; publishers = b.publishers ++ r ∷ [] }, r)

unfoldable pub subscriber : List ℕ → Broker → Broker × Resource
subscriber name b =
    let r : Resource = record { id = b.resource_id; key = topic_of broker_dst_prefix name } in
    (record b { resource_id = b.resource_id + 1; subscribers = b.subscribers ++ r ∷ [] }, r)

-- The size of the buffers of a publisher, of a subscriber and of the broker.
abbrev pub small : ℕ
small = 100

module _ (t : TinyCbor) where
  -- The lambda of `Publisher`: the value as an array, in a publish message. The value is a `const`
  -- reference, so that the `member` for an `int` is called, with its lower 32 bits.
  unfoldable pub value_bytes : ℕ → List ℕ
  value_bytes n =
      Serializer.to_bytes t
        (Serializer.end t (Serializer.member_int t (n % 2 ^ 32) (Serializer.begin t small)))

  unfoldable pub to_publish : Resource → ℕ → List ℕ
  to_publish r n = publish_to_bytes t small (record { id = r.id; value = value_bytes n })

  -- The lambda of `Subscriber`: the value that it emits, from one that is not initialised.
  unfoldable pub from_publish : ℕ → ℕ → List ℕ → Option ℕ
  from_publish junk old frame =
      let (d, m) = publish_from_bytes t small frame (record { id = junk; value = [] }) in
      let (inner, x) =
        Deserializer.member_uint t old
          (Deserializer.begin t (Deserializer.from_bytes small m.value)) in
      if Deserializer.success t d then some x else none

-- ===== src/Arduino/Node.antt =====
-- zenoh-arduino/src/BrokerSerial.cpp: the broker of the microcontroller on its serial line. The
-- payloads that it gives to `outgoingFrame` are kept in `outgoing`, the oldest first; `_frameToBytes`
-- frames each of them by `ppp_frame`. Readings of `Sys::millis` are the environment's.
use zenoh_proxy.Prelude.{
  ℕ, ◌+◌, ◌-◌, ◌%◌, ◌^◌, Bool, true, false, none, some, List, [], ◌∷◌, ◌++◌, ltb, ◌==◌,
  if◌then◌else◌, ◌&&◌,
}
use zenoh_proxy.Cbor.{TinyCbor}
use zenoh_proxy.Cbor.Deserializer
use zenoh_proxy.Cbor.Messages.{
  b_connect, b_disconnect, b_publish, base_from_bytes, connect_to_bytes, subscriber_to_bytes,
  publisher_to_bytes,
}
use zenoh_proxy.Arduino.{
  Resource, Broker, broker_src_prefix, publisher, subscriber, small, to_publish, from_publish,
}

-- `BrokerSerial`, with the last type that each filter has seen and how often the clock was read.
pub record BrokerSerial : Type 0 where
  pub broker : Broker
  pub uptime_pub : Resource
  pub latency_pub : Resource
  pub uptime_sub : Resource
  pub connected : Bool
  pub loopback_received : ℕ
  pub seen_publish : ℕ
  pub seen_connect : ℕ
  pub seen_disconnect : ℕ
  pub outgoing : List (List ℕ)
  pub clock_reads : ℕ

-- "system/uptime" and "system/latency"
abbrev pub uptime_text : List ℕ
uptime_text = 115 ∷ 121 ∷ 115 ∷ 116 ∷ 101 ∷ 109 ∷ 47 ∷ 117 ∷ 112 ∷ 116 ∷ 105 ∷ 109 ∷ 101 ∷ []

abbrev pub latency_text : List ℕ
latency_text = 115 ∷ 121 ∷ 115 ∷ 116 ∷ 101 ∷ 109 ∷ 47 ∷ 108 ∷ 97 ∷ 116 ∷ 101 ∷ 110 ∷ 99 ∷ 121 ∷ []

abbrev pub max_silence : ℕ
max_silence = 5000

-- `init`: what it does to the object; `_loopbackReceived` is not set.
unfoldable pub init : BrokerSerial → BrokerSerial
init n =
    let (b₁, up) = publisher uptime_text n.broker in
    let (b₂, latency) = publisher latency_text b₁ in
    let (b₃, loop) = subscriber (broker_src_prefix ++ uptime_text) b₂ in
    record n {
      broker = b₃;
      uptime_pub = up;
      latency_pub = latency;
      uptime_sub = loop;
      connected = false;
    }

-- A payload goes to `outgoingFrame`.
abbrev pub send : List ℕ → BrokerSerial → BrokerSerial
send payload n = record n { outgoing = n.outgoing ++ payload ∷ [] }

module _ (t : TinyCbor) where
  -- `MsgFilter`: the type read last, and whether the frame passes.
  unfoldable pub msg_filter : ℕ → ℕ → List ℕ → ℕ × Bool
  msg_filter msg_type old frame =
      let (d, found) = base_from_bytes t 1024 frame old in
      (found, Deserializer.success t d && (found == msg_type))

  -- The loops of the handler of `incomingConnect`.
  unfoldable pub announce_subscribers : List Resource → BrokerSerial → BrokerSerial
  announce_subscribers [] n = n
  announce_subscribers (r ∷ rs) n =
      announce_subscribers rs
        (send (subscriber_to_bytes t small (record { id = r.id; topic = r.key })) n)

  unfoldable pub announce_publishers : List Resource → BrokerSerial → BrokerSerial
  announce_publishers [] n = n
  announce_publishers (r ∷ rs) n =
      announce_publishers rs
        (send (publisher_to_bytes t small (record { id = r.id; topic = r.key })) n)

  unfoldable pub on_connect : BrokerSerial → BrokerSerial
  on_connect n =
      let n₁ : BrokerSerial = record n { connected = true } in
      let n₂ = announce_subscribers n₁.broker.subscribers n₁ in
      announce_publishers n₂.broker.publishers n₂

  module _ (millis : ℕ → ℕ) where
    -- The handler of `keepAliveTimer`.
    unfoldable pub keep_alive : BrokerSerial → BrokerSerial
    keep_alive n =
        let up : BrokerSerial = record n { clock_reads = n.clock_reads + 1 } in
        if n.connected
        then send (to_publish t n.uptime_pub (millis n.clock_reads)) up
        else send (connect_to_bytes t small (record { client_id = broker_src_prefix })) n

    -- The handler of `uptimeSub`; the difference is that of two `uint64_t`.
    unfoldable pub on_uptime : ℕ → BrokerSerial → BrokerSerial
    on_uptime x n =
        let delay = (millis n.clock_reads + 2 ^ 64 - x) % 2 ^ 64 in
        record (send (to_publish t n.latency_pub delay) n) {
          loopback_received = millis (n.clock_reads + 1);
          clock_reads = n.clock_reads + 2;
        }

    -- The handler of `connectTimer`.
    unfoldable pub connect_timer : BrokerSerial → BrokerSerial
    connect_timer n =
        let silence = (millis n.clock_reads + 2 ^ 64 - n.loopback_received) % 2 ^ 64 in
        let read : BrokerSerial = record n { clock_reads = n.clock_reads + 1 } in
        if ltb max_silence silence then record read { connected = false } else read

    module _ (junk old : ℕ) where
      -- `incomingPublish`, as far as `uptimeSub` is concerned.
      unfoldable pub on_publish : List ℕ → BrokerSerial → BrokerSerial
      on_publish frame n = elim (from_publish t junk old frame) [
        | none ↦ n
        | some x ↦ on_uptime x n
      ]

      -- The frames of `_bytesToFrame` go to three filters, one after another; nothing is connected to
      -- `incomingDisconnect`.
      unfoldable pub filtered_publish : List ℕ → BrokerSerial → BrokerSerial
      filtered_publish frame n =
          let (found, passes) = msg_filter b_publish n.seen_publish frame in
          let m : BrokerSerial = record n { seen_publish = found } in
          if passes then on_publish frame m else m

      unfoldable pub filtered_connect : List ℕ → BrokerSerial → BrokerSerial
      filtered_connect frame n =
          let (found, passes) = msg_filter b_connect n.seen_connect frame in
          let m : BrokerSerial = record n { seen_connect = found } in
          if passes then on_connect m else m

      unfoldable pub filtered_disconnect : List ℕ → BrokerSerial → BrokerSerial
      filtered_disconnect frame n =
          let (found, passes) = msg_filter b_disconnect n.seen_disconnect frame in
          record n { seen_disconnect = found }

      unfoldable pub on_frame : List ℕ → BrokerSerial → BrokerSerial
      on_frame frame n =
          filtered_disconnect frame (filtered_connect frame (filtered_publish frame n))

      unfoldable pub on_frames : List (List ℕ) → BrokerSerial → BrokerSerial
      on_frames [] n = n
      on_frames (frame ∷ frames) n = on_frames frames (on_frame frame n)

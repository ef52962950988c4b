-- ===== src/Proxy.antt =====
-- src/proxy.cpp: the filters and the handlers that `main` connects. `fromSerialMsg` gives each frame to
-- five filters, one after another; what goes to `toSerialMsg` is kept in `to_serial`, the oldest first.
-- zenoh and TinyCBOR are parameters; an `int` member that the program leaves uninitialised is `junk`.
pub mod Filters
pub mod Dispatch
pub mod Session
pub mod Mistyped
pub mod Line
pub mod Served
pub mod Startup
pub mod Tests
use zenoh_proxy.Prelude.{ℕ, Bool, true, false, List, [], ◌∷◌, ◌++◌, ◌==◌, if◌then◌else◌, ◌&&◌}
use zenoh_proxy.Cbor.{TinyCbor}
use zenoh_proxy.Cbor.Deserializer
use zenoh_proxy.Cbor.Messages.{
  b_connect, b_disconnect, b_subscriber, b_publisher, b_publish, connect_to_bytes, publish_to_bytes,
  base_from_bytes, connect_from_bytes, disconnect_from_bytes, publish_from_bytes,
  publisher_from_bytes, subscriber_from_bytes,
}
use zenoh_proxy.Broker.{
  BrokerZenoh, Call, Sub, connect, disconnect, subscriber, publisher, publish, subscribe_handler,
}

-- The state: the broker, the last type that each filter has seen, and the messages sent.
pub record Proxy : Type 0 where
  pub broker : BrokerZenoh
  pub seen_connect : ℕ
  pub seen_subscriber : ℕ
  pub seen_publisher : ℕ
  pub seen_publish : ℕ
  pub seen_disconnect : ℕ
  pub to_serial : List (List ℕ)

abbrev pub capacity : ℕ
capacity = 1024

-- "connected"
abbrev pub connected_text : List ℕ
connected_text = 99 ∷ 111 ∷ 110 ∷ 110 ∷ 101 ∷ 99 ∷ 116 ∷ 101 ∷ 100 ∷ []

module _ (t : TinyCbor) where
  -- `MsgFilter`: the type read last, and whether the frame passes.
  unfoldable pub msg_filter : ℕ → ℕ → List ℕ → ℕ × Bool
  msg_filter msg_type old frame =
      let (d, found) = base_from_bytes t capacity frame old in
      (found, Deserializer.success t d && (found == msg_type))

  -- What a sample of a subscription does.
  unfoldable pub on_sample : Sub → List ℕ → Proxy → Proxy
  on_sample sub value p =
      let (id, bs) = subscribe_handler sub value in
      record p {
        to_serial =
            p.to_serial ++ publish_to_bytes t capacity (record { id = id; value = bs }) ∷ [];
      }

  module _ (answer : List Call → Call → ℕ) (junk : ℕ) where
    unfoldable pub on_connect : List ℕ → Proxy → Proxy
    on_connect frame p =
        let (d, m) = connect_from_bytes t capacity frame (record { client_id = [] }) in
        let reply : List ℕ = connect_to_bytes t capacity (record { client_id = connected_text }) in
        if Deserializer.success t d
        then record p {
          broker = (connect answer m.client_id p.broker).0;
          to_serial = p.to_serial ++ reply ∷ [];
        }
        else p

    unfoldable pub on_subscriber : List ℕ → Proxy → Proxy
    on_subscriber frame p =
        let (d, m) = subscriber_from_bytes t capacity frame (record { id = junk; topic = [] }) in
        if Deserializer.success t d
        then record p { broker = (subscriber answer m.id m.topic p.broker).0 }
        else p

    unfoldable pub on_publisher : List ℕ → Proxy → Proxy
    on_publisher frame p =
        let (d, m) = publisher_from_bytes t capacity frame (record { id = junk; topic = [] }) in
        if Deserializer.success t d
        then record p { broker = (publisher answer m.id m.topic p.broker).0 }
        else p

    unfoldable pub on_publish : List ℕ → Proxy → Proxy
    on_publish frame p =
        let (d, m) = publish_from_bytes t capacity frame (record { id = junk; value = [] }) in
        if Deserializer.success t d
        then record p { broker = (publish answer m.id m.value p.broker).0 }
        else p

    unfoldable pub on_disconnect : List ℕ → Proxy → Proxy
    on_disconnect frame p =
        if Deserializer.success t (disconnect_from_bytes t capacity frame)
        then record p { broker = (disconnect p.broker).0 }
        else p

    -- A filter and the handler behind it.
    unfoldable pub filtered_connect : List ℕ → Proxy → Proxy
    filtered_connect frame p =
        let (found, passes) = msg_filter b_connect p.seen_connect frame in
        let q : Proxy = record p { seen_connect = found } in
        if passes then on_connect frame q else q

    unfoldable pub filtered_subscriber : List ℕ → Proxy → Proxy
    filtered_subscriber frame p =
        let (found, passes) = msg_filter b_subscriber p.seen_subscriber frame in
        let q : Proxy = record p { seen_subscriber = found } in
        if passes then on_subscriber frame q else q

    unfoldable pub filtered_publisher : List ℕ → Proxy → Proxy
    filtered_publisher frame p =
        let (found, passes) = msg_filter b_publisher p.seen_publisher frame in
        let q : Proxy = record p { seen_publisher = found } in
        if passes then on_publisher frame q else q

    unfoldable pub filtered_publish : List ℕ → Proxy → Proxy
    filtered_publish frame p =
        let (found, passes) = msg_filter b_publish p.seen_publish frame in
        let q : Proxy = record p { seen_publish = found } in
        if passes then on_publish frame q else q

    unfoldable pub filtered_disconnect : List ℕ → Proxy → Proxy
    filtered_disconnect frame p =
        let (found, passes) = msg_filter b_disconnect p.seen_disconnect frame in
        let q : Proxy = record p { seen_disconnect = found } in
        if passes then on_disconnect frame q else q

    -- The order in which `main` connects them.
    unfoldable pub on_frame : List ℕ → Proxy → Proxy
    on_frame frame p = filtered_disconnect frame (
        filtered_publish frame
          (filtered_publisher frame (filtered_subscriber frame (filtered_connect frame p))))

    unfoldable pub on_frames : List (List ℕ) → Proxy → Proxy
    on_frames [] p = p
    on_frames (frame ∷ frames) p = on_frames frames (on_frame frame p)

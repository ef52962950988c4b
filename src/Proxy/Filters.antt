-- ===== src/Proxy/Filters.antt =====
-- The filter and the handlers of src/proxy.cpp on a frame that carries the items of a message.
use zenoh_proxy.Prelude.{ℕ, List, [], ◌∷◌, ◌++◌, ◌==◌, ◌≡◌}
use zenoh_proxy.Cbor.{TinyCbor, Item, int}
use zenoh_proxy.Cbor.Laws.{Laws}
use zenoh_proxy.Cbor.Deserializer
use zenoh_proxy.Cbor.Reads.{NoNul, Carries}
use zenoh_proxy.Cbor.Written.{
  connect_items, disconnect_items, publish_items, publisher_items, subscriber_items,
}
use zenoh_proxy.Cbor.RoundTrip.{
  base_from_bytes-Carries, connect_from_bytes-Carries, disconnect_from_bytes-Carries,
  publish_from_bytes-Carries, publisher_from_bytes-Carries, subscriber_from_bytes-Carries,
}
use zenoh_proxy.Cbor.Messages.{
  MsgConnect, MsgPublish, MsgPublisher, MsgSubscriber, connect_to_bytes,
}
use zenoh_proxy.Broker.{Call, connect, disconnect, subscriber, publisher, publish}
use zenoh_proxy.Proxy.{
  Proxy, capacity, connected_text, msg_filter, on_connect, on_subscriber, on_publisher, on_publish,
  on_disconnect,
}

module _ (t : TinyCbor) (laws : Laws t) where
  pub msg_filter-Carries :
      (ty old n : ℕ) (frame : List ℕ) (xs : List Item)
      → Carries t laws capacity frame (int n ∷ xs)
      → msg_filter t ty old frame ≡ (n, n == ty)
  unfolding msg_filter Deserializer.success
  msg_filter-Carries ty old n frame xs h =
      let (ok, found) = base_from_bytes-Carries t laws capacity old n frame xs h in rw (ok, found)

  module _ (answer : List Call → Call → ℕ) (junk : ℕ) where
    pub on_connect-Carries :
        (frame : List ℕ) (m : MsgConnect) (p : Proxy)
        → NoNul m.client_id
        → Carries t laws capacity frame (connect_items m)
        → on_connect t answer junk frame p ≡ record p {
          broker = (connect answer m.client_id p.broker).0;
          to_serial =
              p.to_serial
              ++ connect_to_bytes t capacity (record { client_id = connected_text }) ∷ [];
        }
    unfolding on_connect Deserializer.success
    on_connect-Carries frame m p plain h =
        let (ok, same) =
          connect_from_bytes-Carries t laws capacity frame m (record { client_id = [] }) plain h in
        rw (ok, same)

    pub on_subscriber-Carries :
        (frame : List ℕ) (m : MsgSubscriber) (p : Proxy)
        → NoNul m.topic
        → Carries t laws capacity frame (subscriber_items m)
        → on_subscriber t answer junk frame p
          ≡ record p { broker = (subscriber answer m.id m.topic p.broker).0 }
    unfolding on_subscriber Deserializer.success
    on_subscriber-Carries frame m p plain h =
        let (ok, same) =
          subscriber_from_bytes-Carries t laws capacity frame m (record { id = junk; topic = [] })
            plain h in
        rw (ok, same)

    pub on_publisher-Carries :
        (frame : List ℕ) (m : MsgPublisher) (p : Proxy)
        → NoNul m.topic
        → Carries t laws capacity frame (publisher_items m)
        → on_publisher t answer junk frame p
          ≡ record p { broker = (publisher answer m.id m.topic p.broker).0 }
    unfolding on_publisher Deserializer.success
    on_publisher-Carries frame m p plain h =
        let (ok, same) =
          publisher_from_bytes-Carries t laws capacity frame m (record { id = junk; topic = [] })
            plain h in
        rw (ok, same)

    pub on_publish-Carries :
        (frame : List ℕ) (m : MsgPublish) (p : Proxy)
        → Carries t laws capacity frame (publish_items m)
        → on_publish t answer junk frame p
          ≡ record p { broker = (publish answer m.id m.value p.broker).0 }
    unfolding on_publish Deserializer.success
    on_publish-Carries frame m p h =
        let (ok, same) =
          publish_from_bytes-Carries t laws capacity frame m (record { id = junk; value = [] }) h in
        rw (ok, same)

    pub on_disconnect-Carries :
        (frame : List ℕ) (p : Proxy)
        → Carries t laws capacity frame disconnect_items
        → on_disconnect t answer junk frame p ≡ record p { broker = (disconnect p.broker).0 }
    unfolding on_disconnect Deserializer.success
    on_disconnect-Carries frame p h = rw (disconnect_from_bytes-Carries t laws capacity frame h)

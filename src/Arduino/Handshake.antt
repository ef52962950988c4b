-- ===== src/Arduino/Handshake.antt =====
-- What the microcontroller of zenoh-arduino/src/BrokerSerial.cpp does with a connect message: it
-- announces its resources.
use mathlib.Core.List.{map-append}
use zenoh_proxy.Prelude.{ℕ, ◌≡◌, ap, ◌∙◌, true, List, [], ◌∷◌, ◌++◌, map, append_assoc, append-nil}
use zenoh_proxy.Cbor.{TinyCbor}
use zenoh_proxy.Cbor.Laws.{Laws}
use zenoh_proxy.Cbor.Reads.{Carries}
use zenoh_proxy.Cbor.Written.{connect_items}
use zenoh_proxy.Cbor.Messages.{b_connect, b_publish}
use zenoh_proxy.Broker.{Op, subscribes, registers}
use zenoh_proxy.Proxy.{capacity}
use zenoh_proxy.Proxy.Line.{message}
use zenoh_proxy.Arduino.{Resource, Broker, small}
use zenoh_proxy.Arduino.Node
use zenoh_proxy.Arduino.Node.{
  BrokerSerial, max_silence, msg_filter, announce_subscribers, announce_publishers, on_connect,
  keep_alive, connect_timer, filtered_publish, filtered_connect, on_frame,
}
use zenoh_proxy.Arduino.Loopback.{msg_filter-Carries, skip_disconnect}

-- What the microcontroller asks of the proxy's broker once it is connected.
abbrev pub subscriptions : List Resource → List Op
subscriptions [] = []
subscriptions (r ∷ rs) = subscribes r.id r.key ∷ subscriptions rs

abbrev pub registrations : List Resource → List Op
registrations [] = []
registrations (r ∷ rs) = registers r.id r.key ∷ registrations rs

abbrev pub announcement : Broker → List Op
announcement b = subscriptions b.subscribers ++ registrations b.publishers

module _ (t : TinyCbor) (laws : Laws t) where
  subscribers-message :
      (rs : List Resource) (n : BrokerSerial)
      → announce_subscribers t rs n
        ≡ record n { outgoing = n.outgoing ++ map (message t small) (subscriptions rs) }
  unfolding announce_subscribers
  subscribers-message [] n = rw (append-nil n.outgoing)
  subscribers-message (r ∷ rs) n =
      let m : BrokerSerial = Node.send (message t small (subscribes r.id r.key)) n in
      subscribers-message rs m
      ∙ ap (λ out. record n { outgoing = out }) (append_assoc n.outgoing _ _)

  publishers-message :
      (rs : List Resource) (n : BrokerSerial)
      → announce_publishers t rs n
        ≡ record n { outgoing = n.outgoing ++ map (message t small) (registrations rs) }
  unfolding announce_publishers
  publishers-message [] n = rw (append-nil n.outgoing)
  publishers-message (r ∷ rs) n =
      let m : BrokerSerial = Node.send (message t small (registers r.id r.key)) n in
      publishers-message rs m
      ∙ ap (λ out. record n { outgoing = out }) (append_assoc n.outgoing _ _)

  on_connect-announcement :
      (n : BrokerSerial)
      → on_connect t n ≡ record n {
        connected = true;
        outgoing = n.outgoing ++ map (message t small) (announcement n.broker);
      }
  unfolding on_connect
  on_connect-announcement n =
      let n₁ : BrokerSerial = record n { connected = true } in
      let told = map (message t small) (subscriptions n.broker.subscribers) in
      rw (
        subscribers-message n.broker.subscribers n₁,
        publishers-message n.broker.publishers (record n₁ { outgoing = n.outgoing ++ told }),
        map-append (message t small) (subscriptions n.broker.subscribers)
            (registrations n.broker.publishers),
        append_assoc n.outgoing told (map (message t small) (registrations n.broker.publishers)),
      )

  module _ (millis : ℕ → ℕ) (junk old : ℕ) where
    skip_publish :
        (frame client_id : List ℕ) (n : BrokerSerial)
        → Carries t laws capacity frame (connect_items (record { client_id = client_id }))
        → filtered_publish t millis junk old frame n ≡ record n { seen_publish = b_connect }
    unfolding filtered_publish
    skip_publish frame client_id n h =
        rw (msg_filter-Carries t laws b_publish n.seen_publish b_connect frame _ h)

    hit_connect :
        (frame client_id : List ℕ) (n : BrokerSerial)
        → Carries t laws capacity frame (connect_items (record { client_id = client_id }))
        → filtered_connect t millis junk old frame n
          ≡ on_connect t (record n { seen_connect = b_connect })
    unfolding filtered_connect
    hit_connect frame client_id n h =
        rw (msg_filter-Carries t laws b_connect n.seen_connect b_connect frame _ h)

    -- A connect message connects the microcontroller, and it announces its resources.
    pub on_frame-connect :
        (frame client_id : List ℕ) (n : BrokerSerial)
        → Carries t laws capacity frame (connect_items (record { client_id = client_id }))
        → on_frame t millis junk old frame n ≡ record n {
          connected = true;
          outgoing = n.outgoing ++ map (message t small) (announcement n.broker);
          seen_publish = b_connect;
          seen_connect = b_connect;
          seen_disconnect = b_connect;
        }
    unfolding on_frame
    on_frame-connect frame client_id n h =
        let m : BrokerSerial = record n { seen_publish = b_connect; seen_connect = b_connect } in
        rw (
          skip_publish frame client_id n h,
          hit_connect frame client_id (record n { seen_publish = b_connect }) h,
          on_connect-announcement m,
          skip_disconnect t laws millis junk old b_connect frame _
              (record m {
                connected = true;
                outgoing = m.outgoing ++ map (message t small) (announcement m.broker);
              })
              h,
        )

-- ===== src/Arduino/Loopback.antt =====
-- A value of the microcontroller that comes back to it: from its publisher to its subscriber.
use zenoh_proxy.Prelude.{
  ℕ, ◌+◌, ◌-◌, ◌%◌, ◌^◌, ◌≤◌, ◌<◌, ◌≡◌, refl, false, some, List, [], ◌∷◌, ◌++◌, ◌==◌, arith, ltb,
  le→ltb,
}
use zenoh_proxy.Cbor.{TinyCbor, Item, int}
use zenoh_proxy.Cbor.Laws.{Laws}
use zenoh_proxy.Cbor.Serializer
use zenoh_proxy.Cbor.Deserializer
use zenoh_proxy.Cbor.Reads.{Carries, member_uint-Reads}
use zenoh_proxy.Cbor.Written.{
  Fits, publish_items, begin-Wrote, to_bytes-Carries, publish_to_bytes-Carries,
}
use zenoh_proxy.Cbor.RoundTrip.{base_from_bytes-Carries, publish_from_bytes-Carries}
use zenoh_proxy.Cbor.Messages.{MsgPublish, b_connect, b_disconnect, b_publish, publish_to_bytes}
use zenoh_proxy.Broker.{Sub, subscribe_handler}
use zenoh_proxy.Proxy.{Proxy, capacity, on_sample}
use zenoh_proxy.Arduino.{small, value_bytes, to_publish, from_publish}
use zenoh_proxy.Arduino.Node.{
  BrokerSerial, max_silence, msg_filter, on_uptime, connect_timer, on_publish, filtered_publish,
  filtered_connect, filtered_disconnect, on_frame, on_frames,
}

module _ (t : TinyCbor) (laws : Laws t) where
  pub value_bytes-Carries :
      (n : ℕ)
      → n < 2 ^ 31
      → laws.size (int n ∷ []) ≤ small
      → Carries t laws small (value_bytes t n) (int n ∷ [])
  unfolding value_bytes Serializer.member_int
  value_bytes-Carries n wide fits =
      let same : n % 2 ^ 32 ≡ n = omega (arith, wide) in
      rw same (
        to_bytes-Carries t laws small small _ (int n ∷ [])
          (laws.holds_int small _ [] n (begin-Wrote t laws small (int n ∷ []) fits) fits)
          (fits, fits))

  -- A publish message for a subscriber: any id, and a value.
  abbrev pub value_message : ℕ → ℕ → MsgPublish
  value_message id n = record { id = id; value = value_bytes t n }

  -- With the laws of TinyCBOR: the lambda of a subscriber gives the value that the publisher's lambda
  -- put into a message, if it is below 2^31, whatever the id of the message is.
  pub from_publish-Carries :
      (junk old id n : ℕ) (frame : List ℕ)
      → n < 2 ^ 31
      → laws.size (int n ∷ []) ≤ small
      → Carries t laws small frame (publish_items (value_message id n))
      → from_publish t junk old frame ≡ some n
  unfolding from_publish Deserializer.success
  from_publish-Carries junk old id n frame wide fits h =
      let (ok, same) =
        publish_from_bytes-Carries t laws small frame (value_message id n)
          (record { id = junk; value = [] }) h in
      let (got, rest) =
        member_uint-Reads t laws old n _ [] wide (value_bytes-Carries n wide fits) in
      rw (ok, same, got)

  pub msg_filter-Carries :
      (ty old n : ℕ) (frame : List ℕ) (xs : List Item)
      → Carries t laws capacity frame (int n ∷ xs)
      → msg_filter t ty old frame ≡ (n, n == ty)
  unfolding msg_filter Deserializer.success
  msg_filter-Carries ty old n frame xs h =
      let (ok, found) = base_from_bytes-Carries t laws capacity old n frame xs h in rw (ok, found)

  module _ (millis : ℕ → ℕ) (junk old : ℕ) where
    on_publish-value :
        (id x : ℕ) (frame : List ℕ) (n : BrokerSerial)
        → x < 2 ^ 31
        → laws.size (int x ∷ []) ≤ small
        → Carries t laws small frame (publish_items (value_message id x))
        → on_publish t millis junk old frame n ≡ on_uptime t millis x n
    unfolding on_publish
    on_publish-value id x frame n wide fits h =
        rw (from_publish-Carries junk old id x frame wide fits h, on_publish)

    filtered_publish-value :
        (id x : ℕ) (frame : List ℕ) (n : BrokerSerial)
        → x < 2 ^ 31
        → laws.size (int x ∷ []) ≤ small
        → Carries t laws small frame (publish_items (value_message id x))
        → Carries t laws capacity frame (publish_items (value_message id x))
        → filtered_publish t millis junk old frame n
          ≡ on_uptime t millis x (record n { seen_publish = b_publish })
    unfolding filtered_publish
    filtered_publish-value id x frame n wide fits h h' =
        rw (msg_filter-Carries b_publish n.seen_publish b_publish frame _ h')
          (on_publish-value id x frame (record n { seen_publish = b_publish }) wide fits h)

    skip_connect :
        (ty : ℕ) (frame : List ℕ) (xs : List Item) (n : BrokerSerial)
        → (ty == b_connect) ≡ false
        → Carries t laws capacity frame (int ty ∷ xs)
        → filtered_connect t millis junk old frame n ≡ record n { seen_connect = ty }
    unfolding filtered_connect
    skip_connect ty frame xs n other h =
        rw (msg_filter-Carries b_connect n.seen_connect ty frame xs h, other)

    pub skip_disconnect :
        (ty : ℕ) (frame : List ℕ) (xs : List Item) (n : BrokerSerial)
        → Carries t laws capacity frame (int ty ∷ xs)
        → filtered_disconnect t millis junk old frame n ≡ record n { seen_disconnect = ty }
    unfolding filtered_disconnect
    skip_disconnect ty frame xs n h =
        rw (msg_filter-Carries b_disconnect n.seen_disconnect ty frame xs h)

    on_frame-value :
        (id x : ℕ) (frame : List ℕ) (n : BrokerSerial)
        → x < 2 ^ 31
        → laws.size (int x ∷ []) ≤ small
        → Carries t laws small frame (publish_items (value_message id x))
        → Carries t laws capacity frame (publish_items (value_message id x))
        → on_frame t millis junk old frame n
          ≡ record (on_uptime t millis x (record n { seen_publish = b_publish })) {
            seen_connect = b_publish;
            seen_disconnect = b_publish;
          }
    unfolding on_frame
    on_frame-value id x frame n wide fits h h' =
        let m : BrokerSerial = on_uptime t millis x (record n { seen_publish = b_publish }) in
        rw (
          filtered_publish-value id x frame n wide fits h h',
          skip_connect b_publish frame _ m refl h',
          skip_disconnect b_publish frame _ (record m { seen_connect = b_publish }) h',
        )

    connect_timer-quiet :
        (m : BrokerSerial)
        → ltb max_silence ((millis m.clock_reads + 2 ^ 64 - m.loopback_received) % 2 ^ 64) ≡ false
        → (connect_timer t millis m).connected ≡ m.connected
    unfolding connect_timer
    connect_timer-quiet m quiet = rw quiet

    -- With the laws of TinyCBOR: let zenoh deliver a value below 2^31 that the microcontroller has
    -- published to a subscription of any id, at a proxy with nothing to send, and let the message of the proxy
    -- reach the microcontroller. Then the latency is published, the time of the loopback is noted,
    -- and, if at most 5 seconds pass until the connect timer ticks, it leaves the state of the
    -- connection as it is.
    pub on_sample-loopback :
        (sub : Sub) (x : ℕ) (p : Proxy) (n : BrokerSerial)
        → p.to_serial ≡ []
        → x < 2 ^ 31
        → laws.size (int x ∷ []) ≤ small
        → Fits t laws capacity small (publish_items (value_message sub.id x))
        → millis (n.clock_reads + 1) ≤ millis (n.clock_reads + 2)
        → millis (n.clock_reads + 2) ≤ millis (n.clock_reads + 1) + max_silence
        → millis (n.clock_reads + 2) < 2 ^ 64
        → let frames = (on_sample t sub (value_bytes t x) p).to_serial in
          let m = on_frames t millis junk old frames n in
          let delay = (millis n.clock_reads + 2 ^ 64 - x) % 2 ^ 64 in
          (m.outgoing ≡ n.outgoing ++ to_publish t n.latency_pub delay ∷ [])
          × (m.loopback_received ≡ millis (n.clock_reads + 1))
          × ((connect_timer t millis m).connected ≡ n.connected)
    unfolding on_sample subscribe_handler on_frames on_uptime
    on_sample-loopback sub x p n idle wide fits both order soon range =
        let frame : List ℕ = publish_to_bytes t capacity (value_message sub.id x) in
        let h = publish_to_bytes-Carries t laws capacity small (value_message sub.id x) both in
        let h' =
          publish_to_bytes-Carries t laws capacity capacity (value_message sub.id x)
            (both.0, both.0) in
        let quiet : ltb max_silence
              ((millis (n.clock_reads + 2) + 2 ^ 64 - millis (n.clock_reads + 1)) % 2 ^ 64)
            ≡ false =
          le→ltb _ _ (omega arith) in
        rw (idle, on_frame-value sub.id x frame n wide fits h h')
          (refl, refl, connect_timer-quiet _ quiet)

-- ===== src/Arduino/Steady.antt =====
-- The microcontroller and the proxy once they are connected: the value that the keep-alive timer
-- publishes, on its way to zenoh and back.
use zenoh_proxy.Prelude.{ℕ, ◌≤◌, List, [], ◌∷◌}
use zenoh_proxy.Cbor.{TinyCbor, int}
use zenoh_proxy.Cbor.Laws.{Laws}
use zenoh_proxy.Cbor.Written.{Fits, publish_items}
use zenoh_proxy.Broker.{Call, Sub}
use zenoh_proxy.Broker.Registered.{Registered}
use zenoh_proxy.Proxy.{capacity, on_sample}
use zenoh_proxy.Arduino.{small, value_bytes}
use zenoh_proxy.Arduino.Loopback.{value_message}
use zenoh_proxy.Arduino.Recovery.{System, connect_tick, downward, turn}

module _ (t : TinyCbor) (laws : Laws t) (answer : List Call → Call → ℕ) (millis : ℕ → ℕ)
    (junk old : ℕ) where
  -- The value of the next keep-alive tick.
  abbrev pub next_value : System → ℕ
  next_value s = millis s.node.clock_reads

  -- The message of a value fits into the buffers of both sides, under the id.
  abbrev pub CanPublish : ℕ → ℕ → Type 0
  CanPublish id x =
      (laws.size (int x ∷ []) ≤ small)
      × Fits t laws small capacity (publish_items (value_message t laws id x))

  -- Some time later: what zenoh has written comes back to a subscription, and the connect timer ticks.
  abbrev pub comes_back : Sub → ℕ → System → System
  comes_back sub x s = turn t answer millis junk old connect_tick (
      turn t answer millis junk old downward
        (record s { proxy = on_sample t sub (value_bytes t x) s.proxy }))

-- ===== src/Arduino/Tests.antt =====
-- The microcontroller's broker on concrete resources, values and bytes.
use zenoh_proxy.Prelude.Prefix.{starts_with}
use zenoh_proxy.Prelude.{◌+◌, ◌-◌, ◌%◌, ◌^◌, ◌≡◌, refl, true, false, List, [], ◌∷◌, ◌++◌, arith}
use zenoh_proxy.Frame.{receive}
use zenoh_proxy.Frame.Tests.{noon, fresh}
use zenoh_proxy.Cbor.Tests.{tagged, tagged_laws}
use zenoh_proxy.Cbor.Serializer
use zenoh_proxy.Cbor.Deserializer
use zenoh_proxy.Cbor.Messages.{publish_to_bytes, publish_from_bytes}
use zenoh_proxy.Broker.{Sub}
use zenoh_proxy.Proxy.{on_sample}
use zenoh_proxy.Proxy.Tests.{counting, idle}
use zenoh_proxy.Arduino.{
  some, publish_from_bytes, publish_to_bytes, from_publish, Resource, broker_src_prefix, publisher,
  subscriber, topic_of, to_publish, from_publish, value_bytes,
}
use zenoh_proxy.Arduino.Node.{BrokerSerial, init, uptime_text, latency_text}
use zenoh_proxy.Arduino.Node
use zenoh_proxy.Arduino.Resources.{
  Declaration, publishes_to, subscribes_to, declare_all, empty, WellFormed, init-WellFormed,
}
use zenoh_proxy.Arduino.Recovery.{
  System, connect_tick, keep_alive_tick, upward, downward, turns, CanAnnounce, Knows, turns-recover,
}
use zenoh_proxy.Arduino.Extractor.{BytesToFrame, device_receive}
use zenoh_proxy.Arduino.Agreement.{AgreeUnless, overruns_in, device_receive-receive}
use zenoh_proxy.Arduino.Loopback.{on_sample-loopback}

abbrev pub up : Resource
up = record { id = 0; key = broker_src_prefix ++ uptime_text }

abbrev pub latency : Resource
latency = record { id = 1; key = broker_src_prefix ++ latency_text }

abbrev pub loop : Resource
loop = record { id = 2; key = broker_src_prefix ++ uptime_text }

-- The object before `init`.
abbrev pub blank : BrokerSerial
blank = record {
  broker = empty;
  uptime_pub = up;
  latency_pub = up;
  uptime_sub = up;
  connected = true;
  loopback_received = 77;
  seen_publish = 9;
  seen_connect = 9;
  seen_disconnect = 9;
  outgoing = [];
  clock_reads = 0;
}

abbrev pub started : BrokerSerial
started = record blank {
  broker = record { resource_id = 3; publishers = up ∷ latency ∷ []; subscribers = loop ∷ [] };
  uptime_pub = up;
  latency_pub = latency;
  uptime_sub = loop;
  connected = false;
}

init-blank : init blank ≡ started
unfolding init publisher subscriber topic_of starts_with
init-blank = refl

-- A sketch with a publisher "led" and a subscriber "dst/x".
abbrev sketch : List Declaration
sketch = publishes_to (108 ∷ 101 ∷ 100 ∷ []) ∷ subscribes_to (100 ∷ 115 ∷ 116 ∷ 47 ∷ 120 ∷ []) ∷ []

init-WellFormed_example : WellFormed (declare_all sketch (init blank).broker)
unfolding declare_all
init-WellFormed_example = init-WellFormed [] sketch blank refl

abbrev pub system : System
system = record { node = started; proxy = idle }

system-CanAnnounce : CanAnnounce tagged tagged_laws counting noon 0 0 started.broker
system-CanAnnounce = (
  (
    (omega arith, (omega arith, omega arith)),
    (
      (omega arith, (omega arith, omega arith)),
      ((omega arith, (omega arith, omega arith)), ((omega arith, (omega arith, omega arith)), tt)),
    ),
  ),
  (omega arith, omega arith),
)

turns-recover_example : Knows tagged tagged_laws counting noon 0 0 system (
    turns tagged counting noon 0 0
      (connect_tick ∷ keep_alive_tick ∷ upward ∷ downward ∷ upward ∷ [])
      system)
turns-recover_example =
    turns-recover tagged tagged_laws counting noon 0 0 system (refl, refl) system-CanAnnounce
      (omega arith)

abbrev pub sub : Sub
sub = record { id = 42; key = up.key; zn_subscriber = 1 }

on_sample-loopback_example :
    let n : BrokerSerial = record started { connected = true } in
    let m =
      Node.on_frames tagged noon 0 0
        (on_sample tagged sub (value_bytes tagged 5000) idle).to_serial
        n in
    (m.outgoing ≡ to_publish tagged latency ((5200 + 2 ^ 64 - 5000) % 2 ^ 64) ∷ [])
    × (m.loopback_received ≡ 5200)
    × ((Node.connect_timer tagged noon m).connected ≡ true)
unfolding value_bytes Serializer.begin Serializer.end Serializer.to_bytes Serializer.member_int
on_sample-loopback_example =
    on_sample-loopback tagged tagged_laws noon 0 0 sub 5000 idle
      (record started { connected = true }) refl (omega arith) (omega arith)
      (omega arith, omega arith) (omega arith) (omega arith) (omega arith)

-- A value of 2^31 is written as a negative int, and the subscriber emits what its variable held.
half_way : from_publish tagged 0 77 (to_publish tagged latency 0x8000_0000) ≡ some 77
unfolding from_publish to_publish value_bytes Serializer.begin Serializer.end Serializer.to_bytes
    Serializer.member_int Serializer.member_bytes publish_to_bytes publish_from_bytes
    Deserializer.begin Deserializer.end Deserializer.from_bytes Deserializer.member_int
    Deserializer.member_bytes Deserializer.member_uint Deserializer.success
half_way = refl

abbrev pub extractor : BytesToFrame
extractor = record {
  input_frame = [];
  clean_data = [];
  last_frame_flag = 5000;
  emitted = [];
  printed = [];
  clock_reads = 0;
}

device_receive-receive_example :
    AgreeUnless
      (overruns_in noon fresh ((0x41 ∷ 0x7e ∷ []) ∷ []))
      (device_receive noon extractor ((0x41 ∷ 0x7e ∷ []) ∷ []))
      (receive noon fresh ((0x41 ∷ 0x7e ∷ []) ∷ []))
device_receive-receive_example =
    device_receive-receive noon extractor fresh ((0x41 ∷ 0x7e ∷ []) ∷ []) refl

-- ===== src/Proxy/Tests.antt =====
-- A client that connects, subscribes and publishes, through the proxy.
use zenoh_proxy.Prelude.{
  ℕ, List, [], ◌∷◌, ◌++◌, ◌≡◌, refl, All, some, map, arith, suc, length, ◌<◌, subst,
}
use zenoh_proxy.Ppp.{ppp_frame, frame_loop, add_escaped}
use zenoh_proxy.Fcs.{write, table_at, result}
use zenoh_proxy.Frame.{FrameExtractor, receive}
use zenoh_proxy.Frame.Delivery.{frames, IsPayload}
use zenoh_proxy.Frame.Tests.{noon, noon-IsQuiet, fresh}
use zenoh_proxy.Cbor.Tests.{tagged, tagged_laws, array_bytes}
use zenoh_proxy.Cbor.{int, text}
use zenoh_proxy.Cbor.Deserializer
use zenoh_proxy.Cbor.Mistyped.{TextLaw}
use zenoh_proxy.Proxy.Mistyped.{on_frame-text}
use zenoh_proxy.Proxy.Dispatch.{Acts}
use zenoh_proxy.Cbor.Serializer
use zenoh_proxy.Cbor.Messages.{connect_to_bytes, subscriber_to_bytes}
use zenoh_proxy.Broker.{Call, Op, connects, subscribes, publishes, construct, run}
use zenoh_proxy.Proxy.{connect_to_bytes, Proxy, on_frame, on_frames}
use zenoh_proxy.Proxy.Dispatch.{all_replies}
use zenoh_proxy.Proxy.Line.{message}
use zenoh_proxy.Proxy.Served.{turns-send_all}
use zenoh_proxy.Serial.{Os, minus_one, eagain}
use zenoh_proxy.Serial
use zenoh_proxy.Serial.Tests.{up, pending}
use zenoh_proxy.Serial.Receive.{received, Drains, rxd, rxd_loop}
use zenoh_proxy.Sessions.Line.{SerialSession, after_rxd, emit, invoke}
use zenoh_proxy.Sessions.Turns.{turns, FailsEmpty}
use zenoh_proxy.Sessions.Sending.{WritesTake, send_all}
use zenoh_proxy.Serial.Transmit.{written}

abbrev pub counting : List Call → Call → ℕ
counting cs c = suc (length cs)

abbrev pub idle : Proxy
idle = record {
  broker = construct;
  seen_connect = 9;
  seen_subscriber = 9;
  seen_publisher = 9;
  seen_publish = 9;
  seen_disconnect = 9;
  to_serial = [];
}

abbrev history : List Op
history = connects (65 ∷ []) ∷ subscribes 3 (66 ∷ []) ∷ []

abbrev messages : List (List ℕ)
messages = map (message tagged 100) history

messages-IsPayload : All IsPayload messages
unfolding connect_to_bytes subscriber_to_bytes Serializer.begin Serializer.end Serializer.to_bytes
    Serializer.member_int Serializer.member_string
messages-IsPayload = ((omega arith, λ e. cc), ((omega arith, λ e. cc), tt))

messages-short : length (frames messages) ≡ 20
unfolding connect_to_bytes subscriber_to_bytes Serializer.begin Serializer.end Serializer.to_bytes
    Serializer.member_int Serializer.member_string frames ppp_frame frame_loop add_escaped write
    table_at result
messages-short = refl

-- The frames come with the first read; then nothing is there. A write takes three bytes.
abbrev feed : Os
feed [] c = record { rc = 20; err = 0; input = frames messages }
feed (d ∷ ds) (Serial.sys_write fd bs) = record { rc = 3; err = 0; input = [] }
feed (d ∷ ds) c = record { rc = minus_one; err = eagain; input = [] }

feed-Drains : Drains feed pending 5
feed-Drains [] good nonzero = omega arith
feed-Drains (c ∷ cs) good nonzero = cc

feed-FailsEmpty : FailsEmpty feed 5
feed-FailsEmpty [] bad = cc
feed-FailsEmpty (c ∷ cs) bad = refl

feed-WritesTake : WritesTake feed 5
feed-WritesTake [] b bs = (refl, omega arith)
feed-WritesTake (c ∷ cs) b bs = (refl, omega arith)

pending-lt : (cs : List Serial.Call) → pending cs < 2
pending-lt [] = omega arith
pending-lt (c ∷ cs) = omega arith

abbrev opened_line : SerialSession
opened_line = record {
  serial_port = up;
  port = [];
  baudrate = 115200;
  rxd_buffer = [];
  watches = [];
  incoming = [];
}

abbrev served_line : SerialSession
served_line = record opened_line {
  serial_port = record up {
    errno = eagain;
    calls = Serial.sys_read 5 ∷ Serial.sys_read 5 ∷ Serial.sys_read 5 ∷ [];
  };
  incoming = frames messages ∷ [];
}

two_turns : turns feed 2 2 opened_line ≡ some served_line
unfolding turns invoke rxd rxd_loop after_rxd emit Serial.construct connect_to_bytes
    subscriber_to_bytes Serializer.begin Serializer.end Serializer.to_bytes Serializer.member_int
    Serializer.member_string frames ppp_frame frame_loop add_escaped write table_at result
two_turns = refl

served_line-received : received feed served_line.serial_port.calls ≡ [] ++ frames messages
unfolding received connect_to_bytes subscriber_to_bytes Serializer.begin Serializer.end
    Serializer.to_bytes Serializer.member_int Serializer.member_string frames ppp_frame frame_loop
    add_escaped write table_at result
served_line-received = refl

two_turns-received :
    (s' : SerialSession)
    → turns feed 2 2 opened_line ≡ some s'
    → received feed s'.serial_port.calls
      ≡ received feed opened_line.serial_port.calls ++ frames messages
unfolding received Serial.construct
two_turns-received s' e =
    let same : served_line ≡ s' = cc (two_turns, e) in
    subst (λ q. received feed q.serial_port.calls ≡ [] ++ frames messages) same served_line-received

replies_short :
    All (λ bs. length bs < 0x8000_0000) (map ppp_frame (all_replies tagged tagged_laws history))
unfolding connect_to_bytes Serializer.begin Serializer.end Serializer.to_bytes Serializer.member_int
    Serializer.member_string frames ppp_frame frame_loop add_escaped write table_at result
replies_short = (omega arith, tt)

turns-send_all_example :
    (read wrote : SerialSession) × (e' : FrameExtractor) × (turns feed 2 2 opened_line ≡ some read)
    × (receive noon fresh read.incoming ≡ some e')
    × ((on_frames tagged counting 0 e'.emitted idle).broker ≡ run counting construct history)
    × (send_all feed (map ppp_frame (on_frames tagged counting 0 e'.emitted idle).to_serial) read
        ≡ some wrote)
    × (written feed wrote.serial_port.calls
        ≡ written feed opened_line.serial_port.calls
          ++ frames (all_replies tagged tagged_laws history))
unfolding Serial.construct
turns-send_all_example =
    turns-send_all tagged tagged_laws feed counting 0 100 history idle noon 5000 100 noon-IsQuiet
      fresh pending 2 2 opened_line
      (
        ((omega arith, tt), (omega arith, omega arith)),
        (((omega arith, tt), (omega arith, omega arith)), tt),
      )
      messages-IsPayload replies_short refl refl refl
      (omega arith, omega arith, omega (arith, messages-short)) refl refl feed-Drains
      feed-FailsEmpty feed-WritesTake pending-lt two_turns-received

-- A publish message for the id 7 with the text "hi".
abbrev hi_frame : List ℕ
hi_frame = array_bytes (int 4 ∷ int 7 ∷ text (104 ∷ 105 ∷ []) ∷ [])

abbrev tagged_text : TextLaw tagged tagged_laws
tagged_text = record { not_bytes = λ v bs xs h. rw h refl }

on_frame-text_example :
    Acts tagged tagged_laws counting 5
      (publishes 7 [])
      idle
      (on_frame tagged counting 5 hi_frame idle)
unfolding Deserializer.begin Deserializer.from_bytes
on_frame-text_example =
    on_frame-text tagged tagged_laws tagged_text counting 5 7 (104 ∷ 105 ∷ []) hi_frame idle
      (refl, refl)

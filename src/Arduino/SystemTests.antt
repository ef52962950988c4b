-- ===== src/Arduino/SystemTests.antt =====
-- The microcontroller and the proxy together, and the microcontroller with its port, on concrete
-- values.
use mathlib.Core.List.{flatten}
use zenoh_proxy.Prelude.{ℕ, ◌≡◌, refl, true, some, List, [], ◌∷◌, arith, length, append-nil, subst}
use zenoh_proxy.Ppp.{ppp_frame, frame_loop, add_escaped}
use zenoh_proxy.Fcs.{write, table_at, result}
use zenoh_proxy.Frame.View.{readings}
use zenoh_proxy.Frame.Delivery.{frames, IsPayload}
use zenoh_proxy.Frame.Tests.{
  fresh, noon, noon-IsQuiet, payloads, chunks, payloads-IsPayload, chunks-frames,
}
use zenoh_proxy.Cbor.Tests.{tagged}
use zenoh_proxy.Cbor.Serializer
use zenoh_proxy.Cbor.Messages.{connect_to_bytes}
use zenoh_proxy.Broker.{connects, construct, run}
use zenoh_proxy.Broker.Registered.{Registered}
use zenoh_proxy.Proxy.Tests.{counting, idle}
use zenoh_proxy.Proxy.Line.{message}
use zenoh_proxy.Arduino.{broker_src_prefix, small}
use zenoh_proxy.Arduino.Node.{on_frames, keep_alive}
use zenoh_proxy.Arduino.Handshake.{announcement}
use zenoh_proxy.Arduino.Recovery.{System, keep_alive_tick, upward, turns}
use zenoh_proxy.Arduino.Board.{Board, loops}
use zenoh_proxy.Arduino.Received.{loops-frames}
use zenoh_proxy.Arduino.Wire.{
  Wire, Event, keep_alive_ticks, carries_up, system_of, IsClean, May, MayAll, happens, history,
  history-turns,
}
use zenoh_proxy.Arduino.Tests.{started, extractor}

-- As a recovery leaves the two.
abbrev recovered : System
recovered = record {
  node = record started { connected = true };
  proxy = record idle {
    broker = run counting construct (connects broker_src_prefix ∷ announcement started.broker);
  };
}

abbrev board : Board
board = record {
  brkr = started;
  bytes_to_frame = extractor;
  led = record { on = 1; interval = 100; written = [] };
  received = [];
  written = [];
}

loops-frames_example :
    (b' : Board) × (loops tagged noon noon 0 0 (λ x. x) chunks board ≡ some b')
    × (b'.brkr ≡ on_frames tagged noon 0 0 payloads started)
    × (b'.received ≡ [])
    × (b'.bytes_to_frame.input_frame ≡ [])
unfolding readings
loops-frames_example =
    loops-frames tagged noon noon 0 0 5000 100 noon-IsQuiet board payloads chunks
      ((λ e. cc), ((λ e. cc), tt)) refl refl payloads-IsPayload chunks-frames
      (omega arith, omega arith, omega arith)

abbrev wire : Wire
wire = record { board = board; extractor = fresh; proxy = idle }

-- What the microcontroller sends to connect.
abbrev hello : List ℕ
hello = message tagged small (connects broker_src_prefix)

abbrev events : List Event
events = keep_alive_ticks ∷ carries_up (frames (hello ∷ []) ∷ []) ∷ []

abbrev ticked : Wire
ticked = record wire { board = record board { brkr = record started { outgoing = hello ∷ [] } } }

hello-IsPayload : IsPayload hello
unfolding connect_to_bytes Serializer.begin Serializer.end Serializer.to_bytes Serializer.member_int
    Serializer.member_string
hello-IsPayload = (omega arith, λ e. cc)

hello-short : length (frames (hello ∷ [])) ≡ 18
unfolding connect_to_bytes Serializer.begin Serializer.end Serializer.to_bytes Serializer.member_int
    Serializer.member_string frames ppp_frame frame_loop add_escaped write table_at result
hello-short = refl

wire-MayAll : MayAll tagged counting noon noon noon 0 0 events wire
unfolding happens keep_alive readings flatten frames
wire-MayAll = (
  tt,
  λ w' e.
      let same : ticked ≡ w' = cc e in
      (
        subst (May tagged counting noon noon noon 0 0 (carries_up (frames (hello ∷ []) ∷ []))) same
            (
              5000,
              100,
              noon-IsQuiet,
              (hello-IsPayload, tt),
              append-nil (frames (hello ∷ [])),
              (omega arith, omega arith, omega (arith, hello-short)),
            ),
        λ w'' e'. tt,
      ),
)

history-turns_example :
    (w' : Wire) × (history tagged counting noon noon noon 0 0 events wire ≡ some w')
    × (system_of w'
        ≡ turns tagged counting noon 0 0
            (keep_alive_tick ∷ upward ∷ [])
            (record { node = started; proxy = idle }))
    × IsClean w'
history-turns_example =
    history-turns tagged counting noon noon noon 0 0 events wire (refl, refl, refl) wire-MayAll

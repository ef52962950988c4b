-- ===== src/Sessions/Tests.antt =====
-- Sessions against systems that answer in a fixed way.
use zenoh_proxy.Prelude.{
  ℕ, false, Option, some, List, [], ◌∷◌, ◌++◌, ◌≡◌, refl, arith, ◌==◌, if◌then◌else◌,
}
use mathlib.Core.List.{flatten}
use zenoh_proxy.Tcp.Sockets.{sys_inet_pton, sys_socket}
use zenoh_proxy.Tcp.Sockets
use zenoh_proxy.Sessions.{is_read}
use zenoh_proxy.Sessions.Tunnel.{TcpSession, Event, connects, readable, sends, fails, run}
use zenoh_proxy.Sessions.Tunnelled.{Watched, StaysOpen, connections, run-Watched}
use zenoh_proxy.Sessions.Line.{SerialSession, invoke, invoke-received}
use zenoh_proxy.Sessions.Net
use zenoh_proxy.Serial.Tests.{source, pending, source-Drains, up}
use zenoh_proxy.Serial.Receive.{received, last_error}
use zenoh_proxy.Serial.{construct}

-- Each socket is 5, the address is good, and all else is 0.
abbrev serving : List Sockets.Call → Sockets.Call → ℕ
serving cs (sys_inet_pton addr) = 1
serving cs sys_socket = 5
serving cs c = 0

abbrev resolves : List ℕ → List ℕ → Option (List ℕ)
resolves addr port = some (49 ∷ [])

abbrev pub unused : TcpSession
unused = record {
  socket = 0;
  connected = false;
  calls = [];
  watches = [];
  incoming = [];
  sent = [];
}

abbrev history : List Event
history =
    connects ∷ readable 2 (1 ∷ 2 ∷ []) ∷ sends (3 ∷ []) ∷ readable 0 [] ∷ connects ∷ fails ∷ []

-- Two connections: two sockets stay open.
two_connections : connections serving resolves history (49 ∷ []) unused ≡ 2
unfolding connections Sockets.open_tx_session
two_connections = refl

run-Watched_example :
    (s' : TcpSession) × (run serving resolves history unused ≡ some s')
    × Watched s'
    × StaysOpen serving resolves (connections serving resolves history (49 ∷ []) unused) unused s'
unfolding is_read
run-Watched_example = run-Watched serving resolves (49 ∷ []) history unused refl refl

abbrev line : SerialSession
line = record {
  serial_port = up;
  port = [];
  baudrate = 115200;
  rxd_buffer = [];
  watches = [];
  incoming = [];
}

invoke-received_example :
    (s' : SerialSession) × (out : List ℕ) × (invoke source 2 line ≡ some s')
    × (received source s'.serial_port.calls ≡ received source up.calls ++ out)
    × (flatten s'.incoming
        ≡ [] ++ (if last_error source s'.serial_port s'.serial_port.calls == 0 then out else []))
unfolding construct flatten
invoke-received_example = invoke-received source pending 2 line refl source-Drains (omega arith)

abbrev handles : List Net.Call → Net.Call → ℕ
handles cs c = 7

abbrev session_history : List Net.Op
session_history =
    Net.opens
    ∷ Net.subscribes (65 ∷ [])
    ∷ Net.subscribes (65 ∷ [])
    ∷ Net.closes
    ∷ Net.subscribes (66 ∷ [])
    ∷ []

run-close-balance_example :
    let s = Net.close (Net.run handles Net.construct session_history) in
    Net.declared handles 7 s.calls ≡ Net.undeclared handles 7 s.calls
run-close-balance_example = Net.run-close-balance handles 7 session_history (λ e. omega (arith, e))

-- ===== src/Sessions/Tunnel.antt =====
-- src-pico/tcp_session.cpp: `TcpSession`, over the sockets of src-pico/tcp.cpp.
use zenoh_proxy.Prelude.{
  ℕ, Bool, true, false, Option, none, some, List, [], ◌∷◌, ◌++◌, take, if◌then◌else◌, ◌>>=◌,
}
use zenoh_proxy.Tcp.{positive}
use zenoh_proxy.Tcp.Sockets.{Call, close_tx_session}
use zenoh_proxy.Tcp.Locator.{Opening, opening_exits, opening_undefined, opens, open_locator}
use zenoh_proxy.Sessions.{Watch, add_read_invoker, add_error_invoker, delete_invoker}

-- `TcpSession`, with the calls for sockets, the requests to the thread, what it emits and what it
-- gives to `send`.
pub record TcpSession : Type 0 where
  pub socket : ℕ
  pub connected : Bool
  pub calls : List Call
  pub watches : List Watch
  pub incoming : List (List ℕ)
  pub sent : List (ℕ × List ℕ)

-- "tcp/localhost:7447"
abbrev pub locator : List ℕ
locator =
    116 ∷ 99 ∷ 112 ∷ 47 ∷ 108 ∷ 111 ∷ 99 ∷ 97 ∷ 108 ∷ 104 ∷ 111 ∷ 115 ∷ 116 ∷ 58 ∷ 55 ∷ 52 ∷ 52 ∷ 55
    ∷ []

-- `disconnect` shuts the connection down, and forgets the descriptor.
unfoldable pub disconnect : TcpSession → TcpSession × Bool
disconnect s = (
  record s {
    calls = close_tx_session s.socket s.calls;
    connected = false;
    watches = delete_invoker s.socket ∷ s.watches;
  },
  true,
)

-- `invoke`: what `recv` returns, and the bytes that it stores.
unfoldable pub invoke : ℕ → List ℕ → TcpSession → TcpSession
invoke rb bs s =
    if positive rb then record s { incoming = s.incoming ++ take rb bs ∷ [] } else (disconnect s).0

unfoldable pub on_error : TcpSession → TcpSession
on_error s = (disconnect s).0

-- The lambda of `outgoing`: what `send` returns is only logged.
unfoldable pub outgoing : List ℕ → TcpSession → TcpSession
outgoing bs s = record s { sent = s.sent ++ (s.socket, bs) ∷ [] }

-- What happens to a session.
pub data Event : Type 0 where
  connects : Event
  disconnects : Event
  readable : ℕ → List ℕ → Event
  fails : Event
  sends : List ℕ → Event

-- `connect` behind `_zn_open_tx_session`: it returns false when the connection is open.
unfoldable pub connect_opened : List Call → Option ℕ → TcpSession → TcpSession × Bool
connect_opened cs (some fd) s = (
  record s {
    socket = fd;
    calls = cs;
    watches = add_error_invoker fd ∷ add_read_invoker fd ∷ s.watches;
    connected = true;
  },
  false,
)
connect_opened cs none s = (
  record s { calls = cs; connected = false; watches = delete_invoker s.socket ∷ s.watches },
  true,
)

unfoldable pub connect_opening : Opening → TcpSession → Option (TcpSession × Bool)
connect_opening opening_exits s = none
connect_opening opening_undefined s = none
connect_opening (opens cs socket) s = some (connect_opened cs socket s)

module _ (os : List Call → Call → ℕ) (resolve : List ℕ → List ℕ → Option (List ℕ)) where
  -- `none` when the program ends or undefined behaviour follows.
  unfoldable pub connect : TcpSession → Option (TcpSession × Bool)
  connect s = connect_opening (open_locator os resolve locator s.calls) s

  unfoldable pub step : Event → TcpSession → Option TcpSession
  step connects s = do r ← connect s; some r.0
  step disconnects s = some (disconnect s).0
  step (readable rb bs) s = some (invoke rb bs s)
  step fails s = some (on_error s)
  step (sends bs) s = some (outgoing bs s)

  unfoldable pub run : List Event → TcpSession → Option TcpSession
  run [] s = some s
  run (e ∷ es) s = do s' ← step e s; run es s'

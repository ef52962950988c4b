-- ===== src/Pico.antt =====
-- src-pico/proxy.cpp: the proxy that serves the commands of a client for one TCP connection. What a
-- handler does to the session or to the serial line is an action.
pub mod Commands
pub mod Stream
pub mod Tests
use zenoh_proxy.Prelude.{
  ℕ, Bool, true, false, Option, none, some, List, [], ◌∷◌, ◌++◌, ◌==◌, if◌then◌else◌,
}
use zenoh_proxy.Ppp.{ppp_frame}

-- serial_protocol.h
abbrev pub tcp_open : ℕ
tcp_open = 0x4f

abbrev pub tcp_close : ℕ
tcp_close = 0x43

abbrev pub tcp_send : ℕ
tcp_send = 0x53

abbrev pub tcp_recv : ℕ
tcp_recv = 0x52

abbrev pub tcp_connected : ℕ
tcp_connected = 0x63

abbrev pub tcp_disconnected : ℕ
tcp_disconnected = 0x64

pub data Action : Type 0 where
  tcp_connect : Action
  tcp_disconnect : Action
  tcp_outgoing : List ℕ → Action
  serial_outgoing : List ℕ → Action
  serial_disconnect : Action

unfoldable pub header_frame : ℕ → List ℕ → List ℕ
header_frame header value = ppp_frame (header ∷ value)

unfoldable pub cmd_frame : ℕ → List ℕ
cmd_frame header = ppp_frame (header ∷ [])

-- What arrives from the TCP connection goes out in a frame.
unfoldable pub on_tcp_incoming : List ℕ → List Action
unfolding header_frame
on_tcp_incoming value = serial_outgoing (header_frame tcp_recv value) ∷ []

-- What arrives from the serial line is taken as a command; an empty vector has no first byte, which is
-- undefined.
unfoldable pub on_serial_incoming : List ℕ → Option (List Action)
on_serial_incoming [] = none
on_serial_incoming (header ∷ value) = some (
    if header == tcp_open
    then tcp_connect ∷ []
    else (if header == tcp_close
        then tcp_disconnect ∷ []
        else (if header == tcp_send then tcp_outgoing value ∷ [] else [])))

unfoldable pub on_tcp_connected : Bool → List Action
unfolding cmd_frame
on_tcp_connected true = serial_outgoing (cmd_frame tcp_connected) ∷ []
on_tcp_connected false = serial_outgoing (cmd_frame tcp_disconnected) ∷ []

-- The handler of the session's own `connected`.
unfoldable pub on_serial_connected : Bool → List Action
on_serial_connected true = []
on_serial_connected false = tcp_disconnect ∷ []

-- What `main` does behind the run of the thread.
unfoldable pub after_run : List Action
after_run = serial_disconnect ∷ tcp_connect ∷ tcp_disconnect ∷ []

-- ===== src/Pico/Commands.antt =====
-- Commands and frames: the client takes a frame apart, the proxy expects a command without its frame.
use zenoh_proxy.Prelude.{ℕ, true, some, List, [], ◌∷◌, ◌++◌, ◌≡◌, refl, arith, IsBytes}
use zenoh_proxy.Ppp.{ppp_flag_char, ppp_frame, ppp_deframe, returns}
use zenoh_proxy.Ppp.RoundTrip.{ppp_deframe-ppp_frame}
use zenoh_proxy.Ppp.Stuffing.{ppp_frame-stuffed}
use zenoh_proxy.Pico.{serial_outgoing, header_frame, on_tcp_incoming, on_serial_incoming, tcp_recv}

-- What arrives from the TCP connection goes to the serial line as a flag, a body and a flag, and
-- ppp_deframe of the body succeeds and gives TCP_RECV and the same bytes.
pub on_tcp_incoming-ppp_deframe :
    (value : List ℕ)
    → IsBytes value
    → (body : List ℕ) × (on_tcp_incoming value
        ≡ serial_outgoing (ppp_flag_char ∷ body ++ ppp_flag_char ∷ []) ∷ [])
      × (ppp_deframe body ≡ returns true (tcp_recv ∷ value))
unfolding on_tcp_incoming header_frame
on_tcp_incoming-ppp_deframe value bytes =
    let (body, framed, good) =
      ppp_deframe-ppp_frame (tcp_recv ∷ value) (omega arith, bytes) (λ e. cc) in
    (body, rw framed, good)

-- A chunk from the serial line that is the frame of a command, whichever it is, is no command for the
-- proxy, which looks at its first byte, the flag: nothing is done.
pub on_serial_incoming-ppp_frame :
    (payload rest : List ℕ) → on_serial_incoming (ppp_frame payload ++ rest) ≡ some []
unfolding on_serial_incoming
on_serial_incoming-ppp_frame payload rest = rw (ppp_frame-stuffed payload) refl

-- ===== src/Pico/Tests.antt =====
-- Bytes from the TCP connection.
use zenoh_proxy.Prelude.{some, refl, [], ◌∷◌, ◌++◌, ◌≡◌, arith}
use zenoh_proxy.Client.{Client, rxd_loop}
use zenoh_proxy.Client.Tests.{still, idle}
use zenoh_proxy.Sessions.Tunnel.{TcpSession}
use zenoh_proxy.Sessions.Tests.{unused}
use zenoh_proxy.Pico.Stream.{relayed, incoming-received}

-- Two pieces from the TCP connection.
abbrev emitting : TcpSession
emitting = record unused { incoming = (0x7e ∷ 1 ∷ []) ∷ (2 ∷ []) ∷ [] }

incoming-received_example :
    (c' : Client) × (rxd_loop still idle (relayed emitting.incoming) ≡ some c')
    × (c'.input_stream ≡ [] ++ 82 ∷ 0x7e ∷ 1 ∷ 82 ∷ 2 ∷ [])
    × (c'.event_stream ≡ [])
    × (c'.input_frame ≡ [])
incoming-received_example =
    incoming-received still emitting idle
      ((omega arith, (omega arith, tt)), ((omega arith, tt), tt)) refl

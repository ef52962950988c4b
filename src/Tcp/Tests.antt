-- ===== src/Tcp/Tests.antt =====
-- Transfers in pieces, and systems that refuse an address.
use zenoh_proxy.Prelude.{true, ℕ, some, List, [], ◌∷◌, ◌≡◌, arith}
use zenoh_proxy.Prelude.Prefix.{starts_with}
use zenoh_proxy.Tcp.Locator.{parse_locator, tcp, parse_locator-tcp}
use zenoh_proxy.Tcp.Scout.{
  Interface, select_scout_iface, selected, prefer, first_ethernet, is_ethernet, has_flags,
  select_scout_iface-prefer,
}
use zenoh_proxy.Sessions.Tunnel.{locator}
use zenoh_proxy.Sessions.Tunnelled.{host_text, port_text}
use zenoh_proxy.Tcp.{recv_bytes, minus_one}
use zenoh_proxy.Tcp.Transfer.{recv_bytes-three}
use zenoh_proxy.Tcp.Sockets.{
  Call, sys_inet_pton, sys_bind, sys_connect, create_udp_socket, open_tx_session, Ends,
  sockets-Ends,
}

recv_bytes-three_example :
    recv_bytes 4 ((2, 1 ∷ 2 ∷ []) ∷ (1, 3 ∷ []) ∷ (1, 4 ∷ []) ∷ [])
    ≡ some (0, (0, 1 ∷ 2 ∷ []) ∷ (2, 3 ∷ []) ∷ (5, 4 ∷ []) ∷ [])
recv_bytes-three_example =
    recv_bytes-three (1 ∷ 2 ∷ []) (3 ∷ []) (4 ∷ []) [] (omega arith) (omega arith) (omega arith)
      (omega arith)

-- Socket 5 is opened, the address is good, and nobody listens.
abbrev refusing : List Call → Call → ℕ
refusing cs (sys_inet_pton addr) = 1
refusing cs (sys_bind fd) = minus_one
refusing cs (sys_connect fd) = minus_one
refusing cs c = 5

sockets-Ends_example :
    Ends refusing [] (create_udp_socket refusing (49 ∷ []) [])
    × Ends refusing [] (open_tx_session refusing (49 ∷ []) [])
sockets-Ends_example = sockets-Ends refusing (49 ∷ []) []

parse_locator-tcp_example : parse_locator locator ≡ tcp host_text port_text
parse_locator-tcp_example =
    parse_locator-tcp host_text port_text (λ e. cc) (omega arith) (λ e. cc) (omega arith)

-- A loopback interface, an ethernet interface that is promiscuous, and one that serves.
abbrev lo : Interface
lo = record { inet = true; name = 108 ∷ 111 ∷ []; flags = 0x49; host = 49 ∷ [] }

abbrev en : ℕ → List ℕ → Interface
en flags host = record { inet = true; name = 101 ∷ 110 ∷ 48 ∷ []; flags = flags; host = host }

select_scout_iface-prefer_example :
    select_scout_iface (some (lo ∷ en 0x1141 (50 ∷ []) ∷ en 0x1041 (51 ∷ []) ∷ [])) []
    ≡ selected (51 ∷ [])
unfolding prefer first_ethernet is_ethernet has_flags starts_with
select_scout_iface-prefer_example =
    select_scout_iface-prefer lo (en 0x1141 (50 ∷ []) ∷ en 0x1041 (51 ∷ []) ∷ []) []

-- ===== src/Client/Unused.antt =====
-- src_client/unix_serial.cpp: the functions of zenoh-pico for datagrams and interfaces, which are not to
-- be called here and answer so, and `dump`, which logs two texts.
use zenoh_proxy.Prelude.{ℕ, Bool, false, Option, none, List, [], ◌∷◌, ◌++◌}
use zenoh_proxy.Text.{hex_dump, char_dump}
use zenoh_proxy.Client.Transport.{minus_one}

-- `_zn_select_scout_iface`: "UNKNOWN"
unfoldable pub select_scout_iface : List ℕ
select_scout_iface = 85 ∷ 78 ∷ 75 ∷ 78 ∷ 79 ∷ 87 ∷ 78 ∷ []

-- `_zn_make_socket_address`: a NULL pointer, and no address.
unfoldable pub make_socket_address : List ℕ → ℕ → Option ℕ
make_socket_address addr port = none

-- `_zn_socket_result_t`: the tag, and the union of an error and a socket, which share their bytes.
pub record SocketResult : Type 0 where
  pub is_ok : Bool
  pub value : ℕ

-- `_zn_create_udp_socket`: the last member that is written to the union is the socket.
unfoldable pub create_udp_socket : List ℕ → ℕ → ℕ → SocketResult
create_udp_socket addr port timeout_usec = record { is_ok = false; value = minus_one }

unfoldable pub send_dgram_to : ℕ → List (List ℕ) → ℕ
send_dgram_to sock slices = minus_one

unfoldable pub recv_dgram_from : ℕ → ℕ
recv_dgram_from sock = minus_one

-- `dump`: each text behind the prefix.
unfoldable pub dump : (List ℕ → List ℕ) → List ℕ → List ℕ → List (List ℕ)
dump size_text prefix bs =
    (prefix ++ 32 ∷ hex_dump size_text (32 ∷ []) bs) ∷ (prefix ++ 32 ∷ char_dump bs) ∷ []

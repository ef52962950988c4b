-- ===== src/Tcp/Datagram.antt =====
-- src-pico/tcp.cpp: `_zn_send_dgram_to`, `_zn_recv_dgram_from` and
-- `_zn_make_socket_address`; and `dump`, which logs two texts.
use zenoh_proxy.Prelude.{
  ℕ, ◌+◌, ◌%◌, ◌*◌, ◌/◌, Option, none, some, List, [], ◌∷◌, ◌++◌, ◌==◌, if◌then◌else◌, ◌||◌,
}
use zenoh_proxy.Text.{hex_dump, char_dump}
use zenoh_proxy.Tcp.{minus_one, negative, positive}

-- The slices are given by their lengths, `wb` counts what was taken; `none` when an answer of `sendto`
-- is still waited for.
unfoldable pub send_dgram_to : ℕ → List ℕ → List ℕ → Option ℕ
send_dgram_to wb [] answers = some wb
send_dgram_to wb (len ∷ lens) [] = none
send_dgram_to wb (len ∷ lens) (res ∷ answers) =
    let rest = send_dgram_to ((wb + res) % 0x1_0000_0000) lens answers in
    if positive res then rest else some minus_one

-- The port is in the order of the network.
pub record SocketAddress : Type 0 where
  pub sin_port : ℕ
  pub sin_addr : ℕ

unfoldable pub htons : ℕ → ℕ
htons port = port % 256 * 256 + port / 256 % 256

-- `inet_pton` is a parameter: what it returns, and the address.
unfoldable pub make_socket_address : (List ℕ → ℕ × ℕ) → List ℕ → ℕ → Option SocketAddress
make_socket_address inet_pton addr port =
    let (rc, address) = inet_pton addr in
    if negative rc || (rc == 0)
    then none
    else some (record { sin_port = htons port; sin_addr = address })

-- The write position, and the result of `recvfrom`.
unfoldable pub recv_dgram_from : (wpos rb : ℕ) → ℕ × ℕ
recv_dgram_from wpos rb = (if positive rb then wpos + rb else wpos, rb)

-- `dump`: each text behind the prefix.
unfoldable pub dump : (List ℕ → List ℕ) → List ℕ → List ℕ → List (List ℕ)
dump size_text prefix bs =
    (prefix ++ 32 ∷ hex_dump size_text (32 ∷ []) bs) ∷ (prefix ++ 32 ∷ char_dump bs) ∷ []

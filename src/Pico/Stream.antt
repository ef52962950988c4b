-- ===== src/Pico/Stream.antt =====
-- From the TCP connection of the proxy to the input stream of the client: src-pico/tcp_session.cpp,
-- src-pico/proxy.cpp and src_client/unix_serial.cpp together.
use zenoh_proxy.Prelude.{
  ℕ, ◌≡◌, refl, sym, ap, ◌∙◌, some, List, [], ◌∷◌, ◌++◌, All, IsBytes, ◌>>=◌, bind_cong, bind_assoc,
  append-nil, append_assoc,
}
use zenoh_proxy.Ppp.{ppp_frame}
use zenoh_proxy.Client.{Client, rxd_loop, on_byte, send_frame}
use zenoh_proxy.Client.Stream.{rxd_loop-send_frame}
use zenoh_proxy.Pico.{Action, serial_outgoing, header_frame, on_tcp_incoming, tcp_recv}
use zenoh_proxy.Sessions.Tunnel.{TcpSession}

-- The bytes that actions put on the serial line.
abbrev pub serial_bytes : List Action → List ℕ
serial_bytes [] = []
serial_bytes (serial_outgoing bs ∷ actions) = bs ++ serial_bytes actions
serial_bytes (action ∷ actions) = serial_bytes actions

-- What the values that a session has emitted put there, one behind the other.
abbrev pub relayed : List (List ℕ) → List ℕ
relayed [] = []
relayed (value ∷ values) = serial_bytes (on_tcp_incoming value) ++ relayed values

-- The pieces, each behind its header.
abbrev pub with_headers : List (List ℕ) → List ℕ
with_headers [] = []
with_headers (value ∷ values) = (tcp_recv ∷ value) ++ with_headers values

relayed_frame :
    (value : List ℕ) → serial_bytes (on_tcp_incoming value) ≡ (send_frame tcp_recv value).0
unfolding on_tcp_incoming header_frame send_frame
relayed_frame value = append-nil (ppp_frame (tcp_recv ∷ value))

module _ (millis : ℕ → ℕ) where
  rxd_loop-append :
      (c : Client) (xs ys : List ℕ)
      → rxd_loop millis c (xs ++ ys) ≡ (rxd_loop millis c xs >>= λ c'. rxd_loop millis c' ys)
  unfolding rxd_loop
  rxd_loop-append c [] ys = refl
  rxd_loop-append c (b ∷ xs) ys =
      bind_cong (on_byte millis c b) _ _ (λ c'. rxd_loop-append c' xs ys)
      ∙ sym (
          bind_assoc (on_byte millis c b) (λ c'. rxd_loop millis c' xs)
            (λ c'. rxd_loop millis c' ys))

  relayed-received :
      (values : List (List ℕ)) (c : Client)
      → All IsBytes values
      → c.input_frame ≡ []
      → (c' : Client) × (rxd_loop millis c (relayed values) ≡ some c')
        × (c'.input_stream ≡ c.input_stream ++ with_headers values)
        × (c'.event_stream ≡ c.event_stream)
        × (c'.input_frame ≡ [])
  unfolding rxd_loop
  relayed-received [] c h clean = (c, refl, sym (append-nil c.input_stream), refl, clean)
  relayed-received (value ∷ values) c h clean =
      let (c₁, one, stream₁, events₁, clean₁) = rxd_loop-send_frame millis c value h.0 clean in
      let (c', all, stream, events, end) = relayed-received values c₁ h.1 clean₁ in
      (
        c',
        rxd_loop-append c (serial_bytes (on_tcp_incoming value)) (relayed values)
            ∙ rw (relayed_frame value, one) all,
        stream
            ∙ ap (λ s. s ++ with_headers values) stream₁
            ∙ append_assoc c.input_stream (tcp_recv ∷ value) (with_headers values),
        events ∙ events₁,
        end,
      )

  -- What a TcpSession has emitted, bytes in any pieces, is relayed to the serial line; it arrives at a
  -- client whose last frame has ended: all pieces stand in its input stream, in order and each behind
  -- a TCP_RECV, no byte is pending and the events are as they were.
  pub incoming-received :
      (s : TcpSession) (c : Client)
      → All IsBytes s.incoming
      → c.input_frame ≡ []
      → (c' : Client) × (rxd_loop millis c (relayed s.incoming) ≡ some c')
        × (c'.input_stream ≡ c.input_stream ++ with_headers s.incoming)
        × (c'.event_stream ≡ c.event_stream)
        × (c'.input_frame ≡ [])
  incoming-received s c h clean = relayed-received s.incoming c h clean

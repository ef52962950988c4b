-- ===== src/Client/Tests.antt =====
-- A frame of two bytes arrives, and three bytes are asked for.
use zenoh_proxy.Prelude.{ℕ, List, [], ◌∷◌, ◌++◌, ◌≡◌, refl, some, arith, length}
use zenoh_proxy.Client.{Client, send_frame, tcp_recv, rxd_loop}
use zenoh_proxy.Prelude.{map}
use zenoh_proxy.Frame.Delivery.{frames}
use zenoh_proxy.Serial.{Serial, Call, Os, sys_write, construct}
use zenoh_proxy.Serial.Tests.{up}
use zenoh_proxy.Serial.Transmit.{written}
use zenoh_proxy.Pico.{tcp_send}
use zenoh_proxy.Client.Stream.{rxd_loop-send_frame}
use zenoh_proxy.Client.Transport.{recv_bytes, recv_bytes-send_frame, send_wbuf, send_wbuf-frames}

abbrev pub still : ℕ → ℕ
still n = 5000

abbrev pub idle : Client
idle = record {
  input_stream = [];
  event_stream = [];
  last_frame_flag = 5000;
  input_frame = [];
  clean_data = [];
  clock_reads = 0;
}

rxd_loop-send_frame_example :
    (c : Client) × (rxd_loop still idle (send_frame tcp_recv (1 ∷ 2 ∷ [])).0 ≡ some c)
    × (c.input_stream ≡ [] ++ tcp_recv ∷ 1 ∷ 2 ∷ [])
    × (c.event_stream ≡ [])
    × (c.input_frame ≡ [])
rxd_loop-send_frame_example =
    rxd_loop-send_frame still idle (1 ∷ 2 ∷ []) (omega arith, (omega arith, tt)) refl

-- The stream has one byte; three are asked for, and the frame brings three.
abbrev waiting : Client
waiting = record idle { input_stream = 9 ∷ [] }

recv_bytes-send_frame_example :
    (c : Client) × (recv_bytes still 1 3 waiting ((0, (send_frame tcp_recv (1 ∷ 2 ∷ [])).0) ∷ [])
      ≡ some (0, (0, 9 ∷ tcp_recv ∷ 1 ∷ []) ∷ [], c))
    × (c.input_stream ≡ 2 ∷ [])
recv_bytes-send_frame_example =
    recv_bytes-send_frame still 0 (9 ∷ tcp_recv ∷ 1 ∷ []) (2 ∷ []) waiting (1 ∷ 2 ∷ []) []
      (omega arith, (omega arith, tt)) refl (omega arith) (omega arith) refl

-- A system that takes all of each write.
abbrev taken : Call → ℕ
taken (sys_write fd bs) = length bs
taken c = 0

abbrev takes : Os
takes cs c = record { rc = taken c; err = 0; input = [] }

abbrev slices : List (List ℕ)
slices = (1 ∷ 2 ∷ []) ∷ (3 ∷ []) ∷ []

send_wbuf-frames_example :
    (s' : Serial) × (send_wbuf takes 1 slices up ≡ some (s', 0))
    × (written takes s'.calls ≡ [] ++ frames (map (λ bs. tcp_send ∷ bs) slices))
unfolding written construct
send_wbuf-frames_example =
    send_wbuf-frames takes 0 slices up refl (λ cs bs. refl)
      ((omega arith, omega arith), ((omega arith, omega arith), tt))

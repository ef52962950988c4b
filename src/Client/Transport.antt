-- ===== src/Client/Transport.antt =====
-- src_client/unix_serial.cpp: the functions that zenoh-pico calls, over the serial port and the
-- frames. The port is that of src/serial.cpp.
use zenoh_proxy.Prelude.{
  ℕ, ◌+◌, ◌%◌, ◌≤◌, ◌<◌, ◌≡◌, refl, ap, ◌∙◌, sym, true, false, Option, some, List, [], ◌∷◌, ◌++◌,
  map, All, ◌==◌, if◌then◌else◌, ◌>>=◌, length, take, arith, take-length, append_assoc, append-nil,
  subst, ◌*◌, eq→==, suc, zero, IsBytes, ◌-◌, ◌||◌,
}
use zenoh_proxy.Ppp.{ppp_frame, ppp_flag_char}
use zenoh_proxy.Ppp.Shape.{ppp_frame-NoFlag}
use zenoh_proxy.Frame.Delivery.{frames}
use zenoh_proxy.Serial.{Serial, Call, Os, sys_write, set_port}
use zenoh_proxy.Serial
use zenoh_proxy.Serial.Rates.{set_baudrate}
use zenoh_proxy.Serial.Transmit.{txd, txd_loop, written, flush, flush-written}
use zenoh_proxy.Client.{none, Client, send_frame, recv_data, tcp_recv}
use zenoh_proxy.Client.Stream.{recv_data-send_frame}
use zenoh_proxy.Pico.{tcp_open, tcp_close, tcp_send}

abbrev pub minus_one : ℕ
minus_one = 0xffff_ffff

-- "/dev/ttyUSB1"
abbrev pub port_text : List ℕ
port_text = 47 ∷ 100 ∷ 101 ∷ 118 ∷ 47 ∷ 116 ∷ 116 ∷ 121 ∷ 85 ∷ 83 ∷ 66 ∷ 49 ∷ []

module _ (os : Os) where
  -- `initSerial`: the descriptor.
  unfoldable pub init_serial : (ℕ → ℕ) → Serial → Serial × ℕ
  init_serial symbol s =
      let set : Serial = set_baudrate symbol 115200 (set_port port_text s) in
      let s' : Serial = if s.connected then s else (Serial.connect os set).0 in (s', s'.fd)

  -- `sendFrame` on the port, whose result is not used; the fuel is that of `txd`.
  unfoldable pub send_frame_to : ℕ → ℕ → List ℕ → Serial → Option (Serial × ℕ)
  send_frame_to fuel header value s =
      let (frame, rc) = send_frame header value in txd os fuel frame s >>= λ r. some (r.0, rc)

  -- `_zn_open_tx_session`, without its socket, which is not initialised, and `_zn_close_tx_session`.
  unfoldable pub open_tx_session : ℕ → (ℕ → ℕ) → Serial → Option Serial
  open_tx_session fuel symbol s =
      send_frame_to fuel tcp_open [] (init_serial symbol s).0 >>= λ r. some r.0

  unfoldable pub close_tx_session : ℕ → Serial → Option Serial
  close_tx_session fuel s = send_frame_to fuel tcp_close [] s >>= λ r. some r.0

  -- `_zn_send_wbuf` on its slices: `sendFrame` returns what it is asked to send, so that the inner loop
  -- runs once, and ends the function if that is not positive.
  unfoldable pub send_wbuf : ℕ → List (List ℕ) → Serial → Option (Serial × ℕ)
  send_wbuf fuel [] s = some (s, 0)
  send_wbuf fuel (bs ∷ slices) s =
      let n : ℕ = length bs % 0x1_0000_0000 in
      send_frame_to fuel tcp_send (take n bs) s >>= λ r.
      let rest = send_wbuf fuel slices r.0 in
      if (r.1 == 0) || Serial.negative r.1 then some (r.0, minus_one) else rest

  -- The system takes all of each write.
  abbrev pub TakesAll : ℕ → Type 0
  TakesAll fd = (cs : List Call) (bs : List ℕ) → (os cs (sys_write fd bs)).rc ≡ length bs

  -- What `txd` leaves behind when the whole buffer is written by the first call.
  abbrev Sent : List ℕ → Serial → Option (Serial × ℕ) → Type 0
  Sent bs s o =
      (s' : Serial) × (o ≡ some (s', 0))
      × (written os s'.calls ≡ written os s.calls ++ bs)
      × (s'.connected ≡ s.connected)
      × (s'.fd ≡ s.fd)

  txd_loop-TakesAll :
      (fuel b : ℕ) (bs : List ℕ) (s : Serial)
      → TakesAll s.fd
      → length (b ∷ bs) < 0x8000_0000
      → Sent (b ∷ bs) s (txd_loop os (suc fuel) (b ∷ bs) s)
  unfolding txd_loop written flush
  txd_loop-TakesAll fuel b bs s all small =
      let c : Call = sys_write s.fd (b ∷ bs) in
      let after : Serial = Serial.sys os c s in
      let count = all s.calls (b ∷ bs) in
      let whole : (Serial.rc_of os c s == length (b ∷ bs)) ≡ true = eq→== _ _ count in
      let good : Serial.negative (Serial.rc_of os c s) ≡ false = ground (arith, count, small) in
      let one : written os after.calls ≡ written os s.calls ++ b ∷ bs =
        rw (good, count, take-length (b ∷ bs)) in
      rw whole (_, refl, flush-written os after ∙ one, refl, refl)

  txd-connected :
      (fuel : ℕ) (bs : List ℕ) (s : Serial)
      → s.connected ≡ true
      → txd os fuel bs s ≡ txd_loop os fuel bs s
  unfolding txd
  txd-connected fuel bs s up =
      ap (λ c. if c then txd_loop os fuel bs s else some (s, Serial.enotconn)) up

  txd-TakesAll :
      (fuel b : ℕ) (bs : List ℕ) (s : Serial)
      → s.connected ≡ true
      → TakesAll s.fd
      → length (b ∷ bs) < 0x8000_0000
      → Sent (b ∷ bs) s (txd os (suc fuel) (b ∷ bs) s)
  txd-TakesAll fuel b bs s up all small =
      subst (Sent (b ∷ bs) s) (sym (txd-connected (suc fuel) (b ∷ bs) s up))
        (txd_loop-TakesAll fuel b bs s all small)

  frame-written :
      (fuel header : ℕ) (value : List ℕ) (s : Serial)
      → s.connected ≡ true
      → TakesAll s.fd
      → 2 * length value + 8 < 0x8000_0000
      → (s' : Serial) × (send_frame_to (suc fuel) header value s ≡ some (s', length value))
        × (written os s'.calls ≡ written os s.calls ++ ppp_frame (header ∷ value))
        × (s'.connected ≡ s.connected)
        × (s'.fd ≡ s.fd)
  unfolding send_frame_to send_frame
  frame-written fuel header value s up all small =
      let (body, e, free, least, most) = ppp_frame-NoFlag (header ∷ value) in
      let short : length (ppp_flag_char ∷ body ++ ppp_flag_char ∷ []) < 0x8000_0000 =
        omega (arith, small, most, ap length e) in
      let (s', ends, sent, on, fd) =
        txd-TakesAll fuel ppp_flag_char (body ++ ppp_flag_char ∷ []) s up all short in
      (s', rw (e, ends), sent ∙ ap (λ f. written os s.calls ++ f) (sym e), on, fd)

  -- A slice is not empty, and its frame is below 2^31 bytes.
  abbrev pub IsSlice : List ℕ → Type 0
  IsSlice bs = (1 ≤ length bs) × (2 * length bs + 8 < 0x8000_0000)

  -- If the system takes all of each write to the connected port, `_zn_send_wbuf` returns 0 for slices
  -- that are not empty, and what was written are the frames of the slices, each behind TCP_SEND, in
  -- order.
  pub send_wbuf-frames :
      (fuel : ℕ) (slices : List (List ℕ)) (s : Serial)
      → s.connected ≡ true
      → TakesAll s.fd
      → All IsSlice slices
      → (s' : Serial) × (send_wbuf (suc fuel) slices s ≡ some (s', 0))
        × (written os s'.calls ≡ written os s.calls ++ frames (map (λ bs. tcp_send ∷ bs) slices))
  unfolding send_wbuf frames
  send_wbuf-frames fuel [] s up all h = (s, refl, sym (append-nil (written os s.calls)))
  send_wbuf-frames fuel (bs ∷ slices) s up all h =
      let n : length bs % 0x1_0000_0000 ≡ length bs = omega (arith, h.0) in
      let (s₁, sent₁, w₁, on, fd) = frame-written fuel tcp_send bs s up all h.0.1 in
      let (s', ends, w) =
        send_wbuf-frames fuel slices s₁ (on ∙ up) (subst TakesAll (sym fd) all) h.1 in
      let positive : ((length bs == 0) || Serial.negative (length bs)) ≡ false =
        ground (arith, h.0) in
      rw (n, take-length bs, sent₁, positive)
        (
          s',
          ends,
          w
              ∙ ap (λ f. f ++ frames (map (λ bs. tcp_send ∷ bs) slices)) w₁
              ∙ append_assoc (written os s.calls) (ppp_frame (tcp_send ∷ bs)) _,
        )

module _ (millis : ℕ → ℕ) where
  -- The do-while loop of `_zn_recv_bytes`, on the fuel: `n` is an int, `offset` is how far the pointer
  -- has been moved, and `stored` what has been written there. `recvData` returns the n it is given.
  unfoldable pub recv_loop :
      ℕ
      → ℕ
      → ℕ
      → ℕ
      → List (ℕ × List ℕ)
      → Client
      → List (ℕ × List ℕ)
      → Option (ℕ × List (ℕ × List ℕ) × Client)
  recv_loop zero len n offset stored c reads = none
  recv_loop (suc fuel) len n offset stored c reads = recv_data millis n c reads >>= λ r.
      let rb : ℕ = n in
      let left : ℕ = (n + 0x1_0000_0000 - rb) % 0x1_0000_0000 in
      let written : List (ℕ × List ℕ) = stored ++ (offset, r.0) ∷ [] in
      let next = recv_loop fuel len left (offset + (len - left)) written r.1 r.2 in
      if rb == 0
      then some (minus_one, written, r.1)
      else (if (left == 0) || Serial.negative left then some (0, written, r.1) else next)

  -- `_zn_recv_bytes`: the result, and what is stored at which offset.
  unfoldable pub recv_bytes :
      ℕ → ℕ → Client → List (ℕ × List ℕ) → Option (ℕ × List (ℕ × List ℕ) × Client)
  recv_bytes fuel len c reads = recv_loop fuel len (len % 0x1_0000_0000) 0 [] c reads

  -- `_zn_recv_zbuf` for a buffer with some space left: the new position, and the result.
  unfoldable pub recv_zbuf : ℕ → ℕ → Client → List (ℕ × List ℕ) → Option (ℕ × ℕ × List ℕ × Client)
  recv_zbuf wpos space c reads =
      let n : ℕ = space % 0x1_0000_0000 in
      recv_data millis n c reads >>= λ r.
      some (if (n == 0) || Serial.negative n then wpos else wpos + n, n, r.0, r.1)

  -- `_zn_recv_bytes` is asked for more bytes, less than 2^32, than the stream holds, and at most for
  -- those of the stream, one more and the bytes of a frame that arrives: the frame of `sendFrame` with
  -- TCP_RECV and some bytes, behind a frame that has ended. Then it returns 0 after that read; what it
  -- has stored, from the start of the buffer on, are the bytes of the stream, the header and the bytes
  -- of the frame, as many as asked, and the rest stays in the stream.
  pub recv_bytes-send_frame :
      (fuel : ℕ) (front rest : List ℕ) (c : Client) (value : List ℕ) (reads : List (ℕ × List ℕ))
      → IsBytes value
      → c.input_frame ≡ []
      → length c.input_stream < length front
      → length front < 0x1_0000_0000
      → c.input_stream ++ tcp_recv ∷ value ≡ front ++ rest
      → (c' : Client) × (recv_bytes
            (suc fuel)
            (length front)
            c
            ((0, (send_frame tcp_recv value).0) ∷ reads)
          ≡ some (0, (0, front) ∷ [], c'))
        × (c'.input_stream ≡ rest)
  unfolding recv_bytes recv_loop
  recv_bytes-send_frame fuel front rest c value reads bytes clean short small same =
      let n : length front % 0x1_0000_0000 ≡ length front = omega (arith, small) in
      let positive : (length front == 0) ≡ false = ground (arith, short) in
      let left : (length front + 0x1_0000_0000 - length front) % 0x1_0000_0000 ≡ 0 = omega arith in
      let (c', ends, stream) =
        recv_data-send_frame millis front rest c value reads bytes clean short same in
      (c', rw (n, ends, positive, left) refl, stream)

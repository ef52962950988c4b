-- ===== src/Client/Stream.antt =====
-- A frame of data that arrives goes into the stream, with its first byte.
use zenoh_proxy.Prelude.{
  ◌≢◌, ◌<◌, ◌∙◌, length-append, ℕ, true, some, List, [], ◌∷◌, ◌++◌, leb, ◌≡◌, refl, arith, ◌+◌,
  IsBytes, ne→==, append_assoc, append-nil, ap, length,
}
use zenoh_proxy.Ppp.{ppp_flag_char, push_back, ppp_deframe, returns}
use zenoh_proxy.Ppp.Stuffing.{stuffed, content, ppp_frame-stuffed}
use zenoh_proxy.Ppp.RoundTrip.{ppp_deframe-content}
use zenoh_proxy.Ppp.Shape.{NoFlag, stuffed-NoFlag}
use zenoh_proxy.Client.{
  false, handle_rxd, on_rxd, check_timeout, pop_loop, Client, tcp_recv, send_frame, handle_event,
  handle_deframed, handle_frame, on_byte, rxd_loop, take_data, recv_data,
}

handle_frame-good :
    (c : Client) (bs payload : List ℕ)
    → ppp_deframe bs ≡ returns true payload
    → handle_frame c bs ≡ handle_event (record c { clean_data = payload }) payload
unfolding handle_frame handle_deframed ppp_deframe
handle_frame-good c [] payload e = cc
handle_frame-good c (b ∷ bs) payload e = ap (handle_deframed c) e

module _ (millis : ℕ → ℕ) where
  -- Bytes without a flag only collect.
  rxd_loop-NoFlag :
      (c : Client) (bs rest : List ℕ)
      → NoFlag bs
      → rxd_loop millis c (bs ++ rest)
        ≡ rxd_loop millis (record c { input_frame = c.input_frame ++ bs }) rest
  unfolding rxd_loop on_byte
  rxd_loop-NoFlag c [] rest h = rw (append-nil c.input_frame) refl
  rxd_loop-NoFlag c (b ∷ bs) rest h =
      let next : Client = record c { input_frame = push_back c.input_frame b } in
      rw (
        ne→== b ppp_flag_char h.0,
        rxd_loop-NoFlag next bs rest h.1,
        append_assoc c.input_frame (b ∷ []) bs,
      )

  -- The frame of `sendFrame` with TCP_RECV and some bytes, behind a frame that has ended: at its end,
  -- the header and the bytes stand at the end of the input stream, and no byte is pending.
  pub rxd_loop-send_frame :
      (c : Client) (value : List ℕ)
      → IsBytes value
      → c.input_frame ≡ []
      → (c' : Client) × (rxd_loop millis c (send_frame tcp_recv value).0 ≡ some c')
        × (c'.input_stream ≡ c.input_stream ++ tcp_recv ∷ value)
        × (c'.event_stream ≡ c.event_stream)
        × (c'.input_frame ≡ [])
  unfolding rxd_loop on_byte send_frame handle_frame handle_event
  rxd_loop-send_frame c value bytes clean =
      let payload : List ℕ = tcp_recv ∷ value in
      let body : List ℕ = stuffed (content payload) in
      let good = ppp_deframe-content payload (omega arith, bytes) (λ e. cc) in
      let opened : Client = record c {
        input_frame = [];
        last_frame_flag = millis c.clock_reads;
        clock_reads = c.clock_reads + 1;
      } in
      let closed : Client = record opened {
        last_frame_flag = millis opened.clock_reads;
        input_frame = body;
        clock_reads = opened.clock_reads + 1;
      } in
      rw
        (
          ppp_frame-stuffed payload,
          clean,
          rxd_loop-NoFlag opened body (ppp_flag_char ∷ []) (stuffed-NoFlag (content payload)),
        )
        (rw (handle_frame-good closed body payload good) (_, refl, refl, refl, refl))

  -- As many bytes as are asked for are popped, in order.
  pop_loop-taken :
      (front buffer rest : List ℕ)
      → pop_loop (length front) buffer (front ++ rest) ≡ some (buffer ++ front, rest)
  unfolding pop_loop
  pop_loop-taken [] buffer rest = rw (append-nil buffer)
  pop_loop-taken (b ∷ front) buffer rest =
      pop_loop-taken front (push_back buffer b) rest
      ∙ ap (λ q. some (q, rest)) (append_assoc buffer (b ∷ []) front)

  -- `recvData` with the bytes in front of the stream.
  recv_data-there :
      (front rest : List ℕ) (c : Client) (reads : List (ℕ × List ℕ))
      → c.input_stream ≡ front ++ rest
      → recv_data millis (length front) c reads
        ≡ some (front, record c { input_stream = rest }, reads)
  unfolding recv_data take_data
  recv_data-there front rest c [] h =
      let enough : leb (length front) (length c.input_stream) ≡ true =
        ground (arith, ap length h, length-append front rest) in
      rw (enough, h, pop_loop-taken front [] rest)
  recv_data-there front rest c (r ∷ reads) h =
      let enough : leb (length front) (length c.input_stream) ≡ true =
        ground (arith, ap length h, length-append front rest) in
      rw (enough, h, pop_loop-taken front [] rest)

  -- The timeout does not touch the stream.
  check_timeout-stream : (c : Client) → (check_timeout millis c).input_stream ≡ c.input_stream
  unfolding check_timeout
  check_timeout-stream c = ground arith

  on_rxd-read :
      (bs : List ℕ) (c c' : Client)
      → bs ≢ []
      → rxd_loop millis c bs ≡ some c'
      → on_rxd millis c (0, bs) ≡ some (check_timeout millis c')
  unfolding on_rxd handle_rxd
  on_rxd-read [] c c' some_bytes h = absurd (some_bytes refl)
  on_rxd-read (b ∷ bs) c c' some_bytes h = rw h

  send_frame-nonempty : (value : List ℕ) → (send_frame tcp_recv value).0 ≢ []
  unfolding send_frame
  send_frame-nonempty value = rw (ppp_frame-stuffed (tcp_recv ∷ value)) (λ e. cc)

  -- `recvData` waits for bytes that are not there yet: they arrive behind those of the stream, with the
  -- header, in the frame of `sendFrame`. It stores as many as asked and leaves the rest.
  pub recv_data-send_frame :
      (front rest : List ℕ) (c : Client) (value : List ℕ) (reads : List (ℕ × List ℕ))
      → IsBytes value
      → c.input_frame ≡ []
      → length c.input_stream < length front
      → c.input_stream ++ tcp_recv ∷ value ≡ front ++ rest
      → (c' : Client) × (recv_data millis
            (length front)
            c
            ((0, (send_frame tcp_recv value).0) ∷ reads)
          ≡ some (front, c', reads))
        × (c'.input_stream ≡ rest)
  unfolding recv_data
  recv_data-send_frame front rest c value reads bytes clean short same =
      let waits : leb (length front) (length c.input_stream) ≡ false = ground (arith, short) in
      let (c₁, read, stream, events, end) = rxd_loop-send_frame c value bytes clean in
      let c₂ : Client = check_timeout millis c₁ in
      let there = recv_data-there front rest c₂ reads (check_timeout-stream c₁ ∙ stream ∙ same) in
      let handled : on_rxd millis c (0, (send_frame tcp_recv value).0) ≡ some c₂ =
        on_rxd-read (send_frame tcp_recv value).0 c c₁ (send_frame-nonempty value) read in
      (record c₂ { input_stream = rest }, rw (waits, handled) there, refl)

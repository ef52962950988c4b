-- ===== src/Client.antt =====
-- src_client/unix_serial.cpp: a client that reaches its TCP peer through frames on the serial line.
-- The readings of the clock and what the line delivers are the environment's. Undefined behaviour, a
-- frame without a first byte or pop_back of an empty vector, is `none`.
pub mod Stream
pub mod Transport
pub mod Unused
pub mod Tests
use zenoh_proxy.Prelude.{
  ℕ, ◌+◌, ◌-◌, ◌%◌, ◌^◌, Bool, true, false, Option, none, some, List, [], ◌∷◌, ◌++◌, ltb, leb, ◌==◌,
  if◌then◌else◌, ◌>>=◌, take, drop, length, zero, suc,
}
use zenoh_proxy.Ppp.{ppp_flag_char, push_back, ppp_frame, ppp_deframe, Deframed, returns, undefined}

abbrev pub tcp_recv : ℕ
tcp_recv = 0x52

abbrev pub tcp_connected : ℕ
tcp_connected = 0x63

abbrev pub tcp_disconnected : ℕ
tcp_disconnected = 0x64

-- The global variables of the file.
pub record Client : Type 0 where
  pub input_stream : List ℕ
  pub event_stream : List ℕ
  pub last_frame_flag : ℕ
  pub input_frame : List ℕ
  pub clean_data : List ℕ
  pub clock_reads : ℕ

abbrev pub frame_timeout : ℕ
frame_timeout = 2000

-- `sendFrame`: what goes to the serial port, and the result.
unfoldable pub send_frame : ℕ → List ℕ → List ℕ × ℕ
send_frame header value = (ppp_frame (header ∷ value), length value)

-- `handleFrame` on a good frame: its first byte tells what it is, and is kept with the data.
unfoldable pub handle_event : Client → List ℕ → Option (Client × Bool)
handle_event c [] = none
handle_event c (event ∷ value) =
    let received : Client = record c { input_stream = c.input_stream ++ event ∷ value } in
    let connected : Client = record c { event_stream = push_back c.event_stream tcp_connected } in
    let gone : Client = record c { event_stream = push_back c.event_stream tcp_disconnected } in
    some (
      if event == tcp_recv
      then (received, true)
      else (if event == tcp_connected
          then (connected, true)
          else (if event == tcp_disconnected then (gone, true) else (c, false))))

unfoldable pub handle_deframed : Client → Deframed → Option (Client × Bool)
unfolding handle_event
handle_deframed c (returns true out) = handle_event (record c { clean_data = out }) out
handle_deframed c (returns false out) = some (record c { clean_data = out }, false)
handle_deframed c undefined = none

unfoldable pub handle_frame : Client → List ℕ → Option (Client × Bool)
unfolding handle_deframed
handle_frame c [] = some (c, false)
handle_frame c (b ∷ bs) = handle_deframed c (ppp_deframe (b ∷ bs))

-- The last loop of `recvData`: the byte in front of the stream is stored and popped, so many times. A
-- stream without a byte in front is undefined behaviour.
unfoldable pub pop_loop : ℕ → List ℕ → List ℕ → Option (List ℕ × List ℕ)
pop_loop zero buffer stream = some (buffer, stream)
pop_loop (suc n) buffer [] = none
pop_loop (suc n) buffer (b ∷ stream) = pop_loop n (push_back buffer b) stream

-- The end of `recvData`: what is in the buffer, and the client without it.
unfoldable pub take_data : ℕ → Client → Option (List ℕ × Client)
unfolding pop_loop
take_data capacity c =
    pop_loop capacity [] c.input_stream >>= λ r. some (r.0, record c { input_stream = r.1 })

module _ (millis : ℕ → ℕ) where
  -- A byte of `handleRxd`.
  unfoldable pub on_byte : Client → ℕ → Option Client
  on_byte c b =
      let stamped : Client = record c {
        last_frame_flag = millis c.clock_reads;
        clock_reads = c.clock_reads + 1;
      } in
      if b == ppp_flag_char
      then (do
        r ← handle_frame stamped stamped.input_frame
        some (record (r.0) { input_frame = [] }))
      else some (record c { input_frame = push_back c.input_frame b })

  unfoldable pub rxd_loop : Client → List ℕ → Option Client
  rxd_loop c [] = some c
  rxd_loop c (b ∷ bs) = do c' ← on_byte c b; rxd_loop c' bs

  -- The end of `handleRxd`; the difference is that of two `uint64_t`.
  unfoldable pub check_timeout : Client → Client
  check_timeout c =
      let late = ltb frame_timeout ((millis c.clock_reads + 2 ^ 64 - c.last_frame_flag) % 2 ^ 64) in
      let read : Client = record c { clock_reads = c.clock_reads + 1 } in
      if late then record read { input_frame = [] } else read

  unfoldable pub handle_rxd : Client → List ℕ → Option Client
  handle_rxd c bs = do c' ← rxd_loop c bs; some (check_timeout c')

  -- What one `serial.rxd` of the loop of `recvData` does: an error or no data is waited for again.
  unfoldable pub on_rxd : Client → ℕ × List ℕ → Option Client
  on_rxd c (rc, []) = some c
  on_rxd c (rc, b ∷ bs) = let handled = handle_rxd c (b ∷ bs) in if rc == 0 then handled else some c

  -- `recvData` on what the successive reads give, with those that are left; `none` too when they run
  -- out and it still waits. It returns the capacity.
  unfoldable pub recv_data :
      ℕ → Client → List (ℕ × List ℕ) → Option (List ℕ × Client × List (ℕ × List ℕ))
  recv_data capacity c [] =
      let taken = take_data capacity c >>= λ r. some (r.0, r.1, []) in
      if leb capacity (length c.input_stream) then taken else none
  recv_data capacity c (r ∷ reads) =
      let taken = take_data capacity c >>= λ q. some (q.0, q.1, r ∷ reads) in
      let later = on_rxd c r >>= λ c'. recv_data capacity c' reads in
      if leb capacity (length c.input_stream) then taken else later

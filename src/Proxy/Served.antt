-- ===== src/Proxy/Served.antt =====
-- `main` of src/proxy.cpp as a whole: `serial.incoming >> bytesToFrame >> fromSerialMsg`, the handlers,
-- and `toSerialMsg >> frameToBytes >> serial.outgoing`, over the reads and writes of the port.
use mathlib.Core.List.{flatten}
use zenoh_proxy.Prelude.{
  ℕ, ◌≤◌, ◌<◌, ◌*◌, List, [], ◌∷◌, ◌++◌, ◌≡◌, All, some, map, ◌∙◌, ap, sym, refl, true, arith,
  length, length-append, subst,
}
use zenoh_proxy.Serial.{Call, Os}
use zenoh_proxy.Serial.Receive.{received, Drains}
use zenoh_proxy.Sessions.Line.{SerialSession}
use zenoh_proxy.Serial.Transmit.{written}
use zenoh_proxy.Ppp.{ppp_frame}
use zenoh_proxy.Sessions.Sending.{WritesTake, send_all, send_all-written}
use zenoh_proxy.Sessions.Turns.{NonEmpty, FailsEmpty, turns, turns-received}
use zenoh_proxy.Frame.{FrameExtractor, receive}
use zenoh_proxy.Frame.View.{IsQuiet, InTime, readings}
use zenoh_proxy.Frame.Delivery.{frames, IsPayload}
use zenoh_proxy.Cbor.{TinyCbor}
use zenoh_proxy.Cbor.Laws.{Laws}
use zenoh_proxy.Broker.{Op, run}
use zenoh_proxy.Broker
use zenoh_proxy.Proxy.{Proxy, on_frames}
use zenoh_proxy.Proxy.Dispatch.{all_replies}
use zenoh_proxy.Proxy.Line.{message, CanSend, receive-run}

-- Pieces that are not empty take two readings a byte at most.
readings-flatten :
    (chunks : List (List ℕ)) → All NonEmpty chunks → readings chunks ≤ 2 * length (flatten chunks)
unfolding readings flatten
readings-flatten [] h = omega arith
readings-flatten ([] ∷ chunks) h = absurd (h.0 refl)
readings-flatten ((b ∷ bs) ∷ chunks) h =
    omega (arith, length-append bs (flatten chunks), readings-flatten chunks h.1)

append-cancel : {A : Type 0} (xs ys zs : List A) → xs ++ ys ≡ xs ++ zs → ys ≡ zs
append-cancel [] ys zs e = e
append-cancel (x ∷ xs) ys zs e = append-cancel xs ys zs cc

flatten-frames : (payloads : List (List ℕ)) → flatten (map ppp_frame payloads) ≡ frames payloads
unfolding flatten frames
flatten-frames [] = refl
flatten-frames (p ∷ ps) = ap (λ q. ppp_frame p ++ q) (flatten-frames ps)

module _ (t : TinyCbor) (laws : Laws t) (os : Os) where
  -- With the laws of TinyCBOR: the client writes the messages of some operations, and the thread makes
  -- any number of turns on the connected port, whose reads drain something pending, fail only when
  -- nothing is there, and read the frames of the messages in all. Let the fuel of a turn be more than
  -- can be pending, let no timeout of the fresh extractor strike in two clock readings for each byte,
  -- and let every write take a byte or more. Then the turns end, nothing undefined happens in the
  -- extractor, the broker is as the operations leave it, in this order, and exactly the frames of their
  -- replies, each of less than 2^31 bytes, are written to the port.
  pub turns-send_all :
      (answer : List Broker.Call → Broker.Call → ℕ) (junk c : ℕ) (ops : List Op) (p : Proxy)
      (millis : ℕ → ℕ) (lo limit : ℕ) (quiet : IsQuiet millis lo limit) (e : FrameExtractor)
      (pending : List Call → ℕ) (fuel n : ℕ) (s : SerialSession)
      → All (CanSend t laws c) ops
      → All IsPayload (map (message t c) ops)
      → All (λ bs. length bs < 0x8000_0000) (map ppp_frame (all_replies t laws ops))
      → p.to_serial ≡ []
      → e.input_frame ≡ []
      → e.emitted ≡ []
      → InTime millis lo limit quiet (2 * length (frames (map (message t c) ops))) e
      → s.serial_port.connected ≡ true
      → s.incoming ≡ []
      → Drains os pending s.serial_port.fd
      → FailsEmpty os s.serial_port.fd
      → WritesTake os s.serial_port.fd
      → ((cs : List Call) → pending cs < fuel)
      → ((s' : SerialSession)
          → turns os fuel n s ≡ some s'
          → received os s'.serial_port.calls
            ≡ received os s.serial_port.calls ++ frames (map (message t c) ops))
      → (read wrote : SerialSession) × (e' : FrameExtractor) × (turns os fuel n s ≡ some read)
        × (receive millis e read.incoming ≡ some e')
        × ((on_frames t answer junk e'.emitted p).broker ≡ run answer p.broker ops)
        × (send_all os (map ppp_frame (on_frames t answer junk e'.emitted p).to_serial) read
            ≡ some wrote)
        × (written os wrote.serial_port.calls
            ≡ written os s.serial_port.calls ++ frames (all_replies t laws ops))
  unfolding flatten
  turns-send_all answer junk c ops p millis lo limit quiet e pending fuel n s can good small unsent
        clean fresh time up silent drains empty takes enough arrives =
      let bytes : List ℕ = frames (map (message t c) ops) in
      let (read, out, ends, reads, told, full, up', fd, kept) =
        turns-received os pending fuel n s up drains empty enough (rw silent tt) in
      let all : out ≡ bytes =
        append-cancel (received os s.serial_port.calls) out bytes (sym reads ∙ arrives read ends) in
      let chunks : flatten read.incoming ≡ bytes = told ∙ ap (λ q. flatten q ++ out) silent ∙ all in
      let few = readings-flatten read.incoming full in
      let (e', done, broker, sent) =
        receive-run t laws answer junk c ops p millis lo limit quiet e read.incoming can good clean
          fresh chunks (time.0, time.1, omega (arith, time.2, few, ap (λ q. length q) chunks)) in
      let replies : (on_frames t answer junk e'.emitted p).to_serial ≡ all_replies t laws ops =
        sent ∙ ap (λ q. q ++ all_replies t laws ops) unsent in
      let (wrote, over, put, _, _) =
        send_all-written os (map ppp_frame (all_replies t laws ops)) read up'
          (subst (WritesTake os) (sym fd) takes) small in
      (
        read,
        wrote,
        e',
        ends,
        done,
        broker,
        ap (λ q. send_all os (map ppp_frame q) read) replies ∙ over,
        put
            ∙ ap (λ q. q ++ flatten (map ppp_frame (all_replies t laws ops))) kept
            ∙ ap (λ q. written os s.serial_port.calls ++ q)
                (flatten-frames (all_replies t laws ops)),
      )

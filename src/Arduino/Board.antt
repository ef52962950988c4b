-- ===== src/Arduino/Board.antt =====
-- zenoh-arduino/src/main.cpp, and `onRxd` of BrokerSerial.cpp: the microcontroller with its serial port.
-- What a turn of the thread (limero) does is a parameter. A source gives a value on at once, so what
-- the extractor emits of a chunk is handled before the next chunk; the handlers do not touch it.
use zenoh_proxy.Prelude.{ℕ, Option, some, List, [], ◌∷◌, ◌++◌, ◌>>=◌}
use zenoh_proxy.Ppp.{push_back}
use zenoh_proxy.Cbor.{TinyCbor}
use zenoh_proxy.Arduino.Node.{BrokerSerial, init, on_frames}
use zenoh_proxy.Arduino.Drivers.{LedBlinker, init_led}
use zenoh_proxy.Arduino.Extractor.{BytesToFrame, device_rxd}

-- The objects, the bytes that the port has received and not read yet, and those written to it.
pub record Board : Type 0 where
  pub brkr : BrokerSerial
  pub bytes_to_frame : BytesToFrame
  pub led : LedBlinker
  pub received : List ℕ
  pub written : List ℕ

-- `setup`; the line that it prints, with the time of the build, is a parameter.
unfoldable pub setup : List ℕ → Board → Board
setup banner b = record b {
  led = init_led b.led;
  brkr = init b.brkr;
  written = b.written ++ banner;
}

-- The loop of `onRxd`: `available` and `read`, until nothing is left.
unfoldable pub read_available : List ℕ → List ℕ → List ℕ
read_available bytes [] = bytes
read_available bytes (b ∷ received) = read_available (push_back bytes b) received

-- `line_millis` are the readings of the clock by the extractor, `millis` those by the handlers.
module _ (t : TinyCbor) (line_millis millis : ℕ → ℕ) (junk old : ℕ) where
  -- The chunk goes through the extractor, and its frames to the filters; the extractor's list of what
  -- it has emitted starts anew.
  unfoldable pub on_chunk : List ℕ → Board → Option Board
  on_chunk chunk b = do
    let fresh : BytesToFrame = record b.bytes_to_frame { emitted = [] }
    e ← device_rxd line_millis fresh chunk
    some (record b { bytes_to_frame = e; brkr = on_frames t millis junk old e.emitted b.brkr })

  unfoldable pub on_rxd : Board → Option Board
  unfolding on_chunk
  on_rxd b = on_chunk (read_available [] b.received) (record b { received = [] })

  unfoldable pub serial_event : Board → Option Board
  serial_event b = on_rxd b

  -- `loop` behind the turn of the thread: `onRxd` is called if a byte is there.
  unfoldable pub poll : Board → List ℕ → Option Board
  poll b [] = some b
  poll b (byte ∷ received) = on_rxd b

  unfoldable pub loop : (Board → Board) → Board → Option Board
  unfolding poll
  loop thread b = poll (thread b) (thread b).received

  -- Loops, before each of which some bytes arrive.
  unfoldable pub loops : (Board → Board) → List (List ℕ) → Board → Option Board
  loops thread [] b = some b
  loops thread (chunk ∷ chunks) b = do
    b' ← loop thread (record b { received = b.received ++ chunk })
    loops thread chunks b'

-- ===== src/Arduino/Wire.antt =====
-- The microcontroller of zenoh-arduino/src and the proxy of src/proxy.cpp, joined by the bytes of their
-- serial line: what Recovery says of messages, for frames that arrive in pieces.
use mathlib.Core.List.{flatten}
use zenoh_proxy.Prelude.{
  ℕ, ◌+◌, ◌-◌, ◌%◌, ◌^◌, ◌<◌, ◌≡◌, refl, sym, ap, ◌∙◌, Option, some, List, [], ◌∷◌, map, All, ◌>>=◌,
  subst,
}
use zenoh_proxy.Cbor.{TinyCbor}
use zenoh_proxy.Cbor.Laws.{Laws}
use zenoh_proxy.Frame.{FrameExtractor, receive}
use zenoh_proxy.Frame.View.{IsQuiet, InTime, readings}
use zenoh_proxy.Frame.Delivery.{IsPayload, frames, receive-frames}
use zenoh_proxy.Sessions.Turns.{NonEmpty}
use zenoh_proxy.Broker.{Call}
use zenoh_proxy.Proxy.{Proxy, on_frames}
use zenoh_proxy.Arduino.Node.{connect_timer, keep_alive, max_silence}
use zenoh_proxy.Arduino.Agreement.{plain}
use zenoh_proxy.Arduino.Board.{Board, loops}
use zenoh_proxy.Arduino.Received.{loops-frames}
use zenoh_proxy.Arduino.Recovery.{
  System, Turn, connect_tick, keep_alive_tick, upward, downward, turn, turns, IsIdle, CanAnnounce,
  Knows, turns-recover,
}

-- The two ends, with the proxy's extractor; the microcontroller's is part of its board.
pub record Wire : Type 0 where
  pub board : Board
  pub extractor : FrameExtractor
  pub proxy : Proxy

-- Ticks, and the bytes of all messages of one side, in the pieces in which they arrive.
pub data Event : Type 0 where
  connect_ticks : Event
  keep_alive_ticks : Event
  carries_up : List (List ℕ) → Event
  carries_down : List (List ℕ) → Event

-- What Recovery knows of them.
abbrev pub turn_of : Event → Turn
turn_of connect_ticks = connect_tick
turn_of keep_alive_ticks = keep_alive_tick
turn_of (carries_up pieces) = upward
turn_of (carries_down pieces) = downward

abbrev pub system_of : Wire → System
system_of w = record { node = w.board.brkr; proxy = w.proxy }

-- Nothing is left of earlier frames.
abbrev pub IsClean : Wire → Type 0
IsClean w =
    (w.extractor.input_frame ≡ [])
    × (w.board.received ≡ [])
    × (w.board.bytes_to_frame.input_frame ≡ [])

module _ (t : TinyCbor) (answer : List Call → Call → ℕ) (proxy_millis board_millis millis : ℕ → ℕ)
    (junk old : ℕ) where
  -- One event; `none` is undefined behaviour of an extractor.
  unfoldable pub happens : Event → Wire → Option Wire
  happens connect_ticks w =
      some (record w { board = record w.board { brkr = connect_timer t millis w.board.brkr } })
  happens keep_alive_ticks w =
      some (record w { board = record w.board { brkr = keep_alive t millis w.board.brkr } })
  happens (carries_up pieces) w = do
    e ← receive proxy_millis (record w.extractor { emitted = [] }) pieces
    some (record {
      board = record w.board { brkr = record w.board.brkr { outgoing = [] } };
      extractor = e;
      proxy = on_frames t answer junk e.emitted w.proxy;
    })
  happens (carries_down pieces) w = do
    b ← loops t board_millis millis junk old (λ x. x) pieces w.board
    some (record w { board = b; proxy = record w.proxy { to_serial = [] } })

  unfoldable pub history : List Event → Wire → Option Wire
  history [] w = some w
  history (v ∷ vs) w = happens v w >>= history vs

  -- Payloads (bytes, none empty) arrive, all their frames and nothing else, while no timeout strikes.
  abbrev pub Arrives : (ℕ → ℕ) → FrameExtractor → List (List ℕ) → List (List ℕ) → Type 0
  Arrives clock e payloads pieces =
      (lo limit : ℕ) × (quiet : IsQuiet clock lo limit) × All IsPayload payloads
      × (flatten pieces ≡ frames payloads)
      × InTime clock lo limit quiet (readings pieces) e

  -- What the line may do.
  abbrev pub May : Event → Wire → Type 0
  May connect_ticks w = Unit
  May keep_alive_ticks w = Unit
  May (carries_up pieces) w = Arrives proxy_millis w.extractor w.board.brkr.outgoing pieces
  May (carries_down pieces) w =
      Arrives board_millis (plain w.board.bytes_to_frame) w.proxy.to_serial pieces
      × All NonEmpty pieces

  -- So through a history.
  abbrev pub MayAll : List Event → Wire → Type 0
  MayAll [] w = Unit
  MayAll (v ∷ vs) w = May v w × ((w' : Wire) → happens v w ≡ some w' → MayAll vs w')

  happens-turn :
      (v : Event) (w : Wire)
      → IsClean w
      → May v w
      → (w' : Wire) × (happens v w ≡ some w')
        × (system_of w' ≡ turn t answer millis junk old (turn_of v) (system_of w))
        × IsClean w'
  unfolding happens turn
  happens-turn connect_ticks w clean may = (_, refl, refl, clean)
  happens-turn keep_alive_ticks w clean may = (_, refl, refl, clean)
  happens-turn (carries_up pieces) w clean (lo, limit, quiet, good, bytes, time) =
      let (e, done, emitted, end) =
        receive-frames proxy_millis lo limit quiet (record w.extractor { emitted = [] })
          w.board.brkr.outgoing pieces clean.0 good bytes time in
      (
        record {
          board = record w.board { brkr = record w.board.brkr { outgoing = [] } };
          extractor = e;
          proxy = on_frames t answer junk e.emitted w.proxy;
        },
        rw done,
        ap
            (λ q. record {
              node = record w.board.brkr { outgoing = [] };
              proxy = on_frames t answer junk q w.proxy;
            })
            emitted,
        (end, clean.1, clean.2),
      )
  happens-turn (carries_down pieces) w clean ((lo, limit, quiet, good, bytes, time), full) =
      let (b, done, handled, read, end) =
        loops-frames t board_millis millis junk old lo limit quiet w.board w.proxy.to_serial pieces
          full clean.1 clean.2 good bytes time in
      (
        record w { board = b; proxy = record w.proxy { to_serial = [] } },
        rw done,
        ap {B = System} (λ q. record { node = q; proxy = record w.proxy { to_serial = [] } })
            handled,
        (clean.0, read, end),
      )

  -- Whatever history of ticks and of bytes that arrive in pieces, the frames of what either side has
  -- to send and nothing else, with no timeout of an extractor: from two clean ends nothing undefined
  -- happens, microcontroller and proxy are as the turns of whole messages leave them, and the ends are
  -- clean.
  pub history-turns :
      (vs : List Event) (w : Wire)
      → IsClean w
      → MayAll vs w
      → (w' : Wire) × (history vs w ≡ some w')
        × (system_of w' ≡ turns t answer millis junk old (map turn_of vs) (system_of w))
        × IsClean w'
  unfolding history turns
  history-turns [] w clean may = (w, refl, refl, clean)
  history-turns (v ∷ vs) w clean may =
      let (w₁, one, same, clean₁) = happens-turn v w clean may.0 in
      let (w', rest, same', clean') = history-turns vs w₁ clean₁ (may.1 w₁ one) in
      (w', rw one rest, same' ∙ ap (turns t answer millis junk old (map turn_of vs)) same, clean')

  -- The recovery, over the line: the same in two ticks and three deliveries in any pieces.
  pub history-recovers :
      (laws : Laws t) (vs : List Event) (w : Wire)
      → map turn_of vs ≡ connect_tick ∷ keep_alive_tick ∷ upward ∷ downward ∷ upward ∷ []
      → IsClean w
      → MayAll vs w
      → IsIdle t laws answer millis junk old (system_of w)
      → CanAnnounce t laws answer millis junk old w.board.brkr.broker
      → max_silence
        < (millis w.board.brkr.clock_reads + 2 ^ 64 - w.board.brkr.loopback_received) % 2 ^ 64
      → (w' : Wire) × (history vs w ≡ some w')
        × Knows t laws answer millis junk old (system_of w) (system_of w')
        × IsClean w'
  history-recovers laws vs w kinds clean may idle can stale =
      let (w', ends, same, clean') = history-turns vs w clean may in
      let there : turns t answer millis junk old
            (connect_tick ∷ keep_alive_tick ∷ upward ∷ downward ∷ upward ∷ []) (system_of w)
          ≡ system_of w' =
        sym (same ∙ ap (λ us. turns t answer millis junk old us (system_of w)) kinds) in
      (
        w',
        ends,
        subst (Knows t laws answer millis junk old (system_of w)) there
            (turns-recover t laws answer millis junk old (system_of w) idle can stale),
        clean',
      )

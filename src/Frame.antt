-- ===== src/Frame.antt =====
-- common/Frame.cpp and Frame.h: `FrameExtractor`, which cuts the bytes of a serial line at the flags
-- and emits the payload of each good frame.
pub mod View
pub mod Delivery
pub mod Resync
pub mod Tests
use zenoh_proxy.Prelude.{
  ℕ, ◌+◌, ◌-◌, ◌%◌, ◌^◌, Bool, true, false, Option, none, some, List, [], ◌∷◌, ◌++◌, ltb, ◌==◌,
  if◌then◌else◌, ◌>>=◌,
}
use zenoh_proxy.Ppp.{ppp_flag_char, push_back, ppp_deframe, Deframed, returns, undefined}

-- The fields of `FrameExtractor`, with what it has emitted and printed (oldest first) and how often
-- it has read the clock. The constructor does not set `_lastFrameFlag`, which may hold any value.
pub record FrameExtractor : Type 0 where
  pub input_frame : List ℕ
  pub clean_data : List ℕ
  pub last_frame_flag : ℕ
  pub emitted : List (List ℕ)
  pub printed : List (List ℕ)
  pub clock_reads : ℕ

abbrev pub frame_timeout : ℕ
frame_timeout = 1000

-- `toStdout` prints nothing for an empty vector.
unfoldable pub to_stdout : List ℕ → FrameExtractor → FrameExtractor
to_stdout [] e = e
to_stdout (b ∷ bs) e = record e { printed = e.printed ++ (b ∷ bs) ∷ [] }

-- `handleFrame` on the outcome of `ppp_deframe`; `none` is undefined behaviour.
unfoldable pub handle_deframed : FrameExtractor → List ℕ → Deframed → Option (FrameExtractor × Bool)
handle_deframed e bs (returns true out) =
    some (record e { clean_data = out; emitted = e.emitted ++ out ∷ [] }, true)
handle_deframed e bs (returns false out) =
    some (to_stdout bs (record e { clean_data = out }), false)
handle_deframed e bs undefined = none

unfoldable pub handle_frame : FrameExtractor → List ℕ → Option (FrameExtractor × Bool)
unfolding handle_deframed to_stdout
handle_frame e [] = some (e, false)
handle_frame e (b ∷ bs) = handle_deframed e (b ∷ bs) (ppp_deframe (b ∷ bs))

-- `_inputFrame.clear()` after a frame.
unfoldable pub clear_input : Option (FrameExtractor × Bool) → Option FrameExtractor
clear_input none = none
clear_input (some (e, done)) = some (record e { input_frame = [] })

-- The readings of `Sys::millis`, in the order of the calls, are the environment's.
module _ (millis : ℕ → ℕ) where
  -- At a flag: the time is noted, the frame is handled, the buffer is cleared.
  unfoldable pub on_flag : FrameExtractor → Option FrameExtractor
  unfolding clear_input
  on_flag e =
      let stamped : FrameExtractor = record e {
        last_frame_flag = millis e.clock_reads;
        clock_reads = e.clock_reads + 1;
      } in
      clear_input (handle_frame stamped stamped.input_frame)

  -- The loop of `handleRxd`.
  unfoldable pub rxd_loop : FrameExtractor → List ℕ → Option FrameExtractor
  rxd_loop e [] = some e
  rxd_loop e (b ∷ bs) = elim (b == ppp_flag_char) [
    | true ↦ on_flag e >>= λ e'. rxd_loop e' bs
    | false ↦ rxd_loop (record e { input_frame = push_back e.input_frame b }) bs
  ]

  -- The last statement of `handleRxd`; the difference is that of two `uint64_t`.
  unfoldable pub check_timeout : FrameExtractor → FrameExtractor
  check_timeout e =
      let late = ltb frame_timeout ((millis e.clock_reads + 2 ^ 64 - e.last_frame_flag) % 2 ^ 64) in
      let read : FrameExtractor = record e { clock_reads = e.clock_reads + 1 } in
      if late then record (to_stdout e.input_frame read) { input_frame = [] } else read

  unfoldable pub handle_rxd : FrameExtractor → List ℕ → Option FrameExtractor
  unfolding rxd_loop check_timeout
  handle_rxd e bs = do e' ← rxd_loop e bs; some (check_timeout e')

  -- Successive calls of `on`, one for each chunk that the serial line delivers.
  unfoldable pub receive : FrameExtractor → List (List ℕ) → Option FrameExtractor
  unfolding handle_rxd
  receive e [] = some e
  receive e (bs ∷ chunks) = do e' ← handle_rxd e bs; receive e' chunks

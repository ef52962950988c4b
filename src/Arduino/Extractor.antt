-- ===== src/Arduino/Extractor.antt =====
-- zenoh-arduino/src/BrokerSerial.h: `BytesToFrame`, a variant of `FrameExtractor` in common/Frame.cpp.
-- It differs in what it prints: `"ignoring bytes : " + bs.size()` is the address of the text, moved by
-- the size of the vector. Behind the end of the text this is undefined behaviour, `none`.
use zenoh_proxy.Prelude.{
  ℕ, ◌+◌, ◌-◌, ◌%◌, ◌^◌, Bool, true, false, Option, none, some, List, [], ◌∷◌, ◌++◌, ltb, ◌==◌,
  if◌then◌else◌, ◌>>=◌, length, drop,
}
use zenoh_proxy.Ppp.{ppp_flag_char, push_back, ppp_deframe, Deframed, returns, undefined}
use zenoh_proxy.Frame.{frame_timeout}

-- The fields, with what it has emitted and printed.
pub record BytesToFrame : Type 0 where
  pub input_frame : List ℕ
  pub clean_data : List ℕ
  pub last_frame_flag : ℕ
  pub emitted : List (List ℕ)
  pub printed : List (List ℕ)
  pub clock_reads : ℕ

-- "ignoring bytes : "
abbrev pub ignoring_text : List ℕ
ignoring_text =
    105 ∷ 103 ∷ 110 ∷ 111 ∷ 114 ∷ 105 ∷ 110 ∷ 103 ∷ 32 ∷ 98 ∷ 121 ∷ 116 ∷ 101 ∷ 115 ∷ 32 ∷ 58 ∷ 32
    ∷ []

-- The text from an offset on; the zero byte at its end is a text as well.
unfoldable pub text_at : ℕ → Option (List ℕ)
text_at n = if ltb (length ignoring_text) n then none else some (drop n ignoring_text)

unfoldable pub device_stdout : List ℕ → BytesToFrame → Option BytesToFrame
device_stdout [] e = some e
device_stdout (b ∷ bs) e =
    text_at (length (b ∷ bs)) >>= λ text. some (record e { printed = e.printed ++ text ∷ [] })

unfoldable pub device_deframed : BytesToFrame → List ℕ → Deframed → Option (BytesToFrame × Bool)
unfolding device_stdout
device_deframed e bs (returns true out) =
    some (record e { clean_data = out; emitted = e.emitted ++ out ∷ [] }, true)
device_deframed e bs (returns false out) =
    device_stdout bs (record e { clean_data = out }) >>= λ e'. some (e', false)
device_deframed e bs undefined = none

unfoldable pub device_frame : BytesToFrame → List ℕ → Option (BytesToFrame × Bool)
unfolding device_deframed
device_frame e [] = some (e, false)
device_frame e (b ∷ bs) = device_deframed e (b ∷ bs) (ppp_deframe (b ∷ bs))

unfoldable pub device_clear : Option (BytesToFrame × Bool) → Option BytesToFrame
device_clear none = none
device_clear (some (e, done)) = some (record e { input_frame = [] })

module _ (millis : ℕ → ℕ) where
  unfoldable pub device_flag : BytesToFrame → Option BytesToFrame
  unfolding device_clear
  device_flag e =
      let stamped : BytesToFrame = record e {
        last_frame_flag = millis e.clock_reads;
        clock_reads = e.clock_reads + 1;
      } in
      device_clear (device_frame stamped stamped.input_frame)

  unfoldable pub device_loop : BytesToFrame → List ℕ → Option BytesToFrame
  device_loop e [] = some e
  device_loop e (b ∷ bs) = elim (b == ppp_flag_char) [
    | true ↦ device_flag e >>= λ e'. device_loop e' bs
    | false ↦ device_loop (record e { input_frame = push_back e.input_frame b }) bs
  ]

  -- The last statement of `handleRxd` prints the chunk.
  unfoldable pub device_timeout : List ℕ → BytesToFrame → Option BytesToFrame
  unfolding device_stdout
  device_timeout bs e =
      let late = ltb frame_timeout ((millis e.clock_reads + 2 ^ 64 - e.last_frame_flag) % 2 ^ 64) in
      let read : BytesToFrame = record e { clock_reads = e.clock_reads + 1 } in
      let dropped = device_stdout bs read >>= λ e'. some (record e' { input_frame = [] }) in
      if late then dropped else some read

  unfoldable pub device_rxd : BytesToFrame → List ℕ → Option BytesToFrame
  unfolding device_loop device_timeout
  device_rxd e bs = device_loop e bs >>= λ e'. device_timeout bs e'

  unfoldable pub device_receive : BytesToFrame → List (List ℕ) → Option BytesToFrame
  unfolding device_rxd
  device_receive e [] = some e
  device_receive e (bs ∷ chunks) = do e' ← device_rxd e bs; device_receive e' chunks

-- ===== src/Arduino/Received.antt =====
-- The bytes that arrive at the microcontroller of zenoh-arduino/src/main.cpp, up to the handlers of its
-- messages.
use mathlib.Core.List.{flatten}
use zenoh_proxy.Prelude.{
  length, ℕ, ◌≡◌, refl, sym, ap, ◌∙◌, Option, none, some, List, [], ◌∷◌, ◌++◌, ◌>>=◌, All,
  append-nil, append_assoc, ◌==◌, Bool-cases, inl, inr, true, false, ltb, ◌+◌, ◌-◌, ◌%◌, ◌^◌,
  bind-eq-some,
}
use zenoh_proxy.Ppp.{ppp_flag_char, push_back, ppp_deframe, Deframed, returns, undefined}
use zenoh_proxy.Cbor.{TinyCbor}
use zenoh_proxy.Frame.{frame_timeout}
use zenoh_proxy.Frame.View.{IsQuiet, InTime, readings}
use zenoh_proxy.Frame.Delivery.{IsPayload, frames}
use zenoh_proxy.Sessions.Turns.{NonEmpty}
use zenoh_proxy.Arduino.Node.{BrokerSerial, on_frames}
use zenoh_proxy.Arduino.Extractor.{
  BytesToFrame, text_at, device_stdout, device_deframed, device_frame, device_clear, device_flag,
  device_loop, device_timeout, device_rxd, device_receive,
}
use zenoh_proxy.Arduino.Agreement.{plain}
use zenoh_proxy.Arduino.Quiet.{device_receive-frames}
use zenoh_proxy.Arduino.Board.{Board, read_available, on_chunk, on_rxd, loop, loops}

read_available-append :
    (bytes received : List ℕ) → read_available bytes received ≡ bytes ++ received
unfolding read_available
read_available-append bytes [] = sym (append-nil bytes)
read_available-append bytes (b ∷ received) =
    read_available-append (push_back bytes b) received ∙ append_assoc bytes (b ∷ []) received

-- What was emitted earlier stands in front, and changes nothing else.
abbrev behind : List (List ℕ) → BytesToFrame → BytesToFrame
behind out e = record e { emitted = out ++ e.emitted }

abbrev all_behind : List (List ℕ) → Option BytesToFrame → Option BytesToFrame
all_behind out o = o >>= λ e. some (behind out e)

print-behind :
    (out : List (List ℕ)) (e : BytesToFrame) (text : Option (List ℕ))
    → (text >>= λ x. some (record (behind out e) { printed = e.printed ++ x ∷ [] }))
      ≡ all_behind out (text >>= λ x. some (record e { printed = e.printed ++ x ∷ [] }))
print-behind out e none = refl
print-behind out e (some x) = refl

device_stdout-behind :
    (out : List (List ℕ)) (bs : List ℕ) (e : BytesToFrame)
    → device_stdout bs (behind out e) ≡ all_behind out (device_stdout bs e)
unfolding device_stdout
device_stdout-behind out [] e = refl
device_stdout-behind out (b ∷ bs) e = print-behind out e (text_at (length (b ∷ bs)))

refused-behind :
    (out : List (List ℕ)) (o : Option BytesToFrame)
    → device_clear (all_behind out o >>= λ e. some (e, false))
      ≡ all_behind out (device_clear (o >>= λ e. some (e, false)))
unfolding device_clear
refused-behind out none = refl
refused-behind out (some e) = refl

device_deframed-behind :
    (out : List (List ℕ)) (e : BytesToFrame) (bs : List ℕ) (d : Deframed)
    → device_clear (device_deframed (behind out e) bs d)
      ≡ all_behind out (device_clear (device_deframed e bs d))
unfolding device_deframed device_clear
device_deframed-behind out e bs (returns true payload) =
    ap (λ q. some (record e { clean_data = payload; emitted = q; input_frame = [] }))
      (append_assoc out e.emitted (payload ∷ []))
device_deframed-behind out e bs (returns false payload) =
    ap (λ o. device_clear (o >>= λ e'. some (e', false)))
      (device_stdout-behind out bs (record e { clean_data = payload }))
    ∙ refused-behind out (device_stdout bs (record e { clean_data = payload }))
device_deframed-behind out e bs undefined = refl

device_frame-behind :
    (out : List (List ℕ)) (e : BytesToFrame) (bs : List ℕ)
    → device_clear (device_frame (behind out e) bs)
      ≡ all_behind out (device_clear (device_frame e bs))
unfolding device_frame device_clear
device_frame-behind out e [] = refl
device_frame-behind out e (b ∷ bs) = device_deframed-behind out e (b ∷ bs) (ppp_deframe (b ∷ bs))

behind-bind :
    (out : List (List ℕ)) (o : Option BytesToFrame) (f : BytesToFrame → Option BytesToFrame)
    → ((e : BytesToFrame) → f (behind out e) ≡ all_behind out (f e))
    → (all_behind out o >>= f) ≡ all_behind out (o >>= f)
behind-bind out none f h = refl
behind-bind out (some e) f h = h e

module _ (millis : ℕ → ℕ) where
  device_flag-behind :
      (out : List (List ℕ)) (e : BytesToFrame)
      → device_flag millis (behind out e) ≡ all_behind out (device_flag millis e)
  unfolding device_flag
  device_flag-behind out e = device_frame-behind out _ e.input_frame

  device_loop-behind :
      (out : List (List ℕ)) (e : BytesToFrame) (bs : List ℕ)
      → device_loop millis (behind out e) bs ≡ all_behind out (device_loop millis e bs)
  unfolding device_loop
  device_loop-behind out e [] = refl
  device_loop-behind out e (b ∷ bs) = elim (Bool-cases (b == ppp_flag_char)) [
    | inl flag ↦
        rw (flag, device_loop)
          (ap (λ o. o >>= λ e'. device_loop millis e' bs) (device_flag-behind out e)
            ∙ behind-bind out (device_flag millis e) (λ e'. device_loop millis e' bs)
                (λ e'. device_loop-behind out e' bs))
    | inr other ↦
        rw (other, device_loop)
          (device_loop-behind out (record e { input_frame = push_back e.input_frame b }) bs)
  ]

  device_timeout-behind :
      (out : List (List ℕ)) (bs : List ℕ) (e : BytesToFrame)
      → device_timeout millis bs (behind out e) ≡ all_behind out (device_timeout millis bs e)
  unfolding device_timeout
  device_timeout-behind out bs e =
      let read : BytesToFrame = record e { clock_reads = e.clock_reads + 1 } in
      let dropped : BytesToFrame → Option BytesToFrame =
        λ x. some (record x { input_frame = [] }) in
      elim (Bool-cases
        (ltb frame_timeout ((millis e.clock_reads + 2 ^ 64 - e.last_frame_flag) % 2 ^ 64))) [
          | inl late ↦ rw late (
              ap {A = Option BytesToFrame} (λ o. o >>= dropped) (device_stdout-behind out bs read)
              ∙ behind-bind out (device_stdout bs read) dropped (λ x. refl))
          | inr soon ↦ rw soon
        ]

  device_rxd-behind :
      (out : List (List ℕ)) (e : BytesToFrame) (bs : List ℕ)
      → device_rxd millis (behind out e) bs ≡ all_behind out (device_rxd millis e bs)
  unfolding device_rxd
  device_rxd-behind out e bs =
      ap (λ o. o >>= λ e'. device_timeout millis bs e') (device_loop-behind out e bs)
      ∙ behind-bind out (device_loop millis e bs) (λ e'. device_timeout millis bs e')
          (λ e'. device_timeout-behind out bs e')

  device_receive-behind :
      (out : List (List ℕ)) (e : BytesToFrame) (chunks : List (List ℕ))
      → device_receive millis (behind out e) chunks
        ≡ all_behind out (device_receive millis e chunks)
  unfolding device_receive
  device_receive-behind out e [] = refl
  device_receive-behind out e (bs ∷ chunks) =
      ap (λ o. o >>= λ e'. device_receive millis e' chunks) (device_rxd-behind out e bs)
      ∙ behind-bind out (device_rxd millis e bs) (λ e'. device_receive millis e' chunks)
          (λ e'. device_receive-behind out e' chunks)

abbrev emptied : BytesToFrame → BytesToFrame
emptied e = record e { emitted = [] }

module _ (t : TinyCbor) (line_millis millis : ℕ → ℕ) (junk old : ℕ) where
  on_frames-append :
      (xs ys : List (List ℕ)) (n : BrokerSerial)
      → on_frames t millis junk old (xs ++ ys) n
        ≡ on_frames t millis junk old ys (on_frames t millis junk old xs n)
  unfolding on_frames
  on_frames-append [] ys n = refl
  on_frames-append (x ∷ xs) ys n = on_frames-append xs ys _

  -- One loop, before which some bytes arrive.
  loop-chunk :
      (c : ℕ) (cs : List ℕ) (b : Board) (e : BytesToFrame)
      → b.received ≡ []
      → device_rxd line_millis (emptied b.bytes_to_frame) (c ∷ cs) ≡ some e
      → loop t line_millis millis junk old (λ x. x) (record b { received = b.received ++ c ∷ cs })
        ≡ some (record b {
          received = [];
          bytes_to_frame = e;
          brkr = on_frames t millis junk old e.emitted b.brkr;
        })
  unfolding loop on_rxd
  loop-chunk c cs b e silent done =
      ap (λ q. loop t line_millis millis junk old (λ x. x) (record b { received = q ++ c ∷ cs }))
        silent
      ∙ ap (λ q. on_chunk t line_millis millis junk old q (record b { received = [] }))
          (read_available-append [] (c ∷ cs))
      ∙ ap
          (λ o. o >>= λ e'. some (record b {
            received = [];
            bytes_to_frame = e';
            brkr = on_frames t millis junk old e'.emitted b.brkr;
          }))
          done

  -- Loops while no timer is due, each with some bytes, do what the extractor and the filters do.
  loops-device_receive :
      (chunks : List (List ℕ)) (b : Board) (e : BytesToFrame)
      → All NonEmpty chunks
      → b.received ≡ []
      → device_receive line_millis (emptied b.bytes_to_frame) chunks ≡ some e
      → (b' : Board) × (loops t line_millis millis junk old (λ x. x) chunks b ≡ some b')
        × (b'.brkr ≡ on_frames t millis junk old e.emitted b.brkr)
        × (b'.bytes_to_frame.input_frame ≡ e.input_frame)
        × (b'.received ≡ [])
        × (b'.written ≡ b.written)
  unfolding loops device_receive on_frames
  loops-device_receive [] b e full silent done =
      let same : emptied b.bytes_to_frame ≡ e = cc done in
      (
        b,
        refl,
        ap (λ x. on_frames t millis junk old x.emitted b.brkr) same,
        ap (λ x. x.input_frame) same,
        silent,
        refl,
      )
  loops-device_receive ([] ∷ chunks) b e full silent done = absurd (full.0 refl)
  loops-device_receive ((c ∷ cs) ∷ chunks) b e full silent done =
      let (e₁, first, later) =
        bind-eq-some (device_rxd line_millis (emptied b.bytes_to_frame) (c ∷ cs))
          (λ x. device_receive line_millis x chunks) e done in
      let split : all_behind e₁.emitted (device_receive line_millis (emptied e₁) chunks) ≡ some e =
        sym (device_receive-behind line_millis e₁.emitted (emptied e₁) chunks)
        ∙ ap (λ q. device_receive line_millis (record e₁ { emitted = q }) chunks)
            (append-nil e₁.emitted)
        ∙ later in
      let (e₂, rest, joined) =
        bind-eq-some (device_receive line_millis (emptied e₁) chunks)
          (λ x. some (behind e₁.emitted x)) e split in
      let whole : behind e₁.emitted e₂ ≡ e = cc joined in
      let b₁ : Board = record b {
        received = [];
        bytes_to_frame = e₁;
        brkr = on_frames t millis junk old e₁.emitted b.brkr;
      } in
      let (b', ends, handled, input, silent', wrote) =
        loops-device_receive chunks b₁ e₂ full.1 refl rest in
      (
        b',
        ap (λ o. o >>= λ x. loops t line_millis millis junk old (λ y. y) chunks x)
              (loop-chunk c cs b e₁ silent first)
            ∙ ends,
        handled
            ∙ sym (on_frames-append e₁.emitted e₂.emitted b.brkr)
            ∙ ap (λ x. on_frames t millis junk old x.emitted b.brkr) whole,
        input ∙ ap (λ x. x.input_frame) whole,
        silent',
        wrote,
      )

  -- The frames of some payloads (bytes, none empty) arrive at the port, in any pieces that are not
  -- empty, with a loop behind each, while no timer is due and no timeout strikes; the port is read and
  -- the extractor between frames. Then nothing undefined happens, exactly these payloads go to the
  -- filters, in order, and the port and the extractor are again so.
  pub loops-frames :
      (lo limit : ℕ) (quiet : IsQuiet line_millis lo limit) (b : Board)
      (payloads chunks : List (List ℕ))
      → All NonEmpty chunks
      → b.received ≡ []
      → b.bytes_to_frame.input_frame ≡ []
      → All IsPayload payloads
      → flatten chunks ≡ frames payloads
      → InTime line_millis lo limit quiet (readings chunks) (plain b.bytes_to_frame)
      → (b' : Board) × (loops t line_millis millis junk old (λ x. x) chunks b ≡ some b')
        × (b'.brkr ≡ on_frames t millis junk old payloads b.brkr)
        × (b'.received ≡ [])
        × (b'.bytes_to_frame.input_frame ≡ [])
  loops-frames lo limit quiet b payloads chunks full silent clean good bytes time =
      let (e, done, emitted, end) =
        device_receive-frames line_millis lo limit quiet (emptied b.bytes_to_frame) payloads chunks
          clean good bytes time in
      let (b', ends, handled, input, silent', wrote) =
        loops-device_receive chunks b e full silent done in
      (
        b',
        ends,
        handled ∙ ap (λ q. on_frames t millis junk old q b.brkr) emitted,
        silent',
        input ∙ end,
      )

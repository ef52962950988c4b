-- ===== src/Arduino/Agreement.antt =====
-- `BytesToFrame` of zenoh-arduino/src/BrokerSerial.h against `FrameExtractor` of common/Frame.cpp.
use zenoh_proxy.Prelude.{
  ℕ, ◌+◌, ◌-◌, ◌%◌, ◌^◌, ◌≡◌, refl, sym, ap, subst, ◌∙◌, Bool, true, false, Option, none, some,
  List, [], ◌∷◌, ◌++◌, ltb, ◌==◌, ◌>>=◌, length, ◌||◌, ◌&&◌, Bool-cases, inl, inr,
}
use zenoh_proxy.Ppp.{ppp_flag_char, push_back, ppp_deframe, Deframed, returns, undefined}
use zenoh_proxy.Frame.{
  FrameExtractor, frame_timeout, to_stdout, handle_deframed, handle_frame, clear_input, on_flag,
  rxd_loop, check_timeout, handle_rxd, receive,
}
use zenoh_proxy.Arduino.Extractor.{
  BytesToFrame, text_at, device_stdout, device_deframed, device_frame, device_clear, device_flag,
  device_loop, device_timeout, device_rxd, device_receive,
}

-- The object without what was printed.
abbrev pub silent : FrameExtractor → FrameExtractor
silent e = record e { printed = [] }

abbrev pub plain : BytesToFrame → FrameExtractor
plain d = record {
  input_frame = d.input_frame;
  clean_data = d.clean_data;
  last_frame_flag = d.last_frame_flag;
  emitted = d.emitted;
  printed = [];
  clock_reads = d.clock_reads;
}

-- The two objects do the same, undefined behaviour included, but for what they print.
abbrev pub Agree : Option BytesToFrame → Option FrameExtractor → Type 0
Agree none none = Unit
Agree (some d) (some e) = plain d ≡ silent e
Agree none (some e) = ⊥
Agree (some d) none = ⊥

-- The same, but `BytesToFrame` runs into undefined behaviour if the test holds.
abbrev pub AgreeUnless : Bool → Option BytesToFrame → Option FrameExtractor → Type 0
AgreeUnless true d e = d ≡ none
AgreeUnless false d e = Agree d e

-- A print that is moved behind the end of its text of 17 bytes.
abbrev pub overruns : List ℕ → Bool
overruns bs = ltb 17 (length bs)

-- A frame that is refused and printed in this way.
abbrev pub refuses_by : List ℕ → Deframed → Bool
refuses_by bs (returns true out) = false
refuses_by bs (returns false out) = overruns bs
refuses_by bs undefined = false

abbrev pub refuses : List ℕ → Bool
refuses bs = refuses_by bs (ppp_deframe bs)

-- The same for one of the frames that a byte stream ends, behind some bytes since the last flag.
unfoldable pub refusals : List ℕ → List ℕ → Bool
refusals pending [] = false
refusals pending (b ∷ bs) = elim (b == ppp_flag_char) [
  | true ↦ refuses pending || refusals [] bs
  | false ↦ refusals (push_back pending b) bs
]

silent-to_stdout : (bs : List ℕ) (e : FrameExtractor) → silent (to_stdout bs e) ≡ silent e
unfolding to_stdout
silent-to_stdout [] e = refl
silent-to_stdout (b ∷ bs) e = refl

-- What `BytesToFrame` prints, when it can.
device_stdout-short :
    (bs : List ℕ) (d : BytesToFrame)
    → overruns bs ≡ false
    → (d' : BytesToFrame) × (device_stdout bs d ≡ some d') × (plain d' ≡ plain d)
unfolding device_stdout text_at
device_stdout-short [] d short = (d, refl, refl)
device_stdout-short (b ∷ bs) d short = rw short (_, refl, refl)

device_stdout-long :
    (bs : List ℕ) (d : BytesToFrame) → overruns bs ≡ true → device_stdout bs d ≡ none
unfolding device_stdout text_at
device_stdout-long [] d long = cc
device_stdout-long (b ∷ bs) d long = rw long

deframed_Agree :
    (d : BytesToFrame) (e : FrameExtractor) (bs : List ℕ) (o : Deframed)
    → plain d ≡ silent e
    → AgreeUnless
        (refuses_by bs o)
        (device_clear (device_deframed d bs o))
        (clear_input (handle_deframed e bs o))
unfolding device_clear device_deframed clear_input handle_deframed
deframed_Agree d e bs (returns true out) h =
    ap {A = FrameExtractor}
      (λ x. record x { clean_data = out; emitted = x.emitted ++ out ∷ []; input_frame = [] }) h
deframed_Agree d e bs (returns false out) h = elim (Bool-cases (overruns bs)) [
  | inl long ↦ rw (long, device_stdout-long bs (record d { clean_data = out }) long) refl
  | inr short ↦
      let (d', printed, same) = device_stdout-short bs (record d { clean_data = out }) short in
      rw (short, printed)
        (ap {A = FrameExtractor} (λ x. record x { input_frame = [] })
          (same
            ∙ ap {A = FrameExtractor} (λ x. record x { clean_data = out }) h
            ∙ sym (silent-to_stdout bs (record e { clean_data = out }))))
]
deframed_Agree d e bs undefined h = tt

frame_Agree :
    (d : BytesToFrame) (e : FrameExtractor) (bs : List ℕ)
    → plain d ≡ silent e
    → AgreeUnless (refuses bs) (device_clear (device_frame d bs)) (clear_input (handle_frame e bs))
unfolding device_clear device_frame clear_input handle_frame ppp_deframe
frame_Agree d e [] h = ap {A = FrameExtractor} (λ x. record x { input_frame = [] }) h
frame_Agree d e (b ∷ bs) h = deframed_Agree d e (b ∷ bs) (ppp_deframe (b ∷ bs)) h

-- The test behind a step that may not have ended.
abbrev pub later : Option FrameExtractor → (FrameExtractor → Bool) → Bool
later none test = false
later (some e) test = test e

Agree-bind :
    (o : Bool) (d : Option BytesToFrame) (e : Option FrameExtractor) (test : FrameExtractor → Bool)
    (f : BytesToFrame → Option BytesToFrame) (g : FrameExtractor → Option FrameExtractor)
    → AgreeUnless o d e
    → ((d' : BytesToFrame) (e' : FrameExtractor)
        → e ≡ some e'
        → plain d' ≡ silent e'
        → AgreeUnless (test e') (f d') (g e'))
    → AgreeUnless (o || later e test) (d >>= f) (e >>= g)
Agree-bind true d e test f g h k = ap (λ x. x >>= f) h
Agree-bind false none none test f g h k = tt
Agree-bind false (some d) (some e) test f g h k = k d e refl h
Agree-bind false none (some e) test f g h k = absurd h
Agree-bind false (some d) none test f g h k = absurd h

-- A step behind which the test is the same.
Agree-then :
    (o q : Bool) (d : Option BytesToFrame) (e : Option FrameExtractor)
    (f : BytesToFrame → Option BytesToFrame) (g : FrameExtractor → Option FrameExtractor)
    → AgreeUnless o d e
    → ((d' : BytesToFrame) (e' : FrameExtractor)
        → e ≡ some e'
        → plain d' ≡ silent e'
        → AgreeUnless q (f d') (g e'))
    → AgreeUnless (o || q) (d >>= f) (e >>= g)
Agree-then true q d e f g h k = ap (λ x. x >>= f) h
Agree-then false true none none f g h k = refl
Agree-then false false none none f g h k = tt
Agree-then false q (some d) (some e) f g h k = k d e refl h
Agree-then false q none (some e) f g h k = absurd h
Agree-then false q (some d) none f g h k = absurd h

cleared :
    (o : Option (FrameExtractor × Bool)) (e : FrameExtractor)
    → clear_input o ≡ some e
    → e.input_frame ≡ []
unfolding clear_input
cleared none e h = cc
cleared (some (x, done)) e h =
    let same : record x { input_frame = [] } ≡ e = cc in ap (λ y. y.input_frame) (sym same)

module _ (millis : ℕ → ℕ) where
  flag_Agree :
      (d : BytesToFrame) (e : FrameExtractor)
      → plain d ≡ silent e
      → AgreeUnless (refuses e.input_frame) (device_flag millis d) (on_flag millis e)
  unfolding device_flag on_flag
  flag_Agree d e h =
      let stamped : BytesToFrame = record d {
        last_frame_flag = millis d.clock_reads;
        clock_reads = d.clock_reads + 1;
      } in
      let stamped' : FrameExtractor = record e {
        last_frame_flag = millis e.clock_reads;
        clock_reads = e.clock_reads + 1;
      } in
      let h' : plain stamped ≡ silent stamped' =
        ap {A = FrameExtractor}
          (λ x. record x {
            last_frame_flag = millis x.clock_reads;
            clock_reads = x.clock_reads + 1;
          })
          h in
      subst
        (λ bs.
          AgreeUnless (refuses e.input_frame) (device_clear (device_frame stamped bs))
            (on_flag millis e))
        (ap {A = FrameExtractor} (λ x. x.input_frame) (sym h))
        (frame_Agree stamped stamped' e.input_frame h')

  -- A flag leaves no byte pending.
  pub on_flag-clean : (e e' : FrameExtractor) → on_flag millis e ≡ some e' → e'.input_frame ≡ []
  unfolding on_flag
  on_flag-clean e e' h = cleared _ e' h

  loop_Agree :
      (d : BytesToFrame) (e : FrameExtractor) (bs : List ℕ)
      → plain d ≡ silent e
      → AgreeUnless (refusals e.input_frame bs) (device_loop millis d bs) (rxd_loop millis e bs)
  unfolding device_loop rxd_loop refusals
  loop_Agree d e [] h = h
  loop_Agree d e (b ∷ bs) h = elim (Bool-cases (b == ppp_flag_char)) [
    | inl f ↦
        rw (f, device_loop, rxd_loop, refusals)
          (Agree-then (refuses e.input_frame) (refusals [] bs) _ _ _ _ (flag_Agree d e h)
            (λ d' e' met h'.
              subst
                (λ p.
                  AgreeUnless (refusals p bs) (device_loop millis d' bs) (rxd_loop millis e' bs))
                (on_flag-clean e e' met) (loop_Agree d' e' bs h')))
    | inr f ↦
        rw (f, device_loop, rxd_loop, refusals)
          (loop_Agree _ _ bs
            (ap {A = FrameExtractor} (λ x. record x { input_frame = push_back x.input_frame b }) h))
  ]

  abbrev pub lateness : FrameExtractor → Bool
  lateness x = ltb frame_timeout ((millis x.clock_reads + 2 ^ 64 - x.last_frame_flag) % 2 ^ 64)

  timeout_Agree :
      (bs : List ℕ) (d : BytesToFrame) (e : FrameExtractor)
      → plain d ≡ silent e
      → AgreeUnless
          (lateness e && overruns bs)
          (device_timeout millis bs d)
          (some (check_timeout millis e))
  unfolding device_timeout check_timeout
  timeout_Agree bs d e h =
      let read : plain (record d { clock_reads = d.clock_reads + 1 })
          ≡ silent (record e { clock_reads = e.clock_reads + 1 }) =
        ap {A = FrameExtractor} (λ x. record x { clock_reads = x.clock_reads + 1 }) h in
      elim (Bool-cases (lateness (plain d))) [
        | inl late ↦
            let late' : lateness e ≡ true = subst (λ x. lateness x ≡ true) h late in
            elim (Bool-cases (overruns bs)) [
              | inl long ↦ rw (late, late', long, device_stdout-long bs _ long) refl
              | inr short ↦
                  let (d', printed, same) =
                    device_stdout-short bs (record d { clock_reads = d.clock_reads + 1 }) short in
                  rw (late, late', short, printed)
                    (ap {A = FrameExtractor} (λ x. record x { input_frame = [] })
                      (same
                        ∙ read
                        ∙ sym (
                            silent-to_stdout e.input_frame
                              (record e { clock_reads = e.clock_reads + 1 }))))
            ]
        | inr soon ↦ rw (soon, subst (λ x. lateness x ≡ false) h soon) read
      ]

  -- Whether `BytesToFrame` prints behind the end of its text, told from the run of `FrameExtractor`:
  -- a frame of more than 17 bytes is refused, or a chunk of more than 17 bytes ends with a timeout.
  unfoldable pub overruns_rxd : FrameExtractor → List ℕ → Bool
  overruns_rxd e bs =
      refusals e.input_frame bs || later (rxd_loop millis e bs) (λ e'. lateness e' && overruns bs)

  unfoldable pub overruns_in : FrameExtractor → List (List ℕ) → Bool
  overruns_in e [] = false
  overruns_in e (bs ∷ chunks) =
      overruns_rxd e bs || later (handle_rxd millis e bs) (λ e'. overruns_in e' chunks)

  -- From states that agree, `BytesToFrame` and `FrameExtractor` of common/Frame.cpp are given the same
  -- chunks and the same clock. If a frame of more than 17 bytes is refused, or a chunk of more than 17
  -- bytes ends with a timeout, `BytesToFrame` runs into undefined behaviour. If not, they agree in all
  -- fields but in what they print, and in all frames that they emit, and one runs into undefined
  -- behaviour when the other does.
  pub device_receive-receive :
      (d : BytesToFrame) (e : FrameExtractor) (chunks : List (List ℕ))
      → plain d ≡ silent e
      → AgreeUnless
          (overruns_in e chunks)
          (device_receive millis d chunks)
          (receive millis e chunks)
  unfolding device_receive receive device_rxd handle_rxd overruns_in overruns_rxd
  device_receive-receive d e [] h = h
  device_receive-receive d e (bs ∷ chunks) h =
      Agree-bind _ _ _ (λ e'. overruns_in e' chunks) _ _
        (Agree-bind _ _ _ (λ e'. lateness e' && overruns bs) _ _ (loop_Agree d e bs h)
          (λ d' e' met h'. timeout_Agree bs d' e' h'))
        (λ d' e' met h'. device_receive-receive d' e' chunks h')

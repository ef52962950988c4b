-- ===== src/Arduino/Quiet.antt =====
-- `BytesToFrame` of zenoh-arduino/src/BrokerSerial.h at a time when no timeout strikes, and when one does.
use mathlib.Core.List.{flatten}
use zenoh_proxy.Prelude.{
  ℕ, ◌+◌, ◌-◌, ◌%◌, ◌^◌, ◌<◌, ◌≡◌, refl, sym, ap, subst, ◌∙◌, Bool, true, false, Option, none, some,
  List, [], ◌∷◌, ◌++◌, ◌==◌, length, ◌||◌, ◌&&◌, Bool-cases, inl, inr, arith, All, append-nil,
  append_assoc, ne→==, lt→ltb, bind-eq-some, suc,
}
use zenoh_proxy.Ppp.{ppp_flag_char, push_back, ppp_frame, ppp_deframe}
use zenoh_proxy.Ppp.Stuffing.{stuffed, content, ppp_frame-stuffed}
use zenoh_proxy.Ppp.RoundTrip.{ppp_deframe-content}
use zenoh_proxy.Ppp.Shape.{NoFlag, stuffed-NoFlag}
use zenoh_proxy.Frame.{
  FrameExtractor, frame_timeout, on_flag, rxd_loop, check_timeout, handle_rxd, receive,
}
use zenoh_proxy.Frame.View.{
  View, view, decode, IsQuiet, InTime, InTime-soon, Follows, readings, follow_loop, follow_rxd,
  check_timeout-InTime,
}
use zenoh_proxy.Frame.Delivery.{IsPayload, frames, receive-frames}
use zenoh_proxy.Arduino.Extractor.{
  BytesToFrame, text_at, device_stdout, device_loop, device_timeout, device_rxd, device_receive,
}
use zenoh_proxy.Arduino.Agreement.{
  Agree, plain, AgreeUnless, refuses, refusals, overruns, later, lateness, overruns_rxd,
  overruns_in, on_flag-clean, device_receive-receive,
}

-- The bytes since the last flag, behind some bytes and a stream.
unfoldable pend : List ℕ → List ℕ → List ℕ
pend p [] = p
pend p (b ∷ bs) = elim (b == ppp_flag_char) [ true ↦ pend [] bs | false ↦ pend (push_back p b) bs ]

or_assoc : (a b c : Bool) → (a || (b || c)) ≡ ((a || b) || c)
or_assoc true b c = refl
or_assoc false b c = refl

or_none : (a b : Bool) → (a || b) ≡ false → (a ≡ false) × (b ≡ false)
or_none true b h = cc
or_none false b h = (refl, h)

refusals-append :
    (p xs ys : List ℕ) → refusals p (xs ++ ys) ≡ (refusals p xs || refusals (pend p xs) ys)
unfolding refusals pend
refusals-append p [] ys = refl
refusals-append p (b ∷ xs) ys = elim (Bool-cases (b == ppp_flag_char)) [
  | inl f ↦
      rw (f, refusals, pend, refusals-append [] xs ys)
        (or_assoc (refuses p) (refusals [] xs) (refusals (pend [] xs) ys))
  | inr f ↦ rw (f, refusals, pend) (refusals-append (push_back p b) xs ys)
]

refusals-NoFlag :
    (p bs rest : List ℕ) → NoFlag bs → refusals p (bs ++ rest) ≡ refusals (p ++ bs) rest
unfolding refusals
refusals-NoFlag p [] rest h = rw (append-nil p)
refusals-NoFlag p (b ∷ bs) rest h =
    rw (ne→== b ppp_flag_char h.0, refusals)
      (refusals-NoFlag (push_back p b) bs rest h.1
        ∙ ap (λ q. refusals q rest) (append_assoc p (b ∷ []) bs))

-- A good frame is not refused.
refusals-ppp_frame :
    (payload rest : List ℕ)
    → IsPayload payload
    → refusals [] (ppp_frame payload ++ rest) ≡ refusals [] rest
unfolding refusals ppp_deframe
refusals-ppp_frame payload rest h =
    let body : List ℕ = stuffed (content payload) in
    rw (ppp_frame-stuffed payload, append_assoc body (ppp_flag_char ∷ []) rest)
      (refusals-NoFlag [] body (ppp_flag_char ∷ rest) (stuffed-NoFlag (content payload))
        ∙ rw (ppp_deframe-content payload h.0 h.1) refl)

refusals-frames :
    (payloads : List (List ℕ)) → All IsPayload payloads → refusals [] (frames payloads) ≡ false
unfolding refusals frames
refusals-frames [] h = refl
refusals-frames (p ∷ ps) h = refusals-ppp_frame p (frames ps) h.0 ∙ refusals-frames ps h.1

later-false :
    (o : Option FrameExtractor) (test : FrameExtractor → Bool)
    → ((e : FrameExtractor) → o ≡ some e → test e ≡ false)
    → later o test ≡ false
later-false none test h = refl
later-false (some e) test h = h e refl

module _ (millis : ℕ → ℕ) where
  rxd_loop-pend :
      (e e' : FrameExtractor) (bs : List ℕ)
      → rxd_loop millis e bs ≡ some e'
      → e'.input_frame ≡ pend e.input_frame bs
  unfolding rxd_loop pend
  rxd_loop-pend e e' [] h = let same : e ≡ e' = cc in ap (λ y. y.input_frame) (sym same)
  rxd_loop-pend e e' (b ∷ bs) h = elim (Bool-cases (b == ppp_flag_char)) [
    | inl f ↦
        let (e₁, met, rest) =
          bind-eq-some (on_flag millis e) (λ x. rxd_loop millis x bs) e' (rw (f, rxd_loop) at h) in
        rw (f, pend)
          (rxd_loop-pend e₁ e' bs rest ∙ ap (λ q. pend q bs) (on_flag-clean millis e e₁ met))
    | inr f ↦
        rw (f, pend)
          (rxd_loop-pend (record e { input_frame = push_back e.input_frame b }) e' bs
            (rw (f, rxd_loop) at h))
  ]

  module _ (lo limit : ℕ) (quiet : IsQuiet millis lo limit) where
    followed :
        (spare : ℕ) (v : Option View) (o : Option FrameExtractor) (e : FrameExtractor)
        → Follows millis lo limit quiet spare v o
        → o ≡ some e
        → InTime millis lo limit quiet spare e
    followed spare v none e f met = cc
    followed spare none (some x) e f met = absurd f
    followed spare (some v) (some x) e f met =
        let same : x ≡ e = cc in subst (InTime millis lo limit quiet spare) same f.1

    handle_rxd-pend :
        (spare : ℕ) (e e' : FrameExtractor) (bs : List ℕ)
        → InTime millis lo limit quiet (length bs + suc spare) e
        → handle_rxd millis e bs ≡ some e'
        → e'.input_frame ≡ pend e.input_frame bs
    unfolding handle_rxd
    handle_rxd-pend spare e e' bs h met =
        let (e₁, loop, rest) =
          bind-eq-some (rxd_loop millis e bs) (λ x. some (check_timeout millis x)) e' met in
        let timed =
          followed (suc spare) (decode (view e) bs) (rxd_loop millis e bs) e₁
            (follow_loop millis lo limit quiet (suc spare) e bs h) loop in
        let same : check_timeout millis e₁ ≡ e' = cc in
        ap (λ y. y.input_frame) (sym same)
        ∙ ap (λ v. v.pending) (check_timeout-InTime millis lo limit quiet spare e₁ timed).0
        ∙ rxd_loop-pend e e₁ bs loop

    -- In the quiet time nothing is printed for a timeout.
    InTime-overruns_in :
        (e : FrameExtractor) (chunks : List (List ℕ))
        → InTime millis lo limit quiet (readings chunks) e
        → refusals e.input_frame (flatten chunks) ≡ false
        → overruns_in millis e chunks ≡ false
    unfolding overruns_in overruns_rxd readings flatten
    InTime-overruns_in e [] h free = refl
    InTime-overruns_in e (bs ∷ chunks) h free =
        let (here, there) =
          or_none (refusals e.input_frame bs) (refusals (pend e.input_frame bs) (flatten chunks))
            (sym (refusals-append e.input_frame bs (flatten chunks)) ∙ free) in
        let late =
          later-false (rxd_loop millis e bs) (λ x. lateness millis x && overruns bs)
            (λ e' met.
              let timed =
                followed (suc (readings chunks)) _ _ e'
                  (follow_loop millis lo limit quiet (suc (readings chunks)) e bs h) met in
              rw (InTime-soon millis lo limit quiet (readings chunks) e' timed) refl) in
        let rest =
          later-false (handle_rxd millis e bs) (λ x. overruns_in millis x chunks)
            (λ e' met.
              InTime-overruns_in e' chunks
                (followed (readings chunks) _ _ e'
                  (follow_rxd millis lo limit quiet (readings chunks) e bs h) met)
                (rw (handle_rxd-pend (readings chunks) e e' bs h met) there)) in
        rw (here, late, rest) refl

  -- The frames of some payloads (bytes, none empty) that arrive in any chunks, from a state between
  -- frames and at a time when no timeout strikes: nothing undefined happens, and exactly these
  -- payloads are emitted in order behind the earlier ones.
  pub device_receive-frames :
      (lo limit : ℕ) (quiet : IsQuiet millis lo limit) (d : BytesToFrame)
      (payloads chunks : List (List ℕ))
      → d.input_frame ≡ []
      → All IsPayload payloads
      → flatten chunks ≡ frames payloads
      → InTime millis lo limit quiet (readings chunks) (plain d)
      → (d' : BytesToFrame) × (device_receive millis d chunks ≡ some d')
        × (d'.emitted ≡ d.emitted ++ payloads)
        × (d'.input_frame ≡ [])
  device_receive-frames lo limit quiet d payloads chunks clean good bytes h =
      let (e', done, emitted, end) =
        receive-frames millis lo limit quiet (plain d) payloads chunks clean good bytes h in
      let free : overruns_in millis (plain d) chunks ≡ false =
        InTime-overruns_in lo limit quiet (plain d) chunks h
          (rw (clean, bytes) (refusals-frames payloads good)) in
      let same : AgreeUnless false (device_receive millis d chunks) (some e') =
        subst (λ o. AgreeUnless false (device_receive millis d chunks) o) done
          (subst
            (λ x. AgreeUnless x (device_receive millis d chunks) (receive millis (plain d) chunks))
            free (device_receive-receive millis d (plain d) chunks refl)) in
      agreed (device_receive millis d chunks) e' same emitted end
    where
      agreed :
          (o : Option BytesToFrame) (e' : FrameExtractor)
          → Agree o (some e')
          → e'.emitted ≡ d.emitted ++ payloads
          → e'.input_frame ≡ []
          → (d' : BytesToFrame) × (o ≡ some d')
            × (d'.emitted ≡ d.emitted ++ payloads)
            × (d'.input_frame ≡ [])
      agreed none e' same emitted end = absurd same
      agreed (some d') e' same emitted end = (
        d',
        refl,
        ap {A = FrameExtractor} (λ x. x.emitted) same ∙ emitted,
        ap {A = FrameExtractor} (λ x. x.input_frame) same ∙ end,
      )

  device_loop-NoFlag :
      (d : BytesToFrame) (bs : List ℕ)
      → NoFlag bs
      → device_loop millis d bs ≡ some (record d { input_frame = d.input_frame ++ bs })
  unfolding device_loop
  device_loop-NoFlag d [] h = ap (λ p. some (record d { input_frame = p })) (sym (append-nil _))
  device_loop-NoFlag d (b ∷ bs) h =
      rw (ne→== b ppp_flag_char h.0, device_loop)
        (device_loop-NoFlag (record d { input_frame = push_back d.input_frame b }) bs h.1
          ∙ ap (λ p. some (record d { input_frame = p })) (append_assoc d.input_frame (b ∷ []) bs))

  -- A chunk without a flag that comes more than a second after the last flag: if it has more than 17
  -- bytes, the print reads memory behind the end of its text.
  device_rxd-late :
      (d : BytesToFrame) (bs : List ℕ)
      → NoFlag bs
      → 17 < length bs
      → frame_timeout < (millis d.clock_reads + 2 ^ 64 - d.last_frame_flag) % 2 ^ 64
      → device_rxd millis d bs ≡ none
  unfolding device_rxd device_timeout device_stdout text_at
  device_rxd-late d [] free long late = absurd (omega (arith, long))
  device_rxd-late d (b ∷ bs) free long late =
      rw (device_loop-NoFlag d (b ∷ bs) free, lt→ltb _ _ late, lt→ltb _ _ long)

-- ===== src/Frame/Resync.antt =====
-- What the extractor does with bytes that are no frame: it prints and drops them, at the next flag or
-- after the timeout, and the next frame is not lost.
use mathlib.Core.List.{flatten}
use zenoh_proxy.Prelude.{
  ℕ, ◌+◌, ◌-◌, ◌%◌, ◌^◌, ◌<◌, ◌≡◌, refl, sym, ap, ◌∙◌, false, some, List, [], ◌∷◌, ◌++◌,
  append_assoc, append-nil, lt→ltb, ne→==,
}
use zenoh_proxy.Ppp.{ppp_flag_char, ppp_frame, push_back, ppp_deframe, returns}
use zenoh_proxy.Ppp.Stuffing.{stuffed, content, ppp_frame-stuffed}
use zenoh_proxy.Ppp.RoundTrip.{ppp_deframe-content}
use zenoh_proxy.Ppp.Shape.{NoFlag, stuffed-NoFlag}
use zenoh_proxy.Frame.{
  FrameExtractor, frame_timeout, to_stdout, rxd_loop, check_timeout, handle_rxd, receive,
}
use zenoh_proxy.Frame.View.{
  View, view, decode, decode-append, close, close_pending, close_outcome, readings, IsQuiet, InTime,
}
use zenoh_proxy.Frame.Delivery.{delivers, IsPayload, ready, decode-NoFlag, decode-body}

close-refused :
    (delivered : List (List ℕ)) (body out : List ℕ)
    → ppp_deframe body ≡ returns false out
    → close (record { pending = body; delivered = delivered }) ≡ some (ready delivered)
unfolding close close_pending close_outcome
close-refused delivered [] out e = refl
close-refused delivered (b ∷ bs) out e = rw (e, close_outcome)

decode-resync :
    (v : View) (junk out payload : List ℕ)
    → NoFlag junk
    → ppp_deframe (v.pending ++ junk) ≡ returns false out
    → IsPayload payload
    → decode v (junk ++ ppp_frame payload) ≡ some (ready (v.delivered ++ payload ∷ []))
unfolding decode
decode-resync v junk out payload free refused good =
    rw
      (
        decode-append v junk (ppp_frame payload),
        decode-NoFlag v junk free,
        ppp_frame-stuffed payload,
        close-refused v.delivered (v.pending ++ junk) out refused,
      )
      (decode-body (ready v.delivered) (stuffed (content payload)) payload
        (stuffed-NoFlag (content payload)) refl (ppp_deframe-content payload good.0 good.1))

-- From any state, let bytes without a flag come in and then the frame of a good payload, in any
-- chunks and at a time when no timeout strikes. If `ppp_deframe` refuses what was pending with those
-- bytes behind it, just this payload is emitted, and the state is between frames.
pub receive-resync :
    (millis : ℕ → ℕ) (lo limit : ℕ) (quiet : IsQuiet millis lo limit) (e : FrameExtractor)
    (junk out payload : List ℕ) (chunks : List (List ℕ))
    → NoFlag junk
    → ppp_deframe (e.input_frame ++ junk) ≡ returns false out
    → IsPayload payload
    → flatten chunks ≡ junk ++ ppp_frame payload
    → InTime millis lo limit quiet (readings chunks) e
    → (e' : FrameExtractor) × (receive millis e chunks ≡ some e')
      × (e'.emitted ≡ e.emitted ++ payload ∷ [])
      × (e'.input_frame ≡ [])
receive-resync millis lo limit quiet e junk out payload chunks free refused good bytes h =
    delivers millis lo limit quiet e chunks (e.emitted ++ payload ∷ [])
      (ap (decode (view e)) bytes ∙ decode-resync (view e) junk out payload free refused good) h

rxd_loop-NoFlag :
    (millis : ℕ → ℕ) (e : FrameExtractor) (bs : List ℕ)
    → NoFlag bs
    → rxd_loop millis e bs ≡ some (record e { input_frame = e.input_frame ++ bs })
unfolding rxd_loop
rxd_loop-NoFlag millis e [] h =
    ap (λ p. some (record e { input_frame = p })) (sym (append-nil e.input_frame))
rxd_loop-NoFlag millis e (b ∷ bs) h =
    rw (ne→== b ppp_flag_char h.0, rxd_loop)
      (rxd_loop-NoFlag millis (record e { input_frame = push_back e.input_frame b }) bs h.1
        ∙ ap (λ p. some (record e { input_frame = p })) (append_assoc e.input_frame (b ∷ []) bs))

-- If a chunk without a flag ends more than the timeout after the last flag, all pending bytes, the
-- chunk's too, are printed (unless there are none) and dropped; nothing is emitted, and the time of
-- the last flag stays.
pub handle_rxd-late :
    (millis : ℕ → ℕ) (e : FrameExtractor) (bs : List ℕ)
    → NoFlag bs
    → frame_timeout < (millis e.clock_reads + 2 ^ 64 - e.last_frame_flag) % 2 ^ 64
    → handle_rxd millis e bs
      ≡ some (record (to_stdout (e.input_frame ++ bs) e) {
        input_frame = [];
        clock_reads = e.clock_reads + 1;
      })
unfolding handle_rxd check_timeout to_stdout
handle_rxd-late millis e bs free late =
    rw (rxd_loop-NoFlag millis e bs free, lt→ltb _ _ late) (dropped (e.input_frame ++ bs))
  where
    dropped :
        (p : List ℕ)
        → some
            (record (to_stdout p (record e { input_frame = p; clock_reads = e.clock_reads + 1 })) {
              input_frame = [];
            })
          ≡ some (record (to_stdout p e) { input_frame = []; clock_reads = e.clock_reads + 1 })
    dropped [] = refl
    dropped (b ∷ bs) = refl

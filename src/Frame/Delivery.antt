-- ===== src/Frame/Delivery.antt =====
-- Frames that arrive in chunks of any size are delivered, in order and without change.
use mathlib.Core.List.{flatten}
use zenoh_proxy.Prelude.{
  subst, ap₂, ℕ, ◌≡◌, ◌≢◌, refl, sym, ap, ◌∙◌, true, Option, none, some, List, [], ◌∷◌, ◌++◌, All,
  append_assoc, append-nil, IsBytes, arith, ne→==,
}
use zenoh_proxy.Ppp.{ppp_flag_char, ppp_frame, push_back, ppp_deframe, returns}
use zenoh_proxy.Ppp.Stuffing.{stuffed, content, ppp_frame-stuffed}
use zenoh_proxy.Ppp.RoundTrip.{ppp_deframe-content}
use zenoh_proxy.Ppp.Shape.{NoFlag, stuffed-NoFlag}
use zenoh_proxy.Frame.{FrameExtractor, receive}
use zenoh_proxy.Frame.View.{
  close_outcome, View, view, decode, decode-append, close, close_pending, readings, IsQuiet, InTime,
  Follows, receive-decode,
}

-- Bytes without a flag only collect.
pub decode-NoFlag :
    (v : View) (bs : List ℕ)
    → NoFlag bs
    → decode v bs ≡ some (record v { pending = v.pending ++ bs })
unfolding decode
decode-NoFlag v [] h = ap (λ p. some (record v { pending = p })) (sym (append-nil v.pending))
decode-NoFlag v (b ∷ bs) h =
    rw (ne→== b ppp_flag_char h.0, decode)
      (decode-NoFlag (record v { pending = push_back v.pending b }) bs h.1
        ∙ ap (λ p. some (record v { pending = p })) (append_assoc v.pending (b ∷ []) bs))

-- A flag after a body that `ppp_deframe` accepts delivers its payload.
pub close-good :
    (delivered : List (List ℕ)) (body payload : List ℕ)
    → ppp_deframe body ≡ returns true payload
    → close (record { pending = body; delivered = delivered })
      ≡ some (record { pending = []; delivered = delivered ++ payload ∷ [] })
unfolding close close_pending close_outcome ppp_deframe
close-good delivered [] payload e = cc
close-good delivered (b ∷ bs) payload e = rw (e, close_outcome)

abbrev pub ready : List (List ℕ) → View
ready delivered = record { pending = []; delivered = delivered }

abbrev pub IsPayload : List ℕ → Type 0
IsPayload p = IsBytes p × (p ≢ [])

close-ready : (delivered : List (List ℕ)) → close (ready delivered) ≡ some (ready delivered)
unfolding close close_pending
close-ready delivered = refl

-- A good body behind a flag, and the flag that ends it.
pub decode-body :
    (v : View) (body payload : List ℕ)
    → NoFlag body
    → v.pending ≡ []
    → ppp_deframe body ≡ returns true payload
    → decode v (body ++ ppp_flag_char ∷ []) ≡ some (ready (v.delivered ++ payload ∷ []))
unfolding decode
decode-body v body payload free clean e = rw (
  decode-append v body (ppp_flag_char ∷ []),
  decode-NoFlag v body free,
  clean,
  decode,
  close-good v.delivered body payload e,
)

-- One frame, from a state between frames.
pub decode-ppp_frame :
    (delivered : List (List ℕ)) (payload : List ℕ)
    → IsPayload payload
    → decode (ready delivered) (ppp_frame payload) ≡ some (ready (delivered ++ payload ∷ []))
unfolding decode
decode-ppp_frame delivered payload h =
    rw (ppp_frame-stuffed payload, close-ready delivered)
      (decode-body (ready delivered) (stuffed (content payload)) payload
        (stuffed-NoFlag (content payload)) refl (ppp_deframe-content payload h.0 h.1))

-- The bytes of a run of frames.
unfoldable pub frames : List (List ℕ) → List ℕ
frames [] = []
frames (p ∷ ps) = ppp_frame p ++ frames ps

pub decode-frames :
    (delivered payloads : List (List ℕ))
    → All IsPayload payloads
    → decode (ready delivered) (frames payloads) ≡ some (ready (delivered ++ payloads))
unfolding decode frames
decode-frames delivered [] h = rw (append-nil delivered)
decode-frames delivered (p ∷ ps) h = rw (
  decode-append (ready delivered) (ppp_frame p) (frames ps),
  decode-ppp_frame delivered p h.0,
  decode-frames (delivered ++ p ∷ []) ps h.1,
  append_assoc delivered (p ∷ []) ps,
)

-- The extractor ends where the view of the bytes ends.
pub delivers :
    (millis : ℕ → ℕ) (lo limit : ℕ) (quiet : IsQuiet millis lo limit) (e : FrameExtractor)
    (chunks delivered : List (List ℕ))
    → decode (view e) (flatten chunks) ≡ some (ready delivered)
    → InTime millis lo limit quiet (readings chunks) e
    → (e' : FrameExtractor) × (receive millis e chunks ≡ some e')
      × (e'.emitted ≡ delivered)
      × (e'.input_frame ≡ [])
delivers millis lo limit quiet e chunks delivered decoded h = followed (receive millis e chunks) (
    subst (λ o. Follows millis lo limit quiet 0 o (receive millis e chunks)) decoded
      (receive-decode millis lo limit quiet 0 e chunks (h.0, h.1, omega arith)))
  where
    followed :
        (o : Option FrameExtractor)
        → Follows millis lo limit quiet 0 (some (ready delivered)) o
        → (e' : FrameExtractor) × (o ≡ some e') × (e'.emitted ≡ delivered) × (e'.input_frame ≡ [])
    followed none f = absurd f
    followed (some e') f = (e', refl, ap (λ v. v.delivered) f.0, ap (λ v. v.pending) f.0)

-- Let the bytes of the frames of `payloads` (bytes, none empty) arrive in any chunks, from a state
-- between frames and at a time when no timeout strikes. Then nothing undefined happens, exactly
-- these payloads are emitted in order behind the earlier ones, and the state is between frames.
pub receive-frames :
    (millis : ℕ → ℕ) (lo limit : ℕ) (quiet : IsQuiet millis lo limit) (e : FrameExtractor)
    (payloads chunks : List (List ℕ))
    → e.input_frame ≡ []
    → All IsPayload payloads
    → flatten chunks ≡ frames payloads
    → InTime millis lo limit quiet (readings chunks) e
    → (e' : FrameExtractor) × (receive millis e chunks ≡ some e')
      × (e'.emitted ≡ e.emitted ++ payloads)
      × (e'.input_frame ≡ [])
receive-frames millis lo limit quiet e payloads chunks clean good bytes h =
    delivers millis lo limit quiet e chunks (e.emitted ++ payloads)
      (ap₂ decode (λ i. record { pending = clean i; delivered = e.emitted }) bytes
        ∙ decode-frames e.emitted payloads good)
      h

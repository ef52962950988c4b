-- ===== src/Proxy/Line.antt =====
-- From the bytes of the serial line to the broker: the messages of the client, in frames, in chunks.
use zenoh_proxy.Prelude.{ℕ, List, [], ◌∷◌, ◌++◌, ◌≡◌, All, some, map, ◌∙◌, ap}
use zenoh_proxy.Frame.{FrameExtractor, receive}
use mathlib.Core.List.{flatten}
use zenoh_proxy.Frame.View.{IsQuiet, InTime, readings}
use zenoh_proxy.Frame.Delivery.{receive-frames, frames, IsPayload}
use zenoh_proxy.Cbor.{TinyCbor}
use zenoh_proxy.Cbor.Laws.{Laws}
use zenoh_proxy.Cbor.Messages.{
  connect_to_bytes, disconnect_to_bytes, publish_to_bytes, publisher_to_bytes, subscriber_to_bytes,
}
use zenoh_proxy.Cbor.Written.{
  Fits, connect_to_bytes-Carries, disconnect_to_bytes-Carries, publish_to_bytes-Carries,
  publisher_to_bytes-Carries, subscriber_to_bytes-Carries,
}
use zenoh_proxy.Broker.{
  Call, Op, connects, disconnects, subscribes, registers, publishes, unsubscribes, run,
}
use zenoh_proxy.Proxy.{Proxy, capacity, on_frames}
use zenoh_proxy.Proxy.Dispatch.{HasMessage, items, all_replies, CarryAll}
use zenoh_proxy.Proxy.Session.{on_frames-run}

module _ (t : TinyCbor) where
  -- The bytes of an operation's message, from a serializer with a buffer of `c` bytes.
  abbrev pub message : ℕ → Op → List ℕ
  message c (connects client_id) = connect_to_bytes t c (record { client_id = client_id })
  message c disconnects = disconnect_to_bytes t c
  message c (subscribes id topic) = subscriber_to_bytes t c (record { id = id; topic = topic })
  message c (registers id key) = publisher_to_bytes t c (record { id = id; topic = key })
  message c (publishes id bs) = publish_to_bytes t c (record { id = id; value = bs })
  message c (unsubscribes id) = []

  module _ (laws : Laws t) where
    -- The operation has a message, which fits into the buffers of both sides.
    abbrev pub CanSend : ℕ → Op → Type 0
    CanSend c o = HasMessage o × Fits t laws c capacity (items o)

    pub messages-CarryAll :
        (c : ℕ) (os : List Op) → All (CanSend c) os → CarryAll t laws (map (message c) os) os
    messages-CarryAll c [] h = tt
    messages-CarryAll c (connects client_id ∷ os) h =
        ((h.0.0, connect_to_bytes-Carries t laws c capacity _ h.0.1), messages-CarryAll c os h.1)
    messages-CarryAll c (disconnects ∷ os) h =
        ((tt, disconnect_to_bytes-Carries t laws c capacity h.0.1), messages-CarryAll c os h.1)
    messages-CarryAll c (subscribes id topic ∷ os) h =
        ((h.0.0, subscriber_to_bytes-Carries t laws c capacity _ h.0.1), messages-CarryAll c os h.1)
    messages-CarryAll c (registers id key ∷ os) h =
        ((h.0.0, publisher_to_bytes-Carries t laws c capacity _ h.0.1), messages-CarryAll c os h.1)
    messages-CarryAll c (publishes id bs ∷ os) h =
        ((tt, publish_to_bytes-Carries t laws c capacity _ h.0.1), messages-CarryAll c os h.1)
    messages-CarryAll c (unsubscribes id ∷ os) h = absurd h.0.0

    -- With the laws of TinyCBOR: the client writes the messages of some operations and the bytes of
    -- their frames arrive in any chunks, at a fresh extractor and at a time when no timeout strikes.
    -- Then nothing undefined happens, the broker is as the operations leave it, in this order, and
    -- their replies are sent.
    pub receive-run :
        (answer : List Call → Call → ℕ) (junk c : ℕ) (os : List Op) (p : Proxy) (millis : ℕ → ℕ)
        (lo limit : ℕ) (quiet : IsQuiet millis lo limit) (e : FrameExtractor)
        (chunks : List (List ℕ))
        → All (CanSend c) os
        → All IsPayload (map (message c) os)
        → e.input_frame ≡ []
        → e.emitted ≡ []
        → flatten chunks ≡ frames (map (message c) os)
        → InTime millis lo limit quiet (readings chunks) e
        → (e' : FrameExtractor) × (receive millis e chunks ≡ some e')
          × ((on_frames t answer junk e'.emitted p).broker ≡ run answer p.broker os)
          × ((on_frames t answer junk e'.emitted p).to_serial
              ≡ p.to_serial ++ all_replies t laws os)
    receive-run answer junk c os p millis lo limit quiet e chunks can good clean fresh bytes h =
        let payloads : List (List ℕ) = map (message c) os in
        let (e', done, emitted, end) =
          receive-frames millis lo limit quiet e payloads chunks clean good bytes h in
        let all : e'.emitted ≡ payloads = emitted ∙ ap (λ out. out ++ payloads) fresh in
        let (broker, sent) =
          on_frames-run t laws answer junk os payloads p (messages-CarryAll c os can) in
        (e', done, rw all broker, rw all sent)

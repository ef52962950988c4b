-- ===== src/Proxy/Session.antt =====
-- Whole frames, and the way from the serial line to the broker.
use zenoh_proxy.Prelude.{ℕ, List, [], ◌∷◌, ◌++◌, ◌≡◌, refl, append-nil, append_assoc, ◌∙◌, sym, ap}
use zenoh_proxy.Cbor.{TinyCbor}
use zenoh_proxy.Cbor.Laws.{Laws}
use zenoh_proxy.Cbor.Reads.{Carries}
use zenoh_proxy.Cbor.Messages.{b_connect, b_disconnect, b_subscriber, b_publisher, b_publish}
use zenoh_proxy.Broker.{
  Call, Op, connects, disconnects, subscribes, registers, publishes, unsubscribes, run,
}
use zenoh_proxy.Proxy.{
  Proxy, capacity, on_frame, on_frames, filtered_connect, filtered_subscriber, filtered_publisher,
  filtered_publish, filtered_disconnect,
}
use zenoh_proxy.Proxy.Dispatch.{
  Head, HasMessage, items, replies, all_replies, CarryAll, Acts, Keeps-trans, Keeps-Acts,
  Acts-Keeps, skip_connect, skip_subscriber, skip_publisher, skip_publish, skip_disconnect,
  hit_connect, hit_subscriber, hit_publisher, hit_publish, hit_disconnect,
}

module _ (t : TinyCbor) (laws : Laws t) (answer : List Call → Call → ℕ) (junk : ℕ) where
  -- The proxy behind each of the five filters.
  abbrev after_connect : List ℕ → Proxy → Proxy
  after_connect frame p = filtered_connect t answer junk frame p

  abbrev after_subscriber : List ℕ → Proxy → Proxy
  after_subscriber frame p = filtered_subscriber t answer junk frame (after_connect frame p)

  abbrev after_publisher : List ℕ → Proxy → Proxy
  after_publisher frame p = filtered_publisher t answer junk frame (after_subscriber frame p)

  abbrev after_publish : List ℕ → Proxy → Proxy
  after_publish frame p = filtered_publish t answer junk frame (after_publisher frame p)

  abbrev after_disconnect : List ℕ → Proxy → Proxy
  after_disconnect frame p = filtered_disconnect t answer junk frame (after_publish frame p)

  -- Of a frame with a publish message, the other filters only read the type.
  pub around_publish :
      (id : ℕ) (bs frame : List ℕ) (p : Proxy)
      → Head t laws answer junk frame b_publish
      → Acts t laws answer junk (publishes id bs) (after_publisher frame p) (after_publish frame p)
      → Acts t laws answer junk (publishes id bs) p (on_frame t answer junk frame p)
  unfolding on_frame
  around_publish id bs frame p h e_publish =
      let e_connect = skip_connect t laws answer junk frame b_publish p h refl in
      let e_subscriber =
        skip_subscriber t laws answer junk frame b_publish (after_connect frame p) h refl in
      let e_publisher =
        skip_publisher t laws answer junk frame b_publish (after_subscriber frame p) h refl in
      let e_disconnect =
        skip_disconnect t laws answer junk frame b_publish (after_publish frame p) h refl in
      Acts-Keeps t laws answer junk (publishes id bs) p (after_publish frame p)
        (after_disconnect frame p)
        (Keeps-Acts t laws answer junk (publishes id bs) p (after_publisher frame p)
          (after_publish frame p)
          (Keeps-trans t laws answer junk p (after_subscriber frame p) (after_publisher frame p)
            (Keeps-trans t laws answer junk p (after_connect frame p) (after_subscriber frame p)
              e_connect e_subscriber)
            e_publisher)
          e_publish)
        e_disconnect

  -- A frame that carries the message of an operation is that operation, and its replies.
  on_frame-Acts :
      (o : Op) (frame : List ℕ) (p : Proxy)
      → HasMessage o
      → Carries t laws capacity frame (items o)
      → Acts t laws answer junk o p (on_frame t answer junk frame p)
  unfolding on_frame
  on_frame-Acts (connects client_id) frame p plain h =
      let e_subscriber =
        skip_subscriber t laws answer junk frame b_connect (after_connect frame p) (_, h) refl in
      let e_publisher =
        skip_publisher t laws answer junk frame b_connect (after_subscriber frame p) (_, h) refl in
      let e_publish =
        skip_publish t laws answer junk frame b_connect (after_publisher frame p) (_, h) refl in
      let e_disconnect =
        skip_disconnect t laws answer junk frame b_connect (after_publish frame p) (_, h) refl in
      let e_connect = hit_connect t laws answer junk frame client_id p plain h in
      Acts-Keeps t laws answer junk (connects client_id) p (after_publish frame p)
        (after_disconnect frame p)
        (Acts-Keeps t laws answer junk (connects client_id) p (after_publisher frame p)
          (after_publish frame p)
          (Acts-Keeps t laws answer junk (connects client_id) p (after_subscriber frame p)
            (after_publisher frame p)
            (Acts-Keeps t laws answer junk (connects client_id) p (after_connect frame p)
              (after_subscriber frame p) (e_connect) e_subscriber)
            e_publisher)
          e_publish)
        e_disconnect
  on_frame-Acts (subscribes id topic) frame p plain h =
      let e_connect = skip_connect t laws answer junk frame b_subscriber p (_, h) refl in
      let e_publisher =
        skip_publisher t laws answer junk frame b_subscriber (after_subscriber frame p) (_, h)
          refl in
      let e_publish =
        skip_publish t laws answer junk frame b_subscriber (after_publisher frame p) (_, h) refl in
      let e_disconnect =
        skip_disconnect t laws answer junk frame b_subscriber (after_publish frame p) (_, h) refl in
      let e_subscriber =
        hit_subscriber t laws answer junk frame id topic (after_connect frame p) plain h in
      Acts-Keeps t laws answer junk (subscribes id topic) p (after_publish frame p)
        (after_disconnect frame p)
        (Acts-Keeps t laws answer junk (subscribes id topic) p (after_publisher frame p)
          (after_publish frame p)
          (Acts-Keeps t laws answer junk (subscribes id topic) p (after_subscriber frame p)
            (after_publisher frame p)
            (Keeps-Acts t laws answer junk (subscribes id topic) p (after_connect frame p)
              (after_subscriber frame p) (e_connect) e_subscriber)
            e_publisher)
          e_publish)
        e_disconnect
  on_frame-Acts (registers id key) frame p plain h =
      let e_connect = skip_connect t laws answer junk frame b_publisher p (_, h) refl in
      let e_subscriber =
        skip_subscriber t laws answer junk frame b_publisher (after_connect frame p) (_, h) refl in
      let e_publish =
        skip_publish t laws answer junk frame b_publisher (after_publisher frame p) (_, h) refl in
      let e_disconnect =
        skip_disconnect t laws answer junk frame b_publisher (after_publish frame p) (_, h) refl in
      let e_publisher =
        hit_publisher t laws answer junk frame id key (after_subscriber frame p) plain h in
      Acts-Keeps t laws answer junk (registers id key) p (after_publish frame p)
        (after_disconnect frame p)
        (Acts-Keeps t laws answer junk (registers id key) p (after_publisher frame p)
          (after_publish frame p)
          (Keeps-Acts t laws answer junk (registers id key) p (after_subscriber frame p)
            (after_publisher frame p)
            (Keeps-trans t laws answer junk p (after_connect frame p) (after_subscriber frame p)
              (e_connect) e_subscriber)
            e_publisher)
          e_publish)
        e_disconnect
  on_frame-Acts (publishes id bs) frame p plain h =
      around_publish id bs frame p (_, h)
        (hit_publish t laws answer junk frame id bs (after_publisher frame p) h)
  on_frame-Acts disconnects frame p plain h =
      let e_connect = skip_connect t laws answer junk frame b_disconnect p (_, h) refl in
      let e_subscriber =
        skip_subscriber t laws answer junk frame b_disconnect (after_connect frame p) (_, h) refl in
      let e_publisher =
        skip_publisher t laws answer junk frame b_disconnect (after_subscriber frame p) (_, h)
          refl in
      let e_publish =
        skip_publish t laws answer junk frame b_disconnect (after_publisher frame p) (_, h) refl in
      let e_disconnect = hit_disconnect t laws answer junk frame (after_publish frame p) h in
      Keeps-Acts t laws answer junk disconnects p (after_publish frame p) (after_disconnect frame p)
        (Keeps-trans t laws answer junk p (after_publisher frame p) (after_publish frame p)
          (Keeps-trans t laws answer junk p (after_subscriber frame p) (after_publisher frame p)
            (Keeps-trans t laws answer junk p (after_connect frame p) (after_subscriber frame p)
              (e_connect) e_subscriber)
            e_publisher)
          e_publish)
        e_disconnect
  on_frame-Acts (unsubscribes id) frame p plain h = absurd plain

  -- Frames that carry the messages of some operations, one each and in this order, leave the broker as
  -- the operations do, and exactly their replies are sent, behind the earlier messages.
  pub on_frames-run :
      (os : List Op) (frames : List (List ℕ)) (p : Proxy)
      → CarryAll t laws frames os
      → ((on_frames t answer junk frames p).broker ≡ run answer p.broker os)
        × ((on_frames t answer junk frames p).to_serial ≡ p.to_serial ++ all_replies t laws os)
  unfolding on_frames run
  on_frames-run [] [] p h = (refl, sym (append-nil p.to_serial))
  on_frames-run [] (frame ∷ frames) p h = absurd h
  on_frames-run (o ∷ os) [] p h = absurd h
  on_frames-run (o ∷ os) (frame ∷ frames) p h =
      let q : Proxy = on_frame t answer junk frame p in
      let (b, sent) = on_frame-Acts o frame p h.0.0 h.0.1 in
      let (b', sent') = on_frames-run os frames q h.1 in
      (
        b' ∙ ap (λ c. run answer c os) b,
        sent'
            ∙ ap (λ out. out ++ all_replies t laws os) sent
            ∙ append_assoc p.to_serial (replies t laws o) (all_replies t laws os),
      )

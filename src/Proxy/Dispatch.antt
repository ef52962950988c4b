-- ===== src/Proxy/Dispatch.antt =====
-- Each filter of src/proxy.cpp on a frame that carries a message: it passes to the handler of the
-- message's type, which is an operation of the broker, and to no other.
use zenoh_proxy.Prelude.{ℕ, false, List, [], ◌∷◌, ◌++◌, ◌==◌, ◌≡◌, refl, append-nil, ◌∙◌, sym, ap}
use zenoh_proxy.Cbor.{TinyCbor, Item, int}
use zenoh_proxy.Cbor.Laws.{Laws}
use zenoh_proxy.Cbor.Reads.{NoNul, Carries}
use zenoh_proxy.Cbor.Written.{
  connect_items, disconnect_items, publish_items, publisher_items, subscriber_items,
}
use zenoh_proxy.Cbor.Messages.{
  b_connect, b_disconnect, b_subscriber, b_publisher, b_publish, connect_to_bytes,
}
use zenoh_proxy.Broker.{
  Call, Op, connects, disconnects, subscribes, registers, publishes, unsubscribes, step,
}
use zenoh_proxy.Proxy.{
  filtered_subscriber, filtered_disconnect, filtered_publish, filtered_connect, filtered_publisher,
  Proxy, capacity, connected_text,
}
use zenoh_proxy.Proxy.Filters.{
  msg_filter-Carries, on_connect-Carries, on_subscriber-Carries, on_publisher-Carries,
  on_publish-Carries, on_disconnect-Carries,
}

-- The operations that have a message, whose strings hold no zero byte, and the items of the message.
abbrev pub HasMessage : Op → Type 0
HasMessage (connects client_id) = NoNul client_id
HasMessage disconnects = Unit
HasMessage (subscribes id topic) = NoNul topic
HasMessage (registers id key) = NoNul key
HasMessage (publishes id bs) = Unit
HasMessage (unsubscribes id) = ⊥

abbrev pub items : Op → List Item
items (connects client_id) = connect_items (record { client_id = client_id })
items disconnects = disconnect_items
items (subscribes id topic) = subscriber_items (record { id = id; topic = topic })
items (registers id key) = publisher_items (record { id = id; topic = key })
items (publishes id bs) = publish_items (record { id = id; value = bs })
items (unsubscribes id) = []

module _ (t : TinyCbor) (laws : Laws t) where
  -- What the proxy answers: a connect message is confirmed.
  abbrev pub replies : Op → List (List ℕ)
  replies (connects client_id) =
      connect_to_bytes t capacity (record { client_id = connected_text }) ∷ []
  replies disconnects = []
  replies (subscribes id topic) = []
  replies (registers id key) = []
  replies (publishes id bs) = []
  replies (unsubscribes id) = []

  abbrev pub all_replies : List Op → List (List ℕ)
  all_replies [] = []
  all_replies (o ∷ os) = replies o ++ all_replies os

  -- The frames carry the messages of the operations, one each.
  abbrev pub CarryAll : List (List ℕ) → List Op → Type 0
  CarryAll [] [] = Unit
  CarryAll [] (o ∷ os) = ⊥
  CarryAll (frame ∷ frames) [] = ⊥
  CarryAll (frame ∷ frames) (o ∷ os) =
      (HasMessage o × Carries t laws capacity frame (items o)) × CarryAll frames os

  module _ (answer : List Call → Call → ℕ) (junk : ℕ) where
    -- A step that only reads, and a step that is an operation.
    abbrev pub Keeps : Proxy → Proxy → Type 0
    Keeps p q = (q.broker ≡ p.broker) × (q.to_serial ≡ p.to_serial)

    abbrev pub Acts : Op → Proxy → Proxy → Type 0
    Acts o p q = (q.broker ≡ step answer p.broker o) × (q.to_serial ≡ p.to_serial ++ replies o)

    pub Keeps-trans : (p q r : Proxy) → Keeps p q → Keeps q r → Keeps p r
    Keeps-trans p q r h k = (k.0 ∙ h.0, k.1 ∙ h.1)

    pub Keeps-Acts : (o : Op) (p q r : Proxy) → Keeps p q → Acts o q r → Acts o p r
    Keeps-Acts o p q r h k =
        (k.0 ∙ ap (λ b. step answer b o) h.0, k.1 ∙ ap (λ out. out ++ replies o) h.1)

    pub Acts-Keeps : (o : Op) (p q r : Proxy) → Acts o p q → Keeps q r → Acts o p r
    Acts-Keeps o p q r h k = (k.0 ∙ h.0, k.1 ∙ h.1)

    -- A frame of another type is kept from the handler.
    abbrev pub Head : List ℕ → ℕ → Type 0
    Head frame n = (xs : List Item) × Carries t laws capacity frame (int n ∷ xs)

    pub skip_connect :
        (frame : List ℕ) (n : ℕ) (p : Proxy)
        → Head frame n
        → (n == b_connect) ≡ false
        → Keeps p (filtered_connect t answer junk frame p)
    unfolding filtered_connect
    skip_connect frame n p (xs, h) other =
        rw (msg_filter-Carries t laws b_connect p.seen_connect n frame xs h, other) (refl, refl)

    pub skip_subscriber :
        (frame : List ℕ) (n : ℕ) (p : Proxy)
        → Head frame n
        → (n == b_subscriber) ≡ false
        → Keeps p (filtered_subscriber t answer junk frame p)
    unfolding filtered_subscriber
    skip_subscriber frame n p (xs, h) other =
        rw (msg_filter-Carries t laws b_subscriber p.seen_subscriber n frame xs h, other)
          (refl, refl)

    pub skip_publisher :
        (frame : List ℕ) (n : ℕ) (p : Proxy)
        → Head frame n
        → (n == b_publisher) ≡ false
        → Keeps p (filtered_publisher t answer junk frame p)
    unfolding filtered_publisher
    skip_publisher frame n p (xs, h) other =
        rw (msg_filter-Carries t laws b_publisher p.seen_publisher n frame xs h, other) (refl, refl)

    pub skip_publish :
        (frame : List ℕ) (n : ℕ) (p : Proxy)
        → Head frame n
        → (n == b_publish) ≡ false
        → Keeps p (filtered_publish t answer junk frame p)
    unfolding filtered_publish
    skip_publish frame n p (xs, h) other =
        rw (msg_filter-Carries t laws b_publish p.seen_publish n frame xs h, other) (refl, refl)

    pub skip_disconnect :
        (frame : List ℕ) (n : ℕ) (p : Proxy)
        → Head frame n
        → (n == b_disconnect) ≡ false
        → Keeps p (filtered_disconnect t answer junk frame p)
    unfolding filtered_disconnect
    skip_disconnect frame n p (xs, h) other =
        rw (msg_filter-Carries t laws b_disconnect p.seen_disconnect n frame xs h, other)
          (refl, refl)

    pub hit_connect :
        (frame : List ℕ) (client_id : List ℕ) (p : Proxy)
        → NoNul client_id
        → Carries t laws capacity frame (items (connects client_id))
        → Acts (connects client_id) p (filtered_connect t answer junk frame p)
    unfolding filtered_connect step
    hit_connect frame client_id p plain h =
        let q : Proxy = record p { seen_connect = b_connect } in
        rw
          (
            msg_filter-Carries t laws b_connect p.seen_connect b_connect frame _ h,
            on_connect-Carries t laws answer junk frame (record { client_id = client_id }) q plain
                h,
          )
          (refl, refl)

    pub hit_subscriber :
        (frame : List ℕ) (id : ℕ) (topic : List ℕ) (p : Proxy)
        → NoNul topic
        → Carries t laws capacity frame (items (subscribes id topic))
        → Acts (subscribes id topic) p (filtered_subscriber t answer junk frame p)
    unfolding filtered_subscriber step
    hit_subscriber frame id topic p plain h =
        let q : Proxy = record p { seen_subscriber = b_subscriber } in
        rw
          (
            msg_filter-Carries t laws b_subscriber p.seen_subscriber b_subscriber frame _ h,
            on_subscriber-Carries t laws answer junk frame (record { id = id; topic = topic }) q
                plain h,
          )
          (refl, sym (append-nil p.to_serial))

    pub hit_publisher :
        (frame : List ℕ) (id : ℕ) (key : List ℕ) (p : Proxy)
        → NoNul key
        → Carries t laws capacity frame (items (registers id key))
        → Acts (registers id key) p (filtered_publisher t answer junk frame p)
    unfolding filtered_publisher step
    hit_publisher frame id key p plain h =
        let q : Proxy = record p { seen_publisher = b_publisher } in
        rw
          (
            msg_filter-Carries t laws b_publisher p.seen_publisher b_publisher frame _ h,
            on_publisher-Carries t laws answer junk frame (record { id = id; topic = key }) q plain
                h,
          )
          (refl, sym (append-nil p.to_serial))

    pub hit_publish :
        (frame : List ℕ) (id : ℕ) (bs : List ℕ) (p : Proxy)
        → Carries t laws capacity frame (items (publishes id bs))
        → Acts (publishes id bs) p (filtered_publish t answer junk frame p)
    unfolding filtered_publish step
    hit_publish frame id bs p h =
        let q : Proxy = record p { seen_publish = b_publish } in
        rw
          (
            msg_filter-Carries t laws b_publish p.seen_publish b_publish frame _ h,
            on_publish-Carries t laws answer junk frame (record { id = id; value = bs }) q h,
          )
          (refl, sym (append-nil p.to_serial))

    pub hit_disconnect :
        (frame : List ℕ) (p : Proxy)
        → Carries t laws capacity frame (items disconnects)
        → Acts disconnects p (filtered_disconnect t answer junk frame p)
    unfolding filtered_disconnect step
    hit_disconnect frame p h =
        let q : Proxy = record p { seen_disconnect = b_disconnect } in
        rw
          (
            msg_filter-Carries t laws b_disconnect p.seen_disconnect b_disconnect frame _ h,
            on_disconnect-Carries t laws answer junk frame q h,
          )
          (refl, sym (append-nil p.to_serial))

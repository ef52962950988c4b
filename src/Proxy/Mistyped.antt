-- ===== src/Proxy/Mistyped.antt =====
-- A publish message with a text for its value, as src/proxy.cpp takes it.
use zenoh_proxy.Prelude.{ℕ, List, [], ◌∷◌, ◌≡◌, refl, sym, append-nil}
use zenoh_proxy.Cbor.{TinyCbor, int, text}
use zenoh_proxy.Cbor.Laws.{Laws}
use zenoh_proxy.Cbor.Deserializer
use zenoh_proxy.Cbor.Reads.{Carries}
use zenoh_proxy.Cbor.Messages.{b_publish}
use zenoh_proxy.Cbor.Mistyped.{TextLaw, publish_from_bytes-text}
use zenoh_proxy.Broker.{Call, publishes, publish, step}
use zenoh_proxy.Proxy.{Proxy, capacity, on_publish, filtered_publish, on_frame}
use zenoh_proxy.Proxy.Filters.{msg_filter-Carries}
use zenoh_proxy.Proxy.Dispatch.{Acts}
use zenoh_proxy.Proxy.Session.{around_publish}

module _ (t : TinyCbor) (laws : Laws t) (law : TextLaw t laws) (answer : List Call → Call → ℕ)
    (junk : ℕ) where
  on_publish-text :
      (id : ℕ) (bs frame : List ℕ) (p : Proxy)
      → Carries t laws capacity frame (int b_publish ∷ int id ∷ text bs ∷ [])
      → on_publish t answer junk frame p ≡ record p { broker = (publish answer id [] p.broker).0 }
  unfolding on_publish Deserializer.success
  on_publish-text id bs frame p h =
      let (ok, same) =
        publish_from_bytes-text t laws law capacity id bs frame (record { id = junk; value = [] })
          h in
      rw (ok, same)

  hit_publish-text :
      (id : ℕ) (bs frame : List ℕ) (p : Proxy)
      → Carries t laws capacity frame (int b_publish ∷ int id ∷ text bs ∷ [])
      → Acts t laws answer junk (publishes id []) p (filtered_publish t answer junk frame p)
  unfolding filtered_publish step
  hit_publish-text id bs frame p h =
      let q : Proxy = record p { seen_publish = b_publish } in
      rw
        (
          msg_filter-Carries t laws b_publish p.seen_publish b_publish frame _ h,
          on_publish-text id bs frame q h,
        )
        (refl, sym (append-nil p.to_serial))

  -- With the laws of TinyCBOR: a frame with a publish message whose value is a text, and not a string
  -- of bytes, is taken as the message that publishes no bytes under its id: the text is lost, and
  -- nothing is sent back.
  pub on_frame-text :
      (id : ℕ) (bs frame : List ℕ) (p : Proxy)
      → Carries t laws capacity frame (int b_publish ∷ int id ∷ text bs ∷ [])
      → Acts t laws answer junk (publishes id []) p (on_frame t answer junk frame p)
  on_frame-text id bs frame p h =
      around_publish t laws answer junk id [] frame p (_, h) (hit_publish-text id bs frame _ h)

-- ===== src/Cbor/Written.antt =====
-- The messages: what is written carries its items.
use zenoh_proxy.Prelude.{ℕ, List, [], ◌∷◌, ◌≤◌, arith}
use zenoh_proxy.Cbor.{TinyCbor, Item, int, text, bin}
use zenoh_proxy.Cbor.Laws.{Laws}
use zenoh_proxy.Cbor.Serializer
use zenoh_proxy.Cbor.Reads.{begin-Reads, Carries}
use zenoh_proxy.Cbor.Messages.{
  b_connect, b_disconnect, b_subscriber, b_publisher, b_publish, MsgConnect, MsgPublish,
  MsgPublisher, MsgSubscriber, connect_to_bytes, disconnect_to_bytes, publish_to_bytes,
  publisher_to_bytes, subscriber_to_bytes,
}

-- The items of a message: its type, and its fields.
abbrev pub connect_items : MsgConnect → List Item
connect_items m = int b_connect ∷ text m.client_id ∷ []

abbrev pub disconnect_items : List Item
disconnect_items = int b_disconnect ∷ []

abbrev pub publish_items : MsgPublish → List Item
publish_items m = int b_publish ∷ int m.id ∷ bin m.value ∷ []

abbrev pub publisher_items : MsgPublisher → List Item
publisher_items m = int b_publisher ∷ int m.id ∷ text m.topic ∷ []

abbrev pub subscriber_items : MsgSubscriber → List Item
subscriber_items m = int b_subscriber ∷ int m.id ∷ text m.topic ∷ []

module _ (t : TinyCbor) (laws : Laws t) where
  -- The array of the items fits into both buffers.
  abbrev pub Fits : ℕ → ℕ → List Item → Type 0
  Fits c capacity xs = (laws.size xs ≤ c) × (laws.size xs ≤ capacity)

  -- The serializer holds the items.
  abbrev pub Wrote : ℕ → Serializer.CborSerializer t → List Item → Type 0
  Wrote c s xs = laws.Holds c s.encoder xs

  pub begin-Wrote : (c : ℕ) (xs : List Item) → laws.size xs ≤ c → Wrote c (Serializer.begin t c) []
  unfolding Serializer.begin
  begin-Wrote c xs h = laws.holds_nothing c (omega (arith, h, laws.size_append [] xs))

  pub to_bytes-Carries :
      (c capacity : ℕ) (s : Serializer.CborSerializer t) (xs : List Item)
      → Wrote c s xs
      → Fits c capacity xs
      → Carries t laws capacity (Serializer.to_bytes t (Serializer.end t s)) xs
  unfolding Serializer.to_bytes Serializer.end
  to_bytes-Carries c capacity s xs h fits =
      begin-Reads t laws c capacity s.encoder xs h fits.0 fits.1

  type_Wrote :
      (c ty : ℕ) (xs : List Item)
      → laws.size (int ty ∷ xs) ≤ c
      → Wrote c (Serializer.member_int t ty (Serializer.begin t c)) (int ty ∷ [])
  unfolding Serializer.member_int
  type_Wrote c ty xs h =
      laws.holds_int c _ [] ty (begin-Wrote c (int ty ∷ xs) h)
        (omega (arith, h, laws.size_append (int ty ∷ []) xs))

  id_Wrote :
      (c ty id : ℕ) (x : Item)
      → laws.size (int ty ∷ int id ∷ x ∷ []) ≤ c
      → Wrote c
          (Serializer.member_int t id (Serializer.member_int t ty (Serializer.begin t c)))
          (int ty ∷ int id ∷ [])
  unfolding Serializer.member_int
  id_Wrote c ty id x h =
      laws.holds_int c _ (int ty ∷ []) id (type_Wrote c ty (int id ∷ x ∷ []) h)
        (omega (arith, h, laws.size_append (int ty ∷ int id ∷ []) (x ∷ [])))

  pub connect_to_bytes-Carries :
      (c capacity : ℕ) (m : MsgConnect)
      → Fits c capacity (connect_items m)
      → Carries t laws capacity (connect_to_bytes t c m) (connect_items m)
  unfolding connect_to_bytes Serializer.member_string
  connect_to_bytes-Carries c capacity m fits =
      let h = type_Wrote c b_connect (text m.client_id ∷ []) fits.0 in
      to_bytes-Carries c capacity _ _ (laws.holds_text c _ _ m.client_id h fits.0) fits

  pub disconnect_to_bytes-Carries :
      (c capacity : ℕ)
      → Fits c capacity disconnect_items
      → Carries t laws capacity (disconnect_to_bytes t c) disconnect_items
  unfolding disconnect_to_bytes
  disconnect_to_bytes-Carries c capacity fits =
      to_bytes-Carries c capacity _ _ (type_Wrote c b_disconnect [] fits.0) fits

  pub publish_to_bytes-Carries :
      (c capacity : ℕ) (m : MsgPublish)
      → Fits c capacity (publish_items m)
      → Carries t laws capacity (publish_to_bytes t c m) (publish_items m)
  unfolding publish_to_bytes Serializer.member_bytes
  publish_to_bytes-Carries c capacity m fits =
      let h = id_Wrote c b_publish m.id (bin m.value) fits.0 in
      to_bytes-Carries c capacity _ _ (laws.holds_bytes c _ _ m.value h fits.0) fits

  pub publisher_to_bytes-Carries :
      (c capacity : ℕ) (m : MsgPublisher)
      → Fits c capacity (publisher_items m)
      → Carries t laws capacity (publisher_to_bytes t c m) (publisher_items m)
  unfolding publisher_to_bytes Serializer.member_string
  publisher_to_bytes-Carries c capacity m fits =
      let h = id_Wrote c b_publisher m.id (text m.topic) fits.0 in
      to_bytes-Carries c capacity _ _ (laws.holds_text c _ _ m.topic h fits.0) fits

  pub subscriber_to_bytes-Carries :
      (c capacity : ℕ) (m : MsgSubscriber)
      → Fits c capacity (subscriber_items m)
      → Carries t laws capacity (subscriber_to_bytes t c m) (subscriber_items m)
  unfolding subscriber_to_bytes Serializer.member_string
  subscriber_to_bytes-Carries c capacity m fits =
      let h = id_Wrote c b_subscriber m.id (text m.topic) fits.0 in
      to_bytes-Carries c capacity _ _ (laws.holds_text c _ _ m.topic h fits.0) fits

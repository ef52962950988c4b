-- ===== src/Cbor/RoundTrip.antt =====
-- The messages: what carries the items of a message is read as that message.
use zenoh_proxy.Prelude.{ℕ, true, List, [], ◌∷◌, ◌≡◌, eq→==}
use zenoh_proxy.Cbor.{TinyCbor, Item, int}
use zenoh_proxy.Cbor.Laws.{Laws}
use zenoh_proxy.Cbor.Deserializer
use zenoh_proxy.Cbor.Reads.{
  NoNul, Reads, member_int-Reads, member_string-Reads, member_bytes-Reads, Carries,
}
use zenoh_proxy.Cbor.Written.{
  Fits, connect_items, disconnect_items, publish_items, publisher_items, subscriber_items,
  publish_to_bytes-Carries,
}
use zenoh_proxy.Cbor.Messages.{
  MsgConnect, MsgPublish, MsgPublisher, MsgSubscriber, publish_to_bytes, base_from_bytes,
  from_second, connect_from_bytes, disconnect_from_bytes, publish_from_bytes, publisher_from_bytes,
  subscriber_from_bytes,
}

-- A read that ends without an error succeeds.
pub err-success :
    (t : TinyCbor) {A : Type 0} (r : Deserializer.CborDeserializer t × A) {x : A}
    → (r.0.err ≡ 0) × (r.1 ≡ x)
    → (Deserializer.success t r.0 ≡ true) × (r.1 ≡ x)
unfolding Deserializer.success
err-success t r (ok, same) = (eq→== _ 0 ok, same)

module _ (t : TinyCbor) (laws : Laws t) where
  -- A message is read as what it carries.
  pub second-Reads :
      (capacity : ℕ) (bs : List ℕ) (n : ℕ) (xs : List Item)
      → Carries t laws capacity bs (int n ∷ xs)
      → Reads t laws (from_second t capacity bs) xs
  second-Reads capacity bs n xs h = (member_int-Reads t laws 0 n _ xs h).1

  pub base_from_bytes-Carries :
      (capacity old n : ℕ) (bs : List ℕ) (xs : List Item)
      → Carries t laws capacity bs (int n ∷ xs)
      → let r = base_from_bytes t capacity bs old in (r.0.err ≡ 0) × (r.1 ≡ n)
  unfolding base_from_bytes Deserializer.end
  base_from_bytes-Carries capacity old n bs xs h =
      let (value, rest) = member_int-Reads t laws old n _ xs h in (rest.0, value)

  pub publish_from_bytes-Carries :
      (capacity : ℕ) (bs : List ℕ) (m old : MsgPublish)
      → Carries t laws capacity bs (publish_items m)
      → let r = publish_from_bytes t capacity bs old in (r.0.err ≡ 0) × (r.1 ≡ m)
  unfolding publish_from_bytes Deserializer.end
  publish_from_bytes-Carries capacity bs m old h =
      let (id, after) = member_int-Reads t laws old.id m.id _ _ (second-Reads capacity bs _ _ h) in
      let (value, end) = member_bytes-Reads t laws old.value m.value _ [] after in
      (end.0, rw (id, value))

  pub publisher_from_bytes-Carries :
      (capacity : ℕ) (bs : List ℕ) (m old : MsgPublisher)
      → NoNul m.topic
      → Carries t laws capacity bs (publisher_items m)
      → let r = publisher_from_bytes t capacity bs old in (r.0.err ≡ 0) × (r.1 ≡ m)
  unfolding publisher_from_bytes Deserializer.end
  publisher_from_bytes-Carries capacity bs m old plain h =
      let (id, after) = member_int-Reads t laws old.id m.id _ _ (second-Reads capacity bs _ _ h) in
      let (topic, end) = member_string-Reads t laws old.topic m.topic _ [] plain after in
      (end.0, rw (id, topic))

  pub subscriber_from_bytes-Carries :
      (capacity : ℕ) (bs : List ℕ) (m old : MsgSubscriber)
      → NoNul m.topic
      → Carries t laws capacity bs (subscriber_items m)
      → let r = subscriber_from_bytes t capacity bs old in (r.0.err ≡ 0) × (r.1 ≡ m)
  unfolding subscriber_from_bytes Deserializer.end
  subscriber_from_bytes-Carries capacity bs m old plain h =
      let (id, after) = member_int-Reads t laws old.id m.id _ _ (second-Reads capacity bs _ _ h) in
      let (topic, end) = member_string-Reads t laws old.topic m.topic _ [] plain after in
      (end.0, rw (id, topic))

  pub connect_from_bytes-Carries :
      (capacity : ℕ) (bs : List ℕ) (m old : MsgConnect)
      → NoNul m.client_id
      → Carries t laws capacity bs (connect_items m)
      → let r = connect_from_bytes t capacity bs old in (r.0.err ≡ 0) × (r.1 ≡ m)
  unfolding connect_from_bytes Deserializer.end
  connect_from_bytes-Carries capacity bs m old plain h =
      let (client_id, end) =
        member_string-Reads t laws old.client_id m.client_id _ [] plain
          (second-Reads capacity bs _ _ h) in
      (end.0, rw client_id)

  pub disconnect_from_bytes-Carries :
      (capacity : ℕ) (bs : List ℕ)
      → Carries t laws capacity bs disconnect_items
      → (disconnect_from_bytes t capacity bs).err ≡ 0
  unfolding disconnect_from_bytes Deserializer.end
  disconnect_from_bytes-Carries capacity bs h = (second-Reads capacity bs _ _ h).0

  publish_from_bytes-publish_to_bytes :
      (c capacity : ℕ) (m old : MsgPublish)
      → Fits t laws c capacity (publish_items m)
      → let r = publish_from_bytes t capacity (publish_to_bytes t c m) old in
        (Deserializer.success t r.0 ≡ true) × (r.1 ≡ m)
  publish_from_bytes-publish_to_bytes c capacity m old fits = err-success t _ (
      publish_from_bytes-Carries capacity (publish_to_bytes t c m) m old
        (publish_to_bytes-Carries t laws c capacity m fits))

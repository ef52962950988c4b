-- ===== src/Cbor/Mistyped.antt =====
-- A value of another type in a message: common/CborDeserializer.cpp passes over it.
use zenoh_proxy.Prelude.{ℕ, false, List, [], ◌∷◌, ◌≡◌, refl}
use zenoh_proxy.Cbor.{TinyCbor, Item, int, text}
use zenoh_proxy.Cbor.Laws.{Laws}
use zenoh_proxy.Cbor.Deserializer
use zenoh_proxy.Cbor.Reads.{Reads, Carries, member_int-Reads}
use zenoh_proxy.Cbor.RoundTrip.{second-Reads}
use zenoh_proxy.Cbor.Messages.{b_publish, MsgPublish, publish_from_bytes}

-- What the documentation of TinyCBOR says of a text: it is no byte string.
pub record TextLaw (t : TinyCbor) (laws : Laws t) : Type 0 where
  pub not_bytes :
      (v : t.Value) (bs : List ℕ) (xs : List Item)
      → laws.At v (text bs ∷ xs)
      → t.is_byte_string v ≡ false

module _ (t : TinyCbor) (laws : Laws t) (law : TextLaw t laws) where
  -- A text in the place of bytes leaves the variable as it was, and is passed without an error.
  member_bytes-text :
      (old bs : List ℕ) (d : Deserializer.CborDeserializer t) (xs : List Item)
      → Reads t laws d (text bs ∷ xs)
      → let r = Deserializer.member_bytes t old d in (r.1 ≡ old) × Reads t laws r.0 xs
  unfolding Deserializer.member_bytes
  member_bytes-text old bs d xs h =
      let (is, got, ok, at) = laws.at_text d.it bs xs h.1 in
      (rw (h.0, law.not_bytes d.it bs xs h.1) refl, (ok, at))

  pub publish_from_bytes-text :
      (capacity id : ℕ) (bs frame : List ℕ) (old : MsgPublish)
      → Carries t laws capacity frame (int b_publish ∷ int id ∷ text bs ∷ [])
      → let r = publish_from_bytes t capacity frame old in
        (r.0.err ≡ 0) × (r.1 ≡ record { id = id; value = old.value })
  unfolding publish_from_bytes Deserializer.end
  publish_from_bytes-text capacity id bs frame old h =
      let (found, after) =
        member_int-Reads t laws old.id id _ _ (second-Reads t laws capacity frame _ _ h) in
      let (value, end) = member_bytes-text old.value bs _ [] after in (end.0, rw (found, value))

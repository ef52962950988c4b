-- ===== src/Cbor/Reads.antt =====
-- Single items: what a member of the deserializer gives before an item of its type.
use zenoh_proxy.Prelude.{
  ◌<◌, ◌<◌, ℕ, List, [], ◌∷◌, ltb, if◌then◌else◌, length, ◌≡◌, ◌≢◌, ◌≤◌, refl, All, take-length,
  arith, ne→==,
}
use zenoh_proxy.Cbor.{TinyCbor, Item, int, text, bin}
use zenoh_proxy.Cbor.Laws.{Laws}
use zenoh_proxy.Cbor.Deserializer

-- No byte is zero.
abbrev pub NoNul : List ℕ → Type 0
NoNul = All (λ b. b ≢ 0)

pub c_string-NoNul : (bs : List ℕ) → NoNul bs → Deserializer.c_string bs ≡ bs
unfolding Deserializer.c_string
c_string-NoNul [] h = refl
c_string-NoNul (b ∷ bs) h = rw (ne→== b 0 h.0, c_string-NoNul bs h.1)

from_bytes-fits :
    (capacity : ℕ) (bs : List ℕ) → length bs ≤ capacity → Deserializer.from_bytes capacity bs ≡ bs
unfolding Deserializer.from_bytes
from_bytes-fits capacity bs h =
    let whole : (if ltb (length bs) capacity then length bs else capacity) ≡ length bs =
      ground (arith, h) in
    rw (whole, take-length bs)

module _ (t : TinyCbor) (laws : Laws t) where
  -- The deserializer has met no error and stands before the items.
  abbrev pub Reads : Deserializer.CborDeserializer t → List Item → Type 0
  Reads d xs = (d.err ≡ 0) × laws.At d.it xs

  pub begin-Reads :
      (c capacity : ℕ) (e : t.Encoder) (xs : List Item)
      → laws.Holds c e xs
      → laws.size xs ≤ c
      → laws.size xs ≤ capacity
      → Reads
          (Deserializer.begin t
            (Deserializer.from_bytes capacity (t.get_buffer (t.close_container e).1)))
          xs
  unfolding Deserializer.begin
  begin-Reads c capacity e xs h fits fits' =
      let (len, ok, at) = laws.parse c e xs h fits in
      rw
        (from_bytes-fits capacity (t.get_buffer (t.close_container e).1)
          (omega (arith, len, fits')))
        (ok, at)

  pub member_int-Reads :
      (old n : ℕ) (d : Deserializer.CborDeserializer t) (xs : List Item)
      → Reads d (int n ∷ xs)
      → let r = Deserializer.member_int t old d in (r.1 ≡ n) × Reads r.0 xs
  unfolding Deserializer.member_int
  member_int-Reads old n d xs h =
      let (is, got, ok, at) = laws.at_int d.it n xs h.1 in (rw (h.0, is, got), (ok, at))

  -- A member of 64 bits reads an int that is not negative.
  pub member_uint-Reads :
      (old n : ℕ) (d : Deserializer.CborDeserializer t) (xs : List Item)
      → n < 0x8000_0000
      → Reads d (int n ∷ xs)
      → let r = Deserializer.member_uint t old d in (r.1 ≡ n) × Reads r.0 xs
  unfolding Deserializer.member_uint
  member_uint-Reads old n d xs small h =
      let (is, got) = laws.at_natural d.it n xs h.1 small in
      let (number, same, ok, at) = laws.at_int d.it n xs h.1 in (rw (h.0, is, got), (ok, at))

  pub member_string-Reads :
      (old bs : List ℕ) (d : Deserializer.CborDeserializer t) (xs : List Item)
      → NoNul bs
      → Reads d (text bs ∷ xs)
      → let r = Deserializer.member_string t old d in (r.1 ≡ bs) × Reads r.0 xs
  unfolding Deserializer.member_string
  member_string-Reads old bs d xs plain h =
      let (is, got, ok, at) = laws.at_text d.it bs xs h.1 in
      (rw (h.0, is, got, c_string-NoNul bs plain), (ok, at))

  pub member_bytes-Reads :
      (old bs : List ℕ) (d : Deserializer.CborDeserializer t) (xs : List Item)
      → Reads d (bin bs ∷ xs)
      → let r = Deserializer.member_bytes t old d in (r.1 ≡ bs) × Reads r.0 xs
  unfolding Deserializer.member_bytes
  member_bytes-Reads old bs d xs h =
      let (is, len, got, ok, at) = laws.at_bytes d.it bs xs h.1 in
      (rw (h.0, is, len, got), (ok, at))

  -- The bytes are a message of the items, for a deserializer of the capacity.
  abbrev pub Carries : ℕ → List ℕ → List Item → Type 0
  Carries capacity bs = Reads (Deserializer.begin t (Deserializer.from_bytes capacity bs))

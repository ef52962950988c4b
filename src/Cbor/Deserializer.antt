-- ===== src/Cbor/Deserializer.antt =====
-- common/CborDeserializer.cpp: a message is read item by item.
use zenoh_proxy.Prelude.{ℕ, Bool, List, ◌==◌, ltb, if◌then◌else◌, ◌&&◌, length, take}
use zenoh_proxy.Cbor.{[], ◌∷◌, TinyCbor}

-- The part of the bytes that `fromBytes` copies.
unfoldable pub from_bytes : ℕ → List ℕ → List ℕ
from_bytes capacity bs = take (if ltb (length bs) capacity then length bs else capacity) bs

-- The assignment of a `char *` to a string: up to the first zero byte.
unfoldable pub c_string : List ℕ → List ℕ
c_string [] = []
c_string (b ∷ bs) = let rest = c_string bs in if b == 0 then [] else b ∷ rest

module _ (t : TinyCbor) where
  -- `CborDeserializer`: the iterator and the last error.
  pub record CborDeserializer : Type 0 where
    pub it : t.Value
    pub err : ℕ

  -- The error of `cbor_parser_init` is overwritten.
  unfoldable pub begin : List ℕ → CborDeserializer
  begin buffer =
      let (err, it) = t.enter_container (t.parser_init buffer).1 in record { it = it; err = err }

  -- A member gives the new value of its variable; a value of another type leaves it as it was. The
  -- error is that of the advance.
  unfoldable pub member_int : ℕ → CborDeserializer → CborDeserializer × ℕ
  member_int old d =
      let x : ℕ = if (d.err == 0) && t.is_integer d.it then (t.get_int d.it).1 else old in
      let (err, it) = t.advance_fixed d.it in (record { it = it; err = err }, x)

  -- `member(uint64_t &)`
  unfoldable pub member_uint : ℕ → CborDeserializer → CborDeserializer × ℕ
  member_uint old d =
      let x : ℕ =
        if (d.err == 0) && t.is_unsigned_integer d.it then (t.get_uint64 d.it).1 else old in
      let (err, it) = t.advance_fixed d.it in (record { it = it; err = err }, x)

  unfoldable pub member_string : List ℕ → CborDeserializer → CborDeserializer × List ℕ
  member_string old d =
      let x : List ℕ =
        if (d.err == 0) && t.is_text_string d.it
        then c_string (t.dup_text_string d.it).1
        else old in
      let (err, it) = t.advance d.it in (record { it = it; err = err }, x)

  unfoldable pub member_bytes : List ℕ → CborDeserializer → CborDeserializer × List ℕ
  member_bytes old d =
      let x : List ℕ =
        if (d.err == 0) && t.is_byte_string d.it && (t.calculate_string_length d.it == 0)
        then (t.dup_byte_string d.it).1
        else old in
      let (err, it) = t.advance d.it in (record { it = it; err = err }, x)

  -- `end` does nothing.
  unfoldable pub end : CborDeserializer → CborDeserializer
  end d = d

  unfoldable pub success : CborDeserializer → Bool
  success d = d.err == 0

-- ===== src/Cbor/Serializer.antt =====
-- common/CborSerializer.cpp: a message is built as an array of items.
use zenoh_proxy.Prelude.{ℕ, List}
use zenoh_proxy.Cbor.{TinyCbor}

module _ (t : TinyCbor) where
  -- `CborSerializer`: the encoder, the last error and the capacity of the buffer.
  pub record CborSerializer : Type 0 where
    pub encoder : t.Encoder
    pub err : ℕ
    pub capacity : ℕ

  unfoldable pub begin : ℕ → CborSerializer
  begin capacity =
      let (err, encoder) = t.create_array (t.encoder_init capacity) in
      record { encoder = encoder; err = err; capacity = capacity }

  unfoldable pub member_int : ℕ → CborSerializer → CborSerializer
  member_int n s =
      let (err, encoder) = t.encode_int s.encoder n in record s { encoder = encoder; err = err }

  -- `member(uint64_t &)`
  unfoldable pub member_uint : ℕ → CborSerializer → CborSerializer
  member_uint n s =
      let (err, encoder) = t.encode_uint s.encoder n in record s { encoder = encoder; err = err }

  -- An `int64_t` and a double are their 64-bit patterns.
  unfoldable pub member_int64 : ℕ → CborSerializer → CborSerializer
  member_int64 n s =
      let (err, encoder) = t.encode_int64 s.encoder n in record s { encoder = encoder; err = err }

  unfoldable pub member_double : ℕ → CborSerializer → CborSerializer
  member_double n s =
      let (err, encoder) = t.encode_double s.encoder n in record s { encoder = encoder; err = err }

  unfoldable pub member_string : List ℕ → CborSerializer → CborSerializer
  member_string bs s =
      let (err, encoder) = t.encode_text_string s.encoder bs in
      record s { encoder = encoder; err = err }

  unfoldable pub member_bytes : List ℕ → CborSerializer → CborSerializer
  member_bytes bs s =
      let (err, encoder) = t.encode_byte_string s.encoder bs in
      record s { encoder = encoder; err = err }

  unfoldable pub end : CborSerializer → CborSerializer
  end s =
      let (err, encoder) = t.close_container s.encoder in record s { encoder = encoder; err = err }

  unfoldable pub to_bytes : CborSerializer → List ℕ
  to_bytes s = t.get_buffer s.encoder

-- ===== src/Cbor.antt =====
-- common/CborSerializer.cpp and CborDeserializer.cpp over TinyCBOR, which is a parameter: a record of
-- the functions that they call, and the documented behaviour of these as laws. An error code is a
-- number, 0 for CborNoError; an int is its 32-bit pattern.
pub mod Serializer
pub mod Deserializer
pub mod Laws
pub mod Messages
pub mod Reads
pub mod Written
pub mod RoundTrip
pub mod Kinds
pub mod Mistyped
pub mod Tests
use zenoh_proxy.Prelude.{
  ℕ, Bool, true, false, List, [], ◌∷◌, ◌++◌, ◌==◌, ltb, if◌then◌else◌, ◌&&◌, length, take, ◌≡◌, ◌≤◌,
}

-- An item of the array that a message is.
pub data Item : Type 0 where
  int : ℕ → Item
  text : List ℕ → Item
  bin : List ℕ → Item

-- The functions of TinyCBOR. A function that returns an error code gives it first; what it leaves in
-- its last argument when it fails is its result all the same.
pub record TinyCbor : Type 1 where
  pub Encoder : Type 0
  pub encoder_init : ℕ → Encoder
  pub create_array : Encoder → ℕ × Encoder
  pub encode_int : Encoder → ℕ → ℕ × Encoder
  pub encode_uint : Encoder → ℕ → ℕ × Encoder
  -- `cbor_encode_int` on the pattern of an `int64_t`.
  pub encode_int64 : Encoder → ℕ → ℕ × Encoder
  pub encode_double : Encoder → ℕ → ℕ × Encoder
  pub encode_text_string : Encoder → List ℕ → ℕ × Encoder
  pub encode_byte_string : Encoder → List ℕ → ℕ × Encoder
  pub close_container : Encoder → ℕ × Encoder
  pub get_buffer : Encoder → List ℕ
  pub Value : Type 0
  pub parser_init : List ℕ → ℕ × Value
  pub enter_container : Value → ℕ × Value
  pub is_integer : Value → Bool
  pub get_int : Value → ℕ × ℕ
  pub is_unsigned_integer : Value → Bool
  pub get_uint64 : Value → ℕ × ℕ
  pub advance_fixed : Value → ℕ × Value
  pub is_text_string : Value → Bool
  pub dup_text_string : Value → ℕ × List ℕ
  pub is_byte_string : Value → Bool
  pub calculate_string_length : Value → ℕ
  pub dup_byte_string : Value → ℕ × List ℕ
  pub advance : Value → ℕ × Value

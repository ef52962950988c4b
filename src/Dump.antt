-- ===== src/Dump.antt =====
-- common/CborDump.cpp: the text of a CBOR value, for the log. The functions of TinyCBOR, the texts that
-- a stringstream makes of numbers are parameters.
pub mod Walk
pub mod Tree
pub mod Printed
pub mod Tests
use zenoh_proxy.Prelude.{
  ℕ, ◌+◌, Bool, true, false, Option, none, some, List, [], ◌∷◌, ◌++◌, ◌==◌, if◌then◌else◌, ◌>>=◌,
  zero, suc,
}
use zenoh_proxy.Cbor.Deserializer
use zenoh_proxy.Text.{hex_dump}

-- `CborType`
pub data Kind : Type 0 where
  array_type : Kind
  map_type : Kind
  integer_type : Kind
  byte_string_type : Kind
  text_string_type : Kind
  tag_type : Kind
  simple_type : Kind
  null_type : Kind
  undefined_type : Kind
  boolean_type : Kind
  half_float_type : Kind
  float_type : Kind
  double_type : Kind
  invalid_type : Kind

-- The functions of TinyCBOR; an error code comes first.
pub record Decoder : Type 1 where
  pub Value : Type 0
  pub parser_init : List ℕ → ℕ × Value
  pub at_end : Value → Bool
  pub get_type : Value → Kind
  pub enter_container : Value → ℕ × Value
  pub leave_container : Value → Value → ℕ × Value
  pub get_int64 : Value → ℕ × ℕ
  pub dup_byte_string : Value → ℕ × List ℕ × Value
  pub dup_text_string : Value → ℕ × List ℕ × Value
  pub get_tag : Value → ℕ × ℕ
  pub get_simple_type : Value → ℕ × ℕ
  pub get_boolean : Value → ℕ × Bool
  pub get_half_float : Value → ℕ × ℕ
  pub get_float : Value → ℕ × ℕ
  pub get_double : Value → ℕ × ℕ
  pub advance_fixed : Value → ℕ × Value

-- The texts of a signed number in base 16 or 10, of floating point numbers, and of the size of a
-- vector.
pub record Format : Type 0 where
  pub int_text : Bool → ℕ → List ℕ
  pub float_text : ℕ → List ℕ
  pub double_text : ℕ → List ℕ
  pub size_text : List ℕ → List ℕ

-- The stringstream: its text, and whether it is in base 16 from now on.
pub record Stream : Type 0 where
  pub text : List ℕ
  pub hex : Bool

unfoldable pub put : List ℕ → Stream → Stream
put cs ss = record ss { text = ss.text ++ cs }

unfoldable pub indent : ℕ → Stream → Stream
indent zero ss = ss
indent (suc level) ss = indent level (put (32 ∷ []) ss)

-- CborErrorUnknownType
abbrev pub unknown_type : ℕ
unknown_type = 259

module _ (f : Format) where
  -- What is printed of a value that is no container.
  unfoldable pub put_int : ℕ → Stream → Stream
  put_int n ss = put (f.int_text ss.hex n ++ 44 ∷ []) ss

  unfoldable pub put_bytes : List ℕ → Stream → Stream
  put_bytes bs ss = put (hex_dump f.size_text (32 ∷ []) bs) ss

  unfoldable pub put_text : List ℕ → Stream → Stream
  put_text bs ss = put (39 ∷ Deserializer.c_string bs ++ 39 ∷ []) ss

  unfoldable pub put_tag : ℕ → Stream → Stream
  put_tag n ss = put (84 ∷ 97 ∷ 103 ∷ 40 ∷ f.int_text ss.hex n ++ 41 ∷ 44 ∷ []) ss

  -- A `uint8_t` is printed as a character.
  unfoldable pub put_simple : ℕ → Stream → Stream
  put_simple n ss = put (115 ∷ 105 ∷ 109 ∷ 112 ∷ 108 ∷ 101 ∷ 40 ∷ n ∷ 41 ∷ 44 ∷ []) ss

  unfoldable pub put_null : Stream → Stream
  put_null ss = put (110 ∷ 117 ∷ 108 ∷ 108 ∷ []) ss

  unfoldable pub put_undefined : Stream → Stream
  put_undefined ss = put (117 ∷ 110 ∷ 100 ∷ 101 ∷ 102 ∷ 105 ∷ 110 ∷ 101 ∷ 100 ∷ []) ss

  unfoldable pub put_boolean : Bool → Stream → Stream
  put_boolean true ss = put (116 ∷ 114 ∷ 117 ∷ 101 ∷ []) ss
  put_boolean false ss = put (102 ∷ 97 ∷ 108 ∷ 115 ∷ 101 ∷ []) ss

  -- `hex` stays in force.
  unfoldable pub put_half_float : ℕ → Stream → Stream
  put_half_float n ss =
      let on : Stream = record ss { hex = true } in
      put (95 ∷ 95 ∷ 102 ∷ 49 ∷ 54 ∷ 40 ∷ f.int_text true n ++ 41 ∷ 44 ∷ []) on

  unfoldable pub put_float : ℕ → Stream → Stream
  put_float n ss = put (f.float_text n ++ 44 ∷ []) ss

  unfoldable pub put_double : ℕ → Stream → Stream
  put_double n ss = put (f.double_text n ++ 44 ∷ []) ss

  module _ (d : Decoder) where
    -- A value is got and printed; the error leaves the function.
    unfoldable pub got : {A : Type 0} → ℕ × A → (A → Stream → Stream) → Stream → ℕ × Stream
    got (rc, x) print ss = let printed = print x ss in (rc, if rc == 0 then printed else ss)

    unfoldable pub advanced : d.Value → ℕ × Stream → ℕ × d.Value × Stream
    advanced it (rc, ss) =
        let (rc', it') = d.advance_fixed it in if rc == 0 then (rc', it', ss) else (rc, it, ss)

    unfoldable pub passed :
        d.Value → ℕ × List ℕ × d.Value → (List ℕ → Stream → Stream) → Stream → ℕ × d.Value × Stream
    passed it (rc, bs, it') print ss =
        let printed = print bs ss in if rc == 0 then (rc, it', printed) else (rc, it, ss)

    -- The cases of the switch but the containers, with the advance behind it.
    unfoldable pub dump_item : Kind → d.Value → Stream → ℕ × d.Value × Stream
    dump_item array_type it ss = (0, it, ss)
    dump_item map_type it ss = (0, it, ss)
    dump_item integer_type it ss = advanced it (got (d.get_int64 it) put_int ss)
    dump_item byte_string_type it ss = passed it (d.dup_byte_string it) put_bytes ss
    dump_item text_string_type it ss = passed it (d.dup_text_string it) put_text ss
    dump_item tag_type it ss = advanced it (got (d.get_tag it) put_tag ss)
    dump_item simple_type it ss = advanced it (got (d.get_simple_type it) put_simple ss)
    dump_item null_type it ss = advanced it (0, put_null ss)
    dump_item undefined_type it ss = advanced it (0, put_undefined ss)
    dump_item boolean_type it ss = advanced it (got (d.get_boolean it) put_boolean ss)
    dump_item half_float_type it ss = advanced it (got (d.get_half_float it) put_half_float ss)
    dump_item float_type it ss = advanced it (got (d.get_float it) put_float ss)
    dump_item double_type it ss = advanced it (got (d.get_double it) put_double ss)
    dump_item invalid_type it ss = (unknown_type, it, ss)

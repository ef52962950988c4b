-- ===== src/Dump/Tree.antt =====
-- The text that common/CborDump.cpp is to print of a tree of values, and what is asked of TinyCBOR.
use zenoh_proxy.Prelude.{ℕ, ◌+◌, ◌≡◌, Bool, true, false, List, ◌∷◌}
use zenoh_proxy.Dump.{
  Kind, array_type, map_type, integer_type, byte_string_type, text_string_type, tag_type,
  simple_type, null_type, undefined_type, boolean_type, half_float_type, float_type, double_type,
  Decoder, Format, Stream, put, indent, put_int, put_bytes, put_text, put_tag, put_simple, put_null,
  put_undefined, put_boolean, put_half_float, put_float, put_double,
}
use zenoh_proxy.Dump.Walk.{array_open, array_close, map_open, map_close}

-- A value that is no container; a tag stands in front of the value that it is for.
pub data Leaf : Type 0 where
  int_leaf : ℕ → Leaf
  bytes_leaf : List ℕ → Leaf
  text_leaf : List ℕ → Leaf
  tag_leaf : ℕ → Leaf
  simple_leaf : ℕ → Leaf
  null_leaf : Leaf
  undefined_leaf : Leaf
  boolean_leaf : Bool → Leaf
  half_leaf : ℕ → Leaf
  float_leaf : ℕ → Leaf
  double_leaf : ℕ → Leaf

pub data Bracket : Type 0 where
  array : Bracket
  mapping : Bracket

-- Values, one behind the other: nothing, a leaf and the rest, or a container with its elements and the
-- rest. The elements of a map are its keys and values in turn.
pub data Values : Type 0 where
  end : Values
  leaf : Leaf → Values → Values
  nest : Bracket → Values → Values → Values

-- How many turns the loops make.
unfoldable pub turns : Values → ℕ
turns end = 1
turns (leaf l rest) = 1 + turns rest
turns (nest b inner rest) = 1 + turns inner + turns rest

abbrev pub opening : Bracket → List ℕ
opening array = array_open
opening mapping = map_open

abbrev pub closing : Bracket → List ℕ
closing array = array_close
closing mapping = map_close

abbrev pub kind : Bracket → Kind
kind array = array_type
kind mapping = map_type

module _ (f : Format) where
  unfoldable pub put_leaf : Leaf → Stream → Stream
  put_leaf (int_leaf n) ss = put_int f n ss
  put_leaf (bytes_leaf bs) ss = put_bytes f bs ss
  put_leaf (text_leaf bs) ss = put_text f bs ss
  put_leaf (tag_leaf n) ss = put_tag f n ss
  put_leaf (simple_leaf n) ss = put_simple f n ss
  put_leaf null_leaf ss = put_null f ss
  put_leaf undefined_leaf ss = put_undefined f ss
  put_leaf (boolean_leaf b) ss = put_boolean f b ss
  put_leaf (half_leaf n) ss = put_half_float f n ss
  put_leaf (float_leaf n) ss = put_float f n ss
  put_leaf (double_leaf n) ss = put_double f n ss

  -- The text of values at a level: each is indented, and so is the bracket that closes a container.
  unfoldable pub print : ℕ → Values → Stream → Stream
  print level end ss = ss
  print level (leaf l rest) ss = print level rest (put_leaf l (indent level ss))
  print level (nest b inner rest) ss =
      let inside = print (level + 1) inner (put (opening b) (indent level ss)) in
      print level rest (put (closing b) (indent level inside))

-- The type of a leaf, what its function gets of it, whether it can be passed, and what is behind it.
abbrev pub leaf_kind : Leaf → Kind
leaf_kind (int_leaf n) = integer_type
leaf_kind (bytes_leaf bs) = byte_string_type
leaf_kind (text_leaf bs) = text_string_type
leaf_kind (tag_leaf n) = tag_type
leaf_kind (simple_leaf n) = simple_type
leaf_kind null_leaf = null_type
leaf_kind undefined_leaf = undefined_type
leaf_kind (boolean_leaf b) = boolean_type
leaf_kind (half_leaf n) = half_float_type
leaf_kind (float_leaf n) = float_type
leaf_kind (double_leaf n) = double_type

module _ (d : Decoder) where
  abbrev pub Gets : d.Value → Leaf → Type 0
  Gets v (int_leaf n) = d.get_int64 v ≡ (0, n)
  Gets v (bytes_leaf bs) = ((d.dup_byte_string v).0 ≡ 0) × ((d.dup_byte_string v).1 ≡ bs)
  Gets v (text_leaf bs) = ((d.dup_text_string v).0 ≡ 0) × ((d.dup_text_string v).1 ≡ bs)
  Gets v (tag_leaf n) = d.get_tag v ≡ (0, n)
  Gets v (simple_leaf n) = d.get_simple_type v ≡ (0, n)
  Gets v null_leaf = Unit
  Gets v undefined_leaf = Unit
  Gets v (boolean_leaf b) = d.get_boolean v ≡ (0, b)
  Gets v (half_leaf n) = d.get_half_float v ≡ (0, n)
  Gets v (float_leaf n) = d.get_float v ≡ (0, n)
  Gets v (double_leaf n) = d.get_double v ≡ (0, n)

  -- A string is passed by the function that gets it.
  abbrev pub Passes : d.Value → Leaf → Type 0
  Passes v (bytes_leaf bs) = Unit
  Passes v (text_leaf bs) = Unit
  Passes v l = (d.advance_fixed v).0 ≡ 0

  abbrev pub behind : d.Value → Leaf → d.Value
  behind v (bytes_leaf bs) = (d.dup_byte_string v).2
  behind v (text_leaf bs) = (d.dup_text_string v).2
  behind v l = (d.advance_fixed v).1

  -- What the documentation of TinyCBOR says of the functions. `At o v xs`: the iterator stands before
  -- the values xs, inside containers behind which there are the values of o, the innermost first.
  pub record Laws : Type 1 where
    pub At : List Values → d.Value → Values → Type 0
    pub at_end : (o : List Values) (v : d.Value) → At o v end → d.at_end v ≡ true
    pub at_leaf :
        (o : List Values) (v : d.Value) (l : Leaf) (xs : Values)
        → At o v (leaf l xs)
        → (d.at_end v ≡ false)
          × (d.get_type v ≡ leaf_kind l)
          × Gets v l
          × Passes v l
          × At o (behind v l) xs
    pub at_nest :
        (o : List Values) (v : d.Value) (b : Bracket) (ys xs : Values)
        → At o v (nest b ys xs)
        → (d.at_end v ≡ false)
          × (d.get_type v ≡ kind b)
          × ((d.enter_container v).0 ≡ 0)
          × At (xs ∷ o) (d.enter_container v).1 ys
    pub leave :
        (o : List Values) (v r : d.Value) (b : Bracket) (ys xs : Values)
        → At o v (nest b ys xs)
        → At (xs ∷ o) r end
        → ((d.leave_container v r).0 ≡ 0) × At o (d.leave_container v r).1 xs

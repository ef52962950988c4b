-- ===== src/Dump/Tests.antt =====
-- A decoder whose iterators are the values themselves.
use zenoh_proxy.Prelude.{ℕ, ◌+◌, ◌≡◌, refl, Bool, true, false, some, List, [], ◌∷◌, arith}
use zenoh_proxy.Dump.{Kind, invalid_type, Decoder, Format, put, indent, put_int, put_text, put_null}
use zenoh_proxy.Dump.Walk.{cbor_dump}
use zenoh_proxy.Dump.Tree.{
  Leaf, int_leaf, bytes_leaf, text_leaf, tag_leaf, simple_leaf, null_leaf, undefined_leaf,
  boolean_leaf, half_leaf, float_leaf, double_leaf, array, mapping, Values, end, leaf, nest, turns,
  kind, print, put_leaf, leaf_kind, Gets, Passes, behind, Laws,
}
use zenoh_proxy.Dump.Printed.{cbor_dump-print}
use zenoh_proxy.Cbor.Deserializer

abbrev is_end : Values → Bool
is_end end = true
is_end (leaf l xs) = false
is_end (nest b ys xs) = false

abbrev kind_of : Values → Kind
kind_of end = invalid_type
kind_of (leaf l xs) = leaf_kind l
kind_of (nest b ys xs) = kind b

abbrev inside : Values → Values
inside end = end
inside (leaf l xs) = end
inside (nest b ys xs) = ys

abbrev rest : Values → Values
rest end = end
rest (leaf l xs) = xs
rest (nest b ys xs) = xs

abbrev number : Leaf → ℕ
number (int_leaf n) = n
number (tag_leaf n) = n
number (simple_leaf n) = n
number (half_leaf n) = n
number (float_leaf n) = n
number (double_leaf n) = n
number l = 0

abbrev string : Leaf → List ℕ
string (bytes_leaf bs) = bs
string (text_leaf bs) = bs
string l = []

abbrev flag : Leaf → Bool
flag (boolean_leaf b) = b
flag l = false

abbrev first_number : Values → ℕ
first_number (leaf l xs) = number l
first_number xs = 0

abbrev first_string : Values → List ℕ
first_string (leaf l xs) = string l
first_string xs = []

abbrev first_flag : Values → Bool
first_flag (leaf l xs) = flag l
first_flag xs = false

-- [ 'A', 7 ], { null: 8 }
abbrev sample : Values
sample =
    nest array (leaf (text_leaf (65 ∷ [])) (leaf (int_leaf 7) end))
      (nest mapping (leaf null_leaf (leaf (int_leaf 8) end)) end)

abbrev decoder : Decoder
decoder = record {
  Value = Values;
  parser_init = λ bs. (0, sample);
  at_end = is_end;
  get_type = kind_of;
  enter_container = λ v. (0, inside v);
  leave_container = λ v r. (0, rest v);
  get_int64 = λ v. (0, first_number v);
  dup_byte_string = λ v. (0, first_string v, rest v);
  dup_text_string = λ v. (0, first_string v, rest v);
  get_tag = λ v. (0, first_number v);
  get_simple_type = λ v. (0, first_number v);
  get_boolean = λ v. (0, first_flag v);
  get_half_float = λ v. (0, first_number v);
  get_float = λ v. (0, first_number v);
  get_double = λ v. (0, first_number v);
  advance_fixed = λ v. (0, rest v);
}

gets : (l : Leaf) (xs : Values) → Gets decoder (leaf l xs) l
gets (int_leaf n) xs = refl
gets (bytes_leaf bs) xs = (refl, refl)
gets (text_leaf bs) xs = (refl, refl)
gets (tag_leaf n) xs = refl
gets (simple_leaf n) xs = refl
gets null_leaf xs = tt
gets undefined_leaf xs = tt
gets (boolean_leaf b) xs = refl
gets (half_leaf n) xs = refl
gets (float_leaf n) xs = refl
gets (double_leaf n) xs = refl

passes : (l : Leaf) (xs : Values) → Passes decoder (leaf l xs) l
passes (int_leaf n) xs = refl
passes (bytes_leaf bs) xs = tt
passes (text_leaf bs) xs = tt
passes (tag_leaf n) xs = refl
passes (simple_leaf n) xs = refl
passes null_leaf xs = refl
passes undefined_leaf xs = refl
passes (boolean_leaf b) xs = refl
passes (half_leaf n) xs = refl
passes (float_leaf n) xs = refl
passes (double_leaf n) xs = refl

behind_is : (l : Leaf) (xs : Values) → behind decoder (leaf l xs) l ≡ xs
behind_is (int_leaf n) xs = refl
behind_is (bytes_leaf bs) xs = refl
behind_is (text_leaf bs) xs = refl
behind_is (tag_leaf n) xs = refl
behind_is (simple_leaf n) xs = refl
behind_is null_leaf xs = refl
behind_is undefined_leaf xs = refl
behind_is (boolean_leaf b) xs = refl
behind_is (half_leaf n) xs = refl
behind_is (float_leaf n) xs = refl
behind_is (double_leaf n) xs = refl

abbrev decoder_laws : Laws decoder
decoder_laws = record {
  At = λ o v xs. v ≡ xs;
  at_end = λ o v h. rw h;
  at_leaf = λ o v l xs h. rw h (refl, refl, gets l xs, passes l xs, behind_is l xs);
  at_nest = λ o v b ys xs h. rw h (refl, refl, refl, refl);
  leave = λ o v r b ys xs h k. rw h (refl, refl);
}

abbrev format : Format
format = record {
  int_text = λ hex n. (48 + n) ∷ [];
  float_text = λ n. [];
  double_text = λ n. [];
  size_text = λ bs. [];
}

-- Array[ 'A' 7,]Map{ null 8,}
cbor_dump-print_example :
    cbor_dump format decoder 9 []
    ≡ some (
        65 ∷ 114 ∷ 114 ∷ 97 ∷ 121 ∷ 91 ∷ 32 ∷ 39 ∷ 65 ∷ 39 ∷ 32 ∷ 55 ∷ 44 ∷ 93 ∷ 77 ∷ 97 ∷ 112 ∷ 123
        ∷ 32 ∷ 110 ∷ 117 ∷ 108 ∷ 108 ∷ 32 ∷ 56 ∷ 44 ∷ 125 ∷ [])
unfolding turns print put_leaf put indent put_int put_text put_null Deserializer.c_string
cbor_dump-print_example = cbor_dump-print format decoder decoder_laws 9 [] sample refl (omega arith)

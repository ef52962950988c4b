-- ===== src/Cbor/Tests.antt =====
-- A small encoding that obeys the laws of TinyCBOR: a tag, and a number or a string with its length.
use zenoh_proxy.Prelude.{
  ℕ, Bool, false, List, [], ◌∷◌, ◌++◌, ◌==◌, ◌&&◌, ltb, lt→ltb, ◌≡◌, refl, arith, length, take,
  drop, append_assoc, append-nil, length-append, ap,
}
use zenoh_proxy.Cbor.{TinyCbor, Item, int, text, bin}
use zenoh_proxy.Cbor.Laws.{Laws}
use zenoh_proxy.Cbor.Messages.{MsgSubscriber, base_from_bytes}
use zenoh_proxy.Cbor.Kinds.{
  a_subscriber, message_to_bytes, message_from_bytes, Gives, message_from_bytes-message_to_bytes,
}

abbrev pub item_bytes : Item → List ℕ
item_bytes (int n) = 0 ∷ n ∷ []
item_bytes (text bs) = 1 ∷ length bs ∷ bs
item_bytes (bin bs) = 2 ∷ length bs ∷ bs

abbrev pub array_bytes : List Item → List ℕ
array_bytes [] = []
array_bytes (x ∷ xs) = item_bytes x ++ array_bytes xs

abbrev pub has_tag : ℕ → List ℕ → Bool
has_tag n [] = false
has_tag n (tag ∷ bs) = tag == n

abbrev pub value_of : List ℕ → ℕ
value_of [] = 0
value_of (tag ∷ []) = 0
value_of (tag ∷ n ∷ bs) = n

abbrev pub string_of : List ℕ → List ℕ
string_of [] = []
string_of (tag ∷ []) = []
string_of (tag ∷ n ∷ bs) = take n bs

abbrev pub past_two : List ℕ → List ℕ
past_two [] = []
past_two (tag ∷ []) = []
past_two (tag ∷ n ∷ bs) = bs

abbrev pub past_string : List ℕ → List ℕ
past_string [] = []
past_string (tag ∷ []) = []
past_string (tag ∷ n ∷ bs) = drop n bs

abbrev pub tagged : TinyCbor
tagged = record {
  Encoder = List ℕ;
  encoder_init = λ c. [];
  create_array = λ e. (0, e);
  encode_int = λ e n. (0, e ++ item_bytes (int n));
  encode_uint = λ e n. (0, e ++ item_bytes (int n));
  encode_int64 = λ e n. (0, e);
  encode_double = λ e n. (0, e);
  encode_text_string = λ e bs. (0, e ++ item_bytes (text bs));
  encode_byte_string = λ e bs. (0, e ++ item_bytes (bin bs));
  close_container = λ e. (0, e);
  get_buffer = λ e. e;
  Value = List ℕ;
  parser_init = λ bs. (0, bs);
  enter_container = λ v. (0, v);
  is_integer = has_tag 0;
  get_int = λ v. (0, value_of v);
  is_unsigned_integer = λ v. has_tag 0 v && ltb (value_of v) 0x8000_0000;
  get_uint64 = λ v. (0, value_of v);
  advance_fixed = λ v. (0, past_two v);
  is_text_string = has_tag 1;
  dup_text_string = λ v. (0, string_of v);
  is_byte_string = has_tag 2;
  calculate_string_length = λ v. 0;
  dup_byte_string = λ v. (0, string_of v);
  advance = λ v. (0, past_string v);
}

pub array_bytes-append :
    (xs ys : List Item) → array_bytes (xs ++ ys) ≡ array_bytes xs ++ array_bytes ys
array_bytes-append [] ys = refl
array_bytes-append (x ∷ xs) ys =
    rw (array_bytes-append xs ys, append_assoc (item_bytes x) (array_bytes xs) (array_bytes ys))

pub array_bytes-one :
    (e : List ℕ) (xs : List Item) (x : Item)
    → e ≡ array_bytes xs
    → e ++ item_bytes x ≡ array_bytes (xs ++ x ∷ [])
array_bytes-one e xs x h = rw (array_bytes-append xs (x ∷ []), append-nil (item_bytes x), h)

pub take-front : (bs rest : List ℕ) → take (length bs) (bs ++ rest) ≡ bs
take-front [] rest = refl
take-front (b ∷ bs) rest = rw (take-front bs rest)

pub drop-front : (bs rest : List ℕ) → drop (length bs) (bs ++ rest) ≡ rest
drop-front [] rest = refl
drop-front (b ∷ bs) rest = drop-front bs rest

abbrev pub tagged_laws : Laws tagged
tagged_laws = record {
  Holds = λ c e xs. e ≡ array_bytes xs;
  At = λ v xs. v ≡ array_bytes xs;
  size = λ xs. length (array_bytes xs);
  size_append = λ xs ys.
      rw (array_bytes-append xs ys)
        (omega (arith, length-append (array_bytes xs) (array_bytes ys)));
  holds_nothing = λ c h. refl;
  holds_int = λ c e xs n h room. array_bytes-one e xs (int n) h;
  holds_text = λ c e xs bs h room. array_bytes-one e xs (text bs) h;
  holds_bytes = λ c e xs bs h room. array_bytes-one e xs (bin bs) h;
  parse = λ c e xs h room. (ap length h, refl, h);
  at_int = λ v n xs h. rw h (refl, refl, refl, refl);
  at_natural = λ v n xs h small. rw h (lt→ltb n 0x8000_0000 small, refl);
  at_text = λ v bs xs h.
      rw (h, take-front bs (array_bytes xs), drop-front bs (array_bytes xs))
        (refl, refl, refl, refl);
  at_bytes = λ v bs xs h.
      rw (h, take-front bs (array_bytes xs), drop-front bs (array_bytes xs))
        (refl, refl, refl, refl, refl);
}

abbrev sample_subscriber : MsgSubscriber
sample_subscriber = record { id = 3; topic = 115 ∷ 47 ∷ 42 ∷ [] }

message_from_bytes-message_to_bytes_example :
    Gives tagged
      (base_from_bytes tagged 1024 (message_to_bytes tagged a_subscriber 100 sample_subscriber) 9)
      2
    × Gives tagged
        (message_from_bytes tagged a_subscriber 1024
          (message_to_bytes tagged a_subscriber 100 sample_subscriber)
          (record { id = 7; topic = [] }))
        sample_subscriber
message_from_bytes-message_to_bytes_example =
    message_from_bytes-message_to_bytes tagged tagged_laws a_subscriber 100 1024 9 sample_subscriber
      (record { id = 7; topic = [] }) (omega arith, (omega arith, (omega arith, tt)))
      (omega arith, omega arith)

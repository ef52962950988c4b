-- ===== src/Cbor/Laws.antt =====
-- What the documentation of TinyCBOR says of the functions that the (de)serializer calls.
use zenoh_proxy.Prelude.{◌<◌, ℕ, true, List, [], ◌∷◌, ◌++◌, ◌≡◌, ◌≤◌, length}
use zenoh_proxy.Cbor.{length, TinyCbor, Item, int, text, bin}

module _ (t : TinyCbor) where
  -- `Holds c e xs`: the encoder, with a buffer of `c` bytes, is inside an array, behind the items xs.
  -- `At v xs`: the iterator is inside an array, before the items xs. `size xs` is the number of bytes
  -- of an array of the items.
  pub record Laws : Type 1 where
    pub Holds : ℕ → t.Encoder → List Item → Type 0
    pub At : t.Value → List Item → Type 0
    pub size : List Item → ℕ
    pub size_append : (xs ys : List Item) → size xs ≤ size (xs ++ ys)
    pub holds_nothing : (c : ℕ) → size [] ≤ c → Holds c (t.create_array (t.encoder_init c)).1 []
    pub holds_int :
        (c : ℕ) (e : t.Encoder) (xs : List Item) (n : ℕ)
        → Holds c e xs
        → size (xs ++ int n ∷ []) ≤ c
        → Holds c (t.encode_int e n).1 (xs ++ int n ∷ [])
    pub holds_text :
        (c : ℕ) (e : t.Encoder) (xs : List Item) (bs : List ℕ)
        → Holds c e xs
        → size (xs ++ text bs ∷ []) ≤ c
        → Holds c (t.encode_text_string e bs).1 (xs ++ text bs ∷ [])
    pub holds_bytes :
        (c : ℕ) (e : t.Encoder) (xs : List Item) (bs : List ℕ)
        → Holds c e xs
        → size (xs ++ bin bs ∷ []) ≤ c
        → Holds c (t.encode_byte_string e bs).1 (xs ++ bin bs ∷ [])
    -- The array that is closed can be parsed.
    pub parse :
        (c : ℕ) (e : t.Encoder) (xs : List Item)
        → Holds c e xs
        → size xs ≤ c
        → let bs = t.get_buffer (t.close_container e).1 in
          let r = t.enter_container (t.parser_init bs).1 in
          (length bs ≡ size xs) × (r.0 ≡ 0) × At r.1 xs
    -- An item of a type can be got, and passed.
    pub at_int :
        (v : t.Value) (n : ℕ) (xs : List Item)
        → At v (int n ∷ xs)
        → (t.is_integer v ≡ true)
          × ((t.get_int v).1 ≡ n)
          × ((t.advance_fixed v).0 ≡ 0)
          × At (t.advance_fixed v).1 xs
    -- An int that is not negative, by its 32-bit pattern, is an unsigned integer as well.
    pub at_natural :
        (v : t.Value) (n : ℕ) (xs : List Item)
        → At v (int n ∷ xs)
        → n < 0x8000_0000
        → (t.is_unsigned_integer v ≡ true) × ((t.get_uint64 v).1 ≡ n)
    pub at_text :
        (v : t.Value) (bs : List ℕ) (xs : List Item)
        → At v (text bs ∷ xs)
        → (t.is_text_string v ≡ true)
          × ((t.dup_text_string v).1 ≡ bs)
          × ((t.advance v).0 ≡ 0)
          × At (t.advance v).1 xs
    pub at_bytes :
        (v : t.Value) (bs : List ℕ) (xs : List Item)
        → At v (bin bs ∷ xs)
        → (t.is_byte_string v ≡ true)
          × (t.calculate_string_length v ≡ 0)
          × ((t.dup_byte_string v).1 ≡ bs)
          × ((t.advance v).0 ≡ 0)
          × At (t.advance v).1 xs

-- ===== src/Text/Dumped.antt =====
-- What the texts of common/util.cpp tell of the bytes.
use zenoh_proxy.Prelude.{
  ℕ, ◌+◌, ◌-◌, ◌*◌, ◌/◌, ◌%◌, ◌≡◌, ◌<◌, refl, List, [], ◌∷◌, ltb, if◌then◌else◌, arith, IsBytes,
  length,
}
use zenoh_proxy.Text.{hex_digit, hex_loop, char_dump}

-- The value of a digit.
unfoldable pub digit_value : ℕ → ℕ
digit_value c = if ltb c 58 then c - 48 else c - 55

digit_value-hex_digit : (n : ℕ) → n < 16 → digit_value (hex_digit n) ≡ n
unfolding digit_value hex_digit
digit_value-hex_digit n h = ground (arith, h)

-- The bytes of a text of pairs of digits, each with one more character behind it.
unfoldable pub read_hex : List ℕ → List ℕ
read_hex [] = []
read_hex (a ∷ []) = []
read_hex (a ∷ b ∷ []) = []
read_hex (a ∷ b ∷ c ∷ cs) = (digit_value a * 16 + digit_value b) ∷ read_hex cs

-- The bytes can be read off their text with a spacer of one character.
pub read_hex-hex_loop : (c : ℕ) (bs : List ℕ) → IsBytes bs → read_hex (hex_loop (c ∷ []) bs) ≡ bs
unfolding read_hex hex_loop
read_hex-hex_loop c [] h = refl
read_hex-hex_loop c (b ∷ bs) h =
    let high = digit_value-hex_digit (b / 16) (omega (arith, h.0)) in
    let low = digit_value-hex_digit (b % 16) (omega arith) in
    let whole : b / 16 * 16 + b % 16 ≡ b = omega arith in
    rw (high, low, read_hex-hex_loop c bs h.1, whole)

-- One character for each byte.
pub length-char_dump : (bs : List ℕ) → length (char_dump bs) ≡ length bs
unfolding char_dump
length-char_dump [] = refl
length-char_dump (b ∷ bs) = rw (length-char_dump bs)

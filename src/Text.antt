-- ===== src/Text.antt =====
-- common/util.cpp and util.h: the texts for the log, and the hash of a string. `string_format` of the
-- log library is a parameter: the text of a size in brackets.
pub mod Dumped
use zenoh_proxy.Prelude.{
  ℕ, ◌+◌, ◌*◌, ◌/◌, ◌%◌, Bool, List, [], ◌∷◌, ◌++◌, ltb, leb, if◌then◌else◌, ◌&&◌, bit_xor,
}

-- "0123456789ABCDEF"
unfoldable pub hex_digit : ℕ → ℕ
hex_digit n = if ltb n 10 then 48 + n else 55 + n

unfoldable pub hex_loop : List ℕ → List ℕ → List ℕ
hex_loop spacer [] = []
hex_loop spacer (b ∷ bs) = hex_digit (b / 16) ∷ hex_digit (b % 16) ∷ spacer ++ hex_loop spacer bs

unfoldable pub hex_dump : (List ℕ → List ℕ) → List ℕ → List ℕ → List ℕ
hex_dump size_text spacer bs = size_text bs ++ hex_loop spacer bs

-- `isprint`
abbrev pub is_print : ℕ → Bool
is_print b = leb 32 b && ltb b 127

unfoldable pub char_dump : List ℕ → List ℕ
char_dump [] = []
char_dump (b ∷ bs) = (if is_print b then b else 46) ∷ char_dump bs

-- `fnv1` on the characters in front of the zero byte; a `char` is signed.
unfoldable pub widen : ℕ → ℕ
widen c = if ltb c 128 then c else c + 0xffff_ff00

unfoldable pub fnv1 : ℕ → List ℕ → ℕ
fnv1 h [] = h
fnv1 h (c ∷ s) = fnv1 (bit_xor (h * 0x100_0193 % 0x1_0000_0000) (widen c)) s

-- ===== src/Fcs/Reference.antt =====
-- The table-driven step of `Fcs` against the bitwise CRC-16 of RFC 1662: polynomial 0x8408, lowest
-- bit first, one shift for each bit.
use zenoh_proxy.Prelude.{
  ℕ, zero, suc, ◌+◌, ◌*◌, ◌/◌, ◌%◌, ◌<◌, bit_xor, ◌≡◌, refl, sym, ap, ◌∙◌, true, arith, ◌==◌,
  ==_iff,
}
use zenoh_proxy.Prelude.Bits.{
  passes_below, passes_at, bit_xor_comm, bit_xor_assoc, half_bit_xor, parity_bit_xor, bit_xor_join,
  bit_xor-lt,
}
use zenoh_proxy.Fcs.{table_at, write}

-- The polynomial goes in when the bit that is shifted out is set.
abbrev pub feedback : ℕ → ℕ
feedback zero = 0
feedback (suc n) = 0x8408

-- One bit of the shift register.
unfoldable pub shift_bit : ℕ → ℕ
shift_bit r = bit_xor (r / 2) (feedback (r % 2))

unfoldable pub shift_bits : ℕ → ℕ → ℕ
shift_bits zero r = r
shift_bits (suc n) r = shift_bits n (shift_bit r)

-- One byte, bit by bit.
unfoldable pub crc_byte : ℕ → ℕ → ℕ
crc_byte r b = shift_bits 8 (bit_xor r b)

-- The 256 entries of the table are the shifted bytes.
table_is_shift : passes_below 256 (λ i. table_at i == shift_bits 8 i) ≡ true
unfolding passes_below table_at shift_bits shift_bit
table_is_shift = refl

pub table_at-shift_bits : (i : ℕ) → i < 256 → table_at i ≡ shift_bits 8 i
table_at-shift_bits i h = (==_iff _ _).0 (passes_at 256 _ table_is_shift i h)

-- Eight shifts move the high byte down.
high_byte : passes_below 256 (λ h. shift_bits 8 (h * 256) == h) ≡ true
unfolding passes_below shift_bits shift_bit
high_byte = refl

shift_bits-high : (h : ℕ) → h < 256 → shift_bits 8 (h * 256) ≡ h
shift_bits-high h p = (==_iff _ _).0 (passes_at 256 _ high_byte h p)

feedback-xor :
    (x y : ℕ) → x < 2 → y < 2 → feedback ((x + y) % 2) ≡ bit_xor (feedback x) (feedback y)
feedback-xor zero zero p q = refl
feedback-xor zero (suc zero) p q = refl
feedback-xor (suc zero) zero p q = refl
feedback-xor (suc zero) (suc zero) p q = refl
feedback-xor zero (suc (suc y)) p q = absurd (omega arith)
feedback-xor (suc zero) (suc (suc y)) p q = absurd (omega arith)
feedback-xor (suc (suc x)) y p q = absurd (omega arith)

xor_swap : (a b c d : ℕ) → bit_xor (bit_xor a b) (bit_xor c d) ≡ bit_xor (bit_xor a c) (bit_xor b d)
xor_swap a b c d = rw (
  bit_xor_assoc a b (bit_xor c d),
  ← bit_xor_assoc b c d,
  bit_xor_comm b c,
  bit_xor_assoc c b d,
  ← bit_xor_assoc a c (bit_xor b d),
)

-- The register is linear over exclusive or.
pub shift_bit-xor : (a b : ℕ) → shift_bit (bit_xor a b) ≡ bit_xor (shift_bit a) (shift_bit b)
unfolding shift_bit
shift_bit-xor a b =
    rw
      (
        half_bit_xor a b,
        parity_bit_xor a b,
        feedback-xor (a % 2) (b % 2) (omega arith) (omega arith),
      )
      (xor_swap (a / 2) (b / 2) (feedback (a % 2)) (feedback (b % 2)))

shift_bits-xor :
    (n a b : ℕ) → shift_bits n (bit_xor a b) ≡ bit_xor (shift_bits n a) (shift_bits n b)
unfolding shift_bits
shift_bits-xor zero a b = refl
shift_bits-xor (suc n) a b = rw (shift_bit-xor a b) (shift_bits-xor n (shift_bit a) (shift_bit b))

-- The byte meets the low half of the register only.
split_register : (r b : ℕ) → bit_xor r b ≡ bit_xor (r / 256 * 256) (bit_xor (r % 256) b)
split_register r b =
    let word : r / 256 * 256 + r % 256 ≡ r = omega arith in
    ap (λ (x : ℕ). bit_xor x b) (sym (bit_xor_join (r / 256) (r % 256) (omega arith) ∙ word))
    ∙ bit_xor_assoc (r / 256 * 256) (r % 256) b

-- The table-driven `Fcs::write` is the bitwise CRC of RFC 1662, for every register and byte.
pub write-crc_byte : (r b : ℕ) → r < 65536 → b < 256 → write r b ≡ crc_byte r b
unfolding write crc_byte
write-crc_byte r b hr hb = rw (
  split_register r b,
  shift_bits-xor 8 (r / 256 * 256) (bit_xor (r % 256) b),
  shift_bits-high (r / 256) (omega arith),
  table_at-shift_bits (bit_xor (r % 256) b) (bit_xor-lt (r % 256) b (omega arith) hb),
)

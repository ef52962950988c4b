-- ===== src/Fcs/Detect.antt =====
-- What the check sequence catches: two runs that differ in one byte end in different registers.
use zenoh_proxy.Prelude.{
  ℕ, zero, suc, ◌/◌, ◌%◌, ◌<◌, bit_xor, ◌≡◌, ◌≢◌, refl, sym, ◌∙◌, List, [], ◌∷◌, ◌++◌, IsBytes,
  arith,
}
use zenoh_proxy.Prelude.Bits.{bit_xor_comm, bit_xor_cancel, bit_xor-lt_word, bit_xor_self}
use zenoh_proxy.Fcs.{write, write_all}
use zenoh_proxy.Fcs.Reference.{
  feedback, shift_bit, shift_bits, crc_byte, shift_bit-xor, write-crc_byte,
}
use zenoh_proxy.Fcs.Residue.{write-lt, write_all-append, write_all-lt}

top_bit : (h d : ℕ) → h < 32768 → d < 2 → h ≡ feedback d → (h ≡ 0) × (d ≡ 0)
top_bit h zero p q e = (e, refl)
top_bit h (suc d) p q e = absurd (omega arith)

feedback-lt : (d : ℕ) → feedback d < 65536
feedback-lt zero = omega arith
feedback-lt (suc d) = omega arith

-- A register that shifts to 0 was 0: the polynomial has its top bit set.
shift_bit-eq-zero : (x : ℕ) → x < 65536 → shift_bit x ≡ 0 → x ≡ 0
unfolding shift_bit
shift_bit-eq-zero x p e =
    let eq : x / 2 ≡ feedback (x % 2) =
      bit_xor_cancel (x / 2) (feedback (x % 2)) (feedback (x % 2))
        (e ∙ sym (bit_xor_self (feedback (x % 2)))) in
    omega (arith, top_bit (x / 2) (x % 2) (omega arith) (omega arith) eq)

shift_bit_injective : (a b : ℕ) → a < 65536 → b < 65536 → shift_bit a ≡ shift_bit b → a ≡ b
shift_bit_injective a b p q e = bit_xor_cancel a b b (
    shift_bit-eq-zero (bit_xor a b) (bit_xor-lt_word a b p q)
      (shift_bit-xor a b ∙ rw e (bit_xor_self (shift_bit b)))
    ∙ sym (bit_xor_self b))

shift_bit-lt : (x : ℕ) → x < 65536 → shift_bit x < 65536
unfolding shift_bit
shift_bit-lt x p = bit_xor-lt_word (x / 2) (feedback (x % 2)) (omega arith) (feedback-lt (x % 2))

shift_bits_injective : (n a b : ℕ) → a < 65536 → b < 65536 → shift_bits n a ≡ shift_bits n b → a ≡ b
unfolding shift_bits
shift_bits_injective zero a b p q e = e
shift_bits_injective (suc n) a b p q e =
    shift_bit_injective a b p q
      (shift_bits_injective n (shift_bit a) (shift_bit b) (shift_bit-lt a p) (shift_bit-lt b q) e)

-- For one byte, different registers stay different.
pub write_injective_register :
    (r s b : ℕ) → r < 65536 → s < 65536 → b < 256 → write r b ≡ write s b → r ≡ s
unfolding crc_byte
write_injective_register r s b p q h e = bit_xor_cancel r s b (
    shift_bits_injective 8 (bit_xor r b) (bit_xor s b) (bit_xor-lt_word r b p (omega arith))
      (bit_xor-lt_word s b q (omega arith))
      (sym (write-crc_byte r b p h) ∙ e ∙ write-crc_byte s b q h))

-- From one register, different bytes lead to different registers.
pub write_injective_byte :
    (r b c : ℕ) → r < 65536 → b < 256 → c < 256 → write r b ≡ write r c → b ≡ c
unfolding crc_byte
write_injective_byte r b c p hb hc e = bit_xor_cancel b c r (
    bit_xor_comm b r
    ∙ shift_bits_injective 8 (bit_xor r b) (bit_xor r c) (bit_xor-lt_word r b p (omega arith))
        (bit_xor-lt_word r c p (omega arith))
        (sym (write-crc_byte r b p hb) ∙ e ∙ write-crc_byte r c p hc)
    ∙ bit_xor_comm r c)

write_all_injective :
    (r s : ℕ) (bs : List ℕ)
    → r < 65536
    → s < 65536
    → IsBytes bs
    → write_all r bs ≡ write_all s bs
    → r ≡ s
unfolding write_all
write_all_injective r s [] p q h e = e
write_all_injective r s (b ∷ bs) p q h e =
    write_injective_register r s b p q h.0 (
      write_all_injective (write r b) (write s b) bs (write-lt r b p h.0) (write-lt s b q h.0) h.1
        e)

-- Changing one byte of a run, at any place, changes the register at the end.
pub write_all-changed_byte :
    (r : ℕ) (before : List ℕ) (b c : ℕ) (after : List ℕ)
    → r < 65536
    → IsBytes before
    → b < 256
    → c < 256
    → IsBytes after
    → b ≢ c
    → write_all r (before ++ b ∷ after) ≢ write_all r (before ++ c ∷ after)
unfolding write_all
write_all-changed_byte r before b c after p hx hb hc hy ne e =
    let s : ℕ = write_all r before in
    let s_word : s < 65536 = write_all-lt r before p hx in
    ne (
      write_injective_byte s b c s_word hb hc (
        write_all_injective (write s b) (write s c) after (write-lt s b s_word hb)
          (write-lt s c s_word hc) hy
          (sym (write_all-append r before (b ∷ after))
            ∙ e
            ∙ write_all-append r before (c ∷ after))))

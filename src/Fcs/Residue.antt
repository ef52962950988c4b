-- ===== src/Fcs/Residue.antt =====
-- The register at the end of a frame: the payload followed by its own check sequence leaves 0xF0B8,
-- whose complement is the 0x0F47 that `ppp_deframe` tests for.
use zenoh_proxy.Prelude.{
  subst, ℕ, ◌+◌, ◌-◌, ◌*◌, ◌/◌, ◌%◌, ◌<◌, bit_xor, ◌≡◌, refl, sym, true, List, [], ◌∷◌, ◌++◌,
  IsBytes, arith, ◌==◌, ==_iff,
}
use zenoh_proxy.Prelude.Bits.{passes_below, passes_at, bit_xor-lt, bit_xor-lt_word}
use zenoh_proxy.Fcs.{table_at, write, result, write_all, fcs_start}

abbrev pub fcs_good : ℕ
fcs_good = 0xf0b8

-- `fcs.result() & 0xFF` and `fcs.result() >> 8`.
abbrev pub fcs_bytes : ℕ → List ℕ
fcs_bytes fcs = result fcs % 256 ∷ result fcs / 256 ∷ []

table_at_range : passes_below 256 (λ i. table_at i / 65536 == 0) ≡ true
unfolding passes_below table_at
table_at_range = refl

table_at-lt : (i : ℕ) → i < 256 → table_at i < 65536
table_at-lt i h =
    omega (arith, (==_iff _ _).0 (passes_at 256 (λ k. table_at k / 65536 == 0) table_at_range i h))

-- The register stays a 16-bit word.
pub write-lt : (r b : ℕ) → r < 65536 → b < 256 → write r b < 65536
unfolding write
write-lt r b p q =
    bit_xor-lt_word (r / 256) (table_at (bit_xor (r % 256) b)) (omega arith)
      (table_at-lt (bit_xor (r % 256) b) (bit_xor-lt (r % 256) b (omega arith) q))

pub write_all-lt : (r : ℕ) (bs : List ℕ) → r < 65536 → IsBytes bs → write_all r bs < 65536
unfolding write_all
write_all-lt r [] p q = p
write_all-lt r (b ∷ bs) p q = write_all-lt (write r b) bs (write-lt r b p q.0) q.1

pub write_all-append :
    (r : ℕ) (xs ys : List ℕ) → write_all r (xs ++ ys) ≡ write_all (write_all r xs) ys
unfolding write_all
write_all-append r [] ys = refl
write_all-append r (x ∷ xs) ys = write_all-append (write r x) xs ys

-- Both check bytes cancel what the payload left: all 256 values of each half are evaluated.
low_cancels : passes_below 256 (λ l. bit_xor l (255 - l) == 255) ≡ true
unfolding passes_below
low_cancels = refl

high_meets : passes_below 256 (λ h. bit_xor (bit_xor h 0x0f78 % 256) (255 - h) == 0x87) ≡ true
unfolding passes_below
high_meets = refl

high_left : passes_below 256 (λ h. bit_xor h 0x0f78 / 256 == 0x0f) ≡ true
unfolding passes_below
high_left = refl

residue_halves :
    (h l : ℕ) → h < 256 → l < 256 → write (write (h * 256 + l) (255 - l)) (255 - h) ≡ fcs_good
unfolding write table_at
residue_halves h l p q =
    let top : (h * 256 + l) / 256 ≡ h = omega arith in
    let low : (h * 256 + l) % 256 ≡ l = omega arith in
    rw (
      top,
      low,
      (==_iff _ _).0 (passes_at 256 (λ k. bit_xor k (255 - k) == 255) low_cancels l q),
      (==_iff _ _).0
          (passes_at 256 (λ k. bit_xor (bit_xor k 0x0f78 % 256) (255 - k) == 0x87) high_meets h p),
      (==_iff _ _).0 (passes_at 256 (λ k. bit_xor k 0x0f78 / 256 == 0x0f) high_left h p),
    )

-- After any payload register, the two check bytes leave the good residue.
pub write_all-fcs_bytes : (r : ℕ) → r < 65536 → write_all r (fcs_bytes r) ≡ fcs_good
unfolding write_all result
write_all-fcs_bytes r p =
    let low : (0xffff - r) % 256 ≡ 255 - r % 256 = omega arith in
    let high : (0xffff - r) / 256 ≡ 255 - r / 256 = omega arith in
    let word : r ≡ r / 256 * 256 + r % 256 = omega arith in
    rw (low, high)
      (subst (λ w. write (write w (255 - r % 256)) (255 - r / 256) ≡ fcs_good) (sym word)
        (residue_halves (r / 256) (r % 256) (omega arith) (omega arith)))

-- A payload with its check sequence behind it passes the test of `ppp_deframe`.
pub result-payload :
    (payload : List ℕ)
    → IsBytes payload
    → result (write_all fcs_start (payload ++ fcs_bytes (write_all fcs_start payload))) ≡ 0x0f47
unfolding result
result-payload payload h = rw (
  write_all-append fcs_start payload (fcs_bytes (write_all fcs_start payload)),
  write_all-fcs_bytes (write_all fcs_start payload)
      (write_all-lt fcs_start payload (omega arith) h),
)

-- ===== src/Prelude/Bits.antt =====
-- Exclusive or at every width: the law for the lowest digit, the group laws, and the split of a word
-- into two fields.
use Prim.Native.Nat.{
  ℕ, zero, suc, ◌+◌, ◌-◌, ◌*◌, ◌/◌, ◌%◌, ◌≤◌, ◌<◌, bit_xor, digits, differ, bit_xor-bitwise,
}
use native.Mathlib.Nat.{
  mul_comm, div-div-eq-div-mul, mod-eq-sub-div-mul, div-mul-le_self, div-one, mod-one,
}
use mathlib.Core.Path.{◌≡◌, refl, ap, sym, ◌∙◌}
use mathlib.Core.Bool.{Bool, true, ◌&&◌}
use native.Mathlib.Omega.{arith}

-- Whether a test passes at every number below a bound, by evaluation, and what that says.
unfoldable pub passes_below : ℕ → (ℕ → Bool) → Bool
passes_below zero test = true
passes_below (suc n) test = test n && passes_below n test

pub passes_at :
    (n : ℕ) (test : ℕ → Bool) → passes_below n test ≡ true → (k : ℕ) → k < n → test k ≡ true
unfolding passes_below
passes_at zero test all k h = absurd (omega arith)
passes_at (suc n) test all k h =
    ground (arith, λ (rest : passes_below n test ≡ true) (l : k < n). passes_at n test rest k l)

-- `digits` at fuel `n`.
abbrev xor_run : ℕ → ℕ → ℕ → ℕ
xor_run n a b = digits (λ low. low) differ n a b

one_more : (n a b : ℕ) → a ≤ n → xor_run (suc n) a b ≡ xor_run n a b
one_more zero zero b h = refl
one_more (suc n) zero b h = refl
one_more zero (suc a) b h = absurd (omega arith)
one_more (suc n) (suc a) b h = rw (one_more n (suc a / 2) (b / 2) (omega arith))

-- Fuel beyond the first number changes nothing.
surplus : (k n m a b : ℕ) → n + k ≡ m → a ≤ n → xor_run m a b ≡ xor_run n a b
surplus zero n m a b e h = ap (λ (f : ℕ). xor_run f a b) (omega arith)
surplus (suc k) n m a b e h = surplus k (suc n) m a b (omega arith) (omega arith) ∙ one_more n a b h

digit_xor : (x y : ℕ) → x < 2 → y < 2 → differ x y ≡ (x + y) % 2
digit_xor zero y hx hy = omega arith
digit_xor (suc zero) zero hx hy = refl
digit_xor (suc zero) (suc zero) hx hy = refl
digit_xor (suc zero) (suc (suc y)) hx hy = absurd (omega arith)
digit_xor (suc (suc x)) y hx hy = absurd (omega arith)

pub zero-bit_xor : (b : ℕ) → bit_xor 0 b ≡ b
zero-bit_xor b = bit_xor-bitwise 0 b

pub bit_xor_step : (a b : ℕ) → bit_xor a b ≡ bit_xor (a / 2) (b / 2) * 2 + (a % 2 + b % 2) % 2
bit_xor_step zero b = omega (arith, zero-bit_xor b, zero-bit_xor (b / 2))
bit_xor_step (suc a) b = omega (
  arith,
  bit_xor-bitwise (suc a) b,
  bit_xor-bitwise (suc a / 2) (b / 2),
  surplus (a - suc a / 2) (suc a / 2) a (suc a / 2) (b / 2) (omega arith) (omega arith),
  digit_xor (suc a % 2) (b % 2) (omega arith) (omega arith),
)

pub half_bit_xor : (a b : ℕ) → bit_xor a b / 2 ≡ bit_xor (a / 2) (b / 2)
half_bit_xor a b = omega (arith, bit_xor_step a b)

pub parity_bit_xor : (a b : ℕ) → bit_xor a b % 2 ≡ (a % 2 + b % 2) % 2
parity_bit_xor a b = omega (arith, bit_xor_step a b)

-- The induction of the laws below: halving ends at 0.

bit_xor_comm_fuel : (n a b : ℕ) → a ≤ n → b ≤ n → bit_xor a b ≡ bit_xor b a
bit_xor_comm_fuel zero zero zero p q = refl
bit_xor_comm_fuel zero (suc a) b p q = absurd (omega arith)
bit_xor_comm_fuel zero zero (suc b) p q = absurd (omega arith)
bit_xor_comm_fuel (suc n) a b p q = omega (
  arith,
  bit_xor_step a b,
  bit_xor_step b a,
  bit_xor_comm_fuel n (a / 2) (b / 2) (omega arith) (omega arith),
)

pub bit_xor_comm : (a b : ℕ) → bit_xor a b ≡ bit_xor b a
bit_xor_comm a b = bit_xor_comm_fuel (a + b) a b (omega arith) (omega arith)

pub bit_xor-zero : (a : ℕ) → bit_xor a 0 ≡ a
bit_xor-zero a = bit_xor_comm a 0 ∙ zero-bit_xor a

bit_xor_self_fuel : (n a : ℕ) → a ≤ n → bit_xor a a ≡ 0
bit_xor_self_fuel zero zero p = refl
bit_xor_self_fuel zero (suc a) p = absurd (omega arith)
bit_xor_self_fuel (suc n) a p =
    omega (arith, bit_xor_step a a, bit_xor_self_fuel n (a / 2) (omega arith))

pub bit_xor_self : (a : ℕ) → bit_xor a a ≡ 0
bit_xor_self a = bit_xor_self_fuel a a (omega arith)

bit_xor_assoc_fuel :
    (n a b c : ℕ) → a ≤ n → b ≤ n → c ≤ n → bit_xor (bit_xor a b) c ≡ bit_xor a (bit_xor b c)
bit_xor_assoc_fuel zero zero b c p q r = rw (zero-bit_xor b) (sym (zero-bit_xor (bit_xor b c)))
bit_xor_assoc_fuel zero (suc a) b c p q r = absurd (omega arith)
bit_xor_assoc_fuel (suc n) a b c p q r =
    rw
      (
        bit_xor_step (bit_xor a b) c,
        bit_xor_step a (bit_xor b c),
        half_bit_xor a b,
        half_bit_xor b c,
        parity_bit_xor a b,
        parity_bit_xor b c,
        bit_xor_assoc_fuel n (a / 2) (b / 2) (c / 2) (omega arith) (omega arith) (omega arith),
      )
      (omega arith)

pub bit_xor_assoc : (a b c : ℕ) → bit_xor (bit_xor a b) c ≡ bit_xor a (bit_xor b c)
bit_xor_assoc a b c = bit_xor_assoc_fuel (a + b + c) a b c (omega arith) (omega arith) (omega arith)

-- A mask applied twice is gone.
pub bit_xor_twice : (a b : ℕ) → bit_xor (bit_xor a b) b ≡ a
bit_xor_twice a b = rw (bit_xor_assoc a b b, bit_xor_self b) (bit_xor-zero a)

pub bit_xor_cancel : (a b c : ℕ) → bit_xor a c ≡ bit_xor b c → a ≡ b
bit_xor_cancel a b c e = sym (bit_xor_twice a c) ∙ (rw e refl) ∙ bit_xor_twice b c

-- A word in two fields, the low one below `m`: exclusive or works on each.
abbrev SplitsAt : ℕ → Type 0
SplitsAt m = (a b : ℕ) → bit_xor a b ≡ bit_xor (a / m) (b / m) * m + bit_xor (a % m) (b % m)

half_div : (a m : ℕ) → a / 2 / m ≡ a / (m * 2)
half_div a m = div-div-eq-div-mul a 2 m ∙ ap (λ (k : ℕ). a / k) (mul_comm 2 m)

half_mod : (a m : ℕ) → a % (m * 2) / 2 ≡ a / 2 % m
half_mod a m =
    rw (mod-eq-sub-div-mul a (m * 2), mod-eq-sub-div-mul (a / 2) m, half_div a m) (omega arith)

parity_mod : (a m : ℕ) → a % (m * 2) % 2 ≡ a % 2
parity_mod a m = rw (mod-eq-sub-div-mul a (m * 2)) (omega (arith, div-mul-le_self a (m * 2)))

SplitsAt-double : (m : ℕ) → SplitsAt m → SplitsAt (m * 2)
SplitsAt-double m fields a b =
    rw
      (
        bit_xor_step a b,
        bit_xor_step (a % (m * 2)) (b % (m * 2)),
        fields (a / 2) (b / 2),
        half_div a m,
        half_div b m,
        half_mod a m,
        half_mod b m,
        parity_mod a m,
        parity_mod b m,
      )
      (omega arith)

pub bit_xor_fields : SplitsAt 256
bit_xor_fields =
    let double = SplitsAt-double in
    double 128 (double 64 (double 32 (double 16 (double 8 (double 4 (double 2 (double 1 one)))))))
  where
    one : SplitsAt 1
    one a b = rw (div-one a, div-one b, mod-one a, mod-one b) (omega arith)

-- `(h << 8) ^ l` for a byte `l` is their sum.
pub bit_xor_join : (h l : ℕ) → l < 256 → bit_xor (h * 256) l ≡ h * 256 + l
bit_xor_join h l p =
    let high : h * 256 / 256 ≡ h = omega arith in
    let none_low : h * 256 % 256 ≡ 0 = omega arith in
    let none_high : l / 256 ≡ 0 = omega arith in
    let low : l % 256 ≡ l = omega arith in
    rw (bit_xor_fields (h * 256) l, high, none_low, none_high, low, bit_xor-zero h, zero-bit_xor l)

Below : ℕ → Type 0
Below m = (a b : ℕ) → a < m → b < m → bit_xor a b < m

Below-double : (m : ℕ) → Below m → Below (m * 2)
unfolding Below
Below-double m below a b p q =
    omega (arith, bit_xor_step a b, below (a / 2) (b / 2) (omega arith) (omega arith))

Below-one : Below 1
unfolding Below
Below-one zero zero p q = omega arith
Below-one zero (suc b) p q = absurd (omega arith)
Below-one (suc a) b p q = absurd (omega arith)

Below-byte : Below 256
Below-byte =
    let double = Below-double in
    double 128
      (double 64 (double 32 (double 16 (double 8 (double 4 (double 2 (double 1 Below-one)))))))

-- The exclusive or of two bytes is a byte, and of two 16-bit words such a word.
pub bit_xor-lt : (a b : ℕ) → a < 256 → b < 256 → bit_xor a b < 256
unfolding Below
bit_xor-lt = Below-byte

pub bit_xor-lt_word : (a b : ℕ) → a < 65536 → b < 65536 → bit_xor a b < 65536
unfolding Below
bit_xor-lt_word =
    let double = Below-double in
    double 32768 (
      double 16384 (
        double 8192 (double 4096 (double 2048 (double 1024 (double 512 (double 256 Below-byte)))))))

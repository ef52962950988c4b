-- ===== src/Sample/Decimal.antt =====
-- The text of "%d" for an int that is not negative: at most ten digits.
use zenoh_proxy.Prelude.{
  ℕ, zero, suc, ◌+◌, ◌/◌, ◌%◌, ◌≤◌, List, [], ◌∷◌, ◌++◌, ltb, if◌then◌else◌, length, length-append,
  arith, ◌≢◌, All, Bool-cases, inl, inr,
}

unfoldable pub digits_of : ℕ → ℕ → List ℕ
digits_of zero n = []
digits_of (suc fuel) n =
    let rest = digits_of fuel (n / 10) in
    if ltb n 10 then (48 + n) ∷ [] else rest ++ (48 + n % 10) ∷ []

unfoldable pub decimal : ℕ → List ℕ
decimal n = digits_of 10 n

digits_of-length : (fuel n : ℕ) → length (digits_of fuel n) ≤ fuel
unfolding digits_of
digits_of-length zero n = omega arith
digits_of-length (suc fuel) n = ground (
  arith,
  digits_of-length fuel (n / 10),
  length-append (digits_of fuel (n / 10)) ((48 + n % 10) ∷ []),
)

pub decimal-length : (n : ℕ) → length (decimal n) ≤ 10
unfolding decimal
decimal-length n = digits_of-length 10 n

-- All of two lists.
pub All-append {ℓ κ} :
    {A : Type ℓ} (P : A → Type κ) (xs ys : List A) → All P xs → All P ys → All P (xs ++ ys)
All-append P [] ys h k = k
All-append P (x ∷ xs) ys h k = (h.0, All-append P xs ys h.1 k)

-- The digits are characters.
digits_of-NoNul : (fuel n : ℕ) → All (λ b. b ≢ 0) (digits_of fuel n)
unfolding digits_of
digits_of-NoNul zero n = tt
digits_of-NoNul (suc fuel) n = elim (Bool-cases (ltb n 10)) [
  | inl one ↦ rw one (omega arith, tt)
  | inr more ↦ rw more (
      All-append (λ b. b ≢ 0) (digits_of fuel (n / 10)) ((48 + n % 10) ∷ [])
        (digits_of-NoNul fuel (n / 10)) (omega arith, tt))
]

pub decimal-NoNul : (n : ℕ) → All (λ b. b ≢ 0) (decimal n)
unfolding decimal
decimal-NoNul n = digits_of-NoNul 10 n

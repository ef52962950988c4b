-- ===== src/Serial/Rates.antt =====
-- The baud rates of src/serial.cpp. `symbol` gives the constant B<rate> of termios for a rate.
use zenoh_proxy.Prelude.{
  ap, ℕ, Bool, true, false, List, [], ◌∷◌, ◌==◌, if◌then◌else◌, ◌≡◌, refl, ==_iff, eq→==, ne→==,
  inl, inr, Bool-cases, arith,
}
use zenoh_proxy.Serial.{Serial}

module _ (symbol : ℕ → ℕ) where
  -- BAUDRATE_TABLE, by its rates: each stands beside its own constant.
  abbrev pub baudrate_table : List ℕ
  baudrate_table =
      50 ∷ 75 ∷ 110 ∷ 134 ∷ 150 ∷ 200 ∷ 300 ∷ 600 ∷ 1200 ∷ 1800 ∷ 2400 ∷ 4800 ∷ 9600 ∷ 19200 ∷ 38400
      ∷ 57600 ∷ 115200 ∷ 230400 ∷ 460800 ∷ 500000 ∷ 576000 ∷ 921600 ∷ 1000000 ∷ 1152000 ∷ 1500000
      ∷ 2000000 ∷ 2500000 ∷ 3000000 ∷ 3500000 ∷ 4000000 ∷ []

  pub symbol_loop : List ℕ → ℕ → ℕ
  symbol_loop [] br = symbol 115200
  symbol_loop (rate ∷ rates) br = if rate == br then symbol rate else symbol_loop rates br

  pub value_loop : List ℕ → ℕ → ℕ
  value_loop [] sym = 0
  value_loop (rate ∷ rates) sym = if symbol rate == sym then rate else value_loop rates sym

  pub baud_symbol : ℕ → ℕ
  baud_symbol = symbol_loop baudrate_table

  pub baud_to_value : ℕ → ℕ
  baud_to_value = value_loop baudrate_table

  -- `baudrate(br)` and `baudrate()`
  pub set_baudrate : ℕ → Serial → Serial
  set_baudrate br s = record s { baudrate = baud_symbol br }

  pub get_baudrate : Serial → ℕ
  get_baudrate s = baud_to_value s.baudrate

  -- Is the rate in the list?
  unfoldable pub listed : List ℕ → ℕ → Bool
  listed [] br = false
  listed (rate ∷ rates) br = if rate == br then true else listed rates br

  symbol_loop-listed :
      (rates : List ℕ) (br : ℕ)
      → symbol_loop rates br ≡ (if listed rates br then symbol br else symbol 115200)
  unfolding symbol_loop listed
  symbol_loop-listed [] br = refl
  symbol_loop-listed (rate ∷ rates) br = elim (Bool-cases (rate == br)) [
    | inl same ↦ rw (same, (==_iff rate br).0 same)
    | inr other ↦ rw (other, symbol_loop-listed rates br)
  ]

  listed-tail :
      (rate : ℕ) (rates : List ℕ) (r : ℕ) → listed rates r ≡ true → listed (rate ∷ rates) r ≡ true
  unfolding listed
  listed-tail rate rates r m = ground (arith, m)

  value_loop-symbol :
      (rates : List ℕ) (br : ℕ)
      → ((r : ℕ) → listed rates r ≡ true → symbol r ≡ symbol br → r ≡ br)
      → listed rates br ≡ true
      → value_loop rates (symbol br) ≡ br
  unfolding value_loop listed
  value_loop-symbol [] br h l = cc
  value_loop-symbol (rate ∷ rates) br h l = elim (Bool-cases (symbol rate == symbol br)) [
    | inl same ↦ rw same (h rate (rw (eq→== rate rate refl)) ((==_iff _ _).0 same))
    | inr other ↦
        let differs : (rate == br) ≡ false =
          ne→== rate br (λ e. cc (other, eq→== _ _ (ap symbol e))) in
        rw other
          (value_loop-symbol rates br (λ r m. h r (listed-tail rate rates r m)) (rw differs at l))
  ]

  -- If different rates of the table have different constants, `baudrate()` after `baudrate(br)` gives
  -- `br` for a rate of the table, and 115200 for any other.
  pub get_baudrate-set_baudrate :
      (br : ℕ) (s : Serial)
      → ((r r' : ℕ)
          → listed baudrate_table r ≡ true
          → listed baudrate_table r' ≡ true
          → symbol r ≡ symbol r'
          → r ≡ r')
      → get_baudrate (set_baudrate br s) ≡ (if listed baudrate_table br then br else 115200)
  unfolding get_baudrate set_baudrate baud_symbol baud_to_value
  get_baudrate-set_baudrate br s h = elim (Bool-cases (listed baudrate_table br)) [
    | inl known ↦
        rw (symbol_loop-listed baudrate_table br, known)
          (value_loop-symbol baudrate_table br (λ r m. h r br m known) known)
    | inr unknown ↦
        let default : listed baudrate_table 115200 ≡ true = unfold listed in refl in
        rw (symbol_loop-listed baudrate_table br, unknown)
          (value_loop-symbol baudrate_table 115200 (λ r m. h r 115200 m default) default)
  ]

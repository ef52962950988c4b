-- ===== src/Arduino/Drivers.antt =====
-- zenoh-arduino/src/Button.cpp and LedBlinker.cpp: the button behind its interrupt, and the led.
use zenoh_proxy.Prelude.{
  ℕ, ◌≡◌, Bool, true, false, Option, none, some, List, [], ◌∷◌, ◌++◌, ◌==◌, not, if◌then◌else◌,
  append-nil, ◌∙◌, sym, Bool-cases, inl, inr, append_assoc,
}

-- `Button`, with what it emits.
pub record Button : Type 0 where
  pub last_state : Bool
  pub emitted : List Bool

-- `b != _lastState`
unfoldable pub differs : Bool → Bool → Bool
differs true b = not b
differs false b = b

unfoldable pub new_value : Bool → Button → Button
new_value b s =
    if differs b s.last_state then record s { last_state = b; emitted = s.emitted ++ b ∷ [] } else s

-- `isrButton`, on the level of the pin, which a pressed button pulls down; without an object nothing
-- happens.
unfoldable pub isr_button : ℕ → Option Button → Option Button
isr_button level none = none
isr_button level (some s) = some (new_value (level == 0) s)

-- The readings of the successive interrupts.
unfoldable pub interrupts : List ℕ → Button → Button
interrupts [] s = s
interrupts (level ∷ levels) s = interrupts levels (new_value (level == 0) s)

-- `LedBlinker`, with what it writes to its pin.
pub record LedBlinker : Type 0 where
  pub on : ℕ
  pub interval : ℕ
  pub written : List ℕ

-- A tick of the timer writes the state and turns it round.
unfoldable pub on_blink : LedBlinker → LedBlinker
on_blink s = record s { written = s.written ++ s.on ∷ []; on = if s.on == 0 then 1 else 0 }

unfoldable pub blink_slow : Bool → LedBlinker → LedBlinker
blink_slow flag s = if flag then record s { interval = 500 } else record s { interval = 100 }

unfoldable pub init_led : LedBlinker → LedBlinker
init_led s = record s { written = s.written ++ 1 ∷ [] }

unfoldable pub set_delay : ℕ → LedBlinker → LedBlinker
set_delay d s = record s { interval = d }

new_value-differs :
    (b : Bool) (s : Button)
    → differs b s.last_state ≡ true
    → new_value b s ≡ record s { last_state = b; emitted = s.emitted ++ b ∷ [] }
unfolding new_value
new_value-differs b s e = rw e

new_value-same : (b : Bool) (s : Button) → differs b s.last_state ≡ false → new_value b s ≡ s
unfolding new_value
new_value-same b s e = rw e

-- Each value differs from the one before it.
abbrev pub Alternates : Bool → List Bool → Type 0
Alternates b [] = Unit
Alternates b (c ∷ cs) = (differs c b ≡ true) × Alternates c cs

-- Whatever the interrupts read, what they make the button emit alternates, from its state on.
pub interrupts-Alternates :
    (levels : List ℕ) (s : Button)
    → (new : List Bool) × ((interrupts levels s).emitted ≡ s.emitted ++ new)
      × Alternates s.last_state new
unfolding interrupts
interrupts-Alternates [] s = ([], sym (append-nil s.emitted), tt)
interrupts-Alternates (level ∷ levels) s =
    let b = level == 0 in
    elim (Bool-cases (differs b s.last_state)) [
      | inl e ↦
          let pressed : Button = record s { last_state = b; emitted = s.emitted ++ b ∷ [] } in
          let (new, emits, alternate) = interrupts-Alternates levels pressed in
          rw (interrupts, new_value-differs b s e)
            (b ∷ new, emits ∙ append_assoc s.emitted (b ∷ []) new, (e, alternate))
      | inr e ↦ rw (interrupts, new_value-same b s e) (interrupts-Alternates levels s)
    ]

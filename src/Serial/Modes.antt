-- ===== src/Serial/Modes.antt =====
-- The two control lines of src/serial.cpp: `wait`, `setBit`, `clrBit`, `modeRun` and `modeProgram`.
use zenoh_proxy.Prelude.{
  ◌∙◌, ℕ, Bool, true, false, List, [], ◌∷◌, ◌==◌, if◌then◌else◌, ◌≡◌, refl, arith, Bool-cases, inl,
  inr, ◌/◌, ◌%◌, ◌*◌, ◌&&◌,
}
use zenoh_proxy.Serial.{
  Serial, Call, Pin, dtr, rts, sys_nanosleep, ioctl_tiocmbis, ioctl_tiocmbic, Os, sys, rc_of,
}

-- A step that tells whether it has succeeded.
abbrev pub Step : Type 0
Step = Serial → Serial × Bool

-- `a && b`: `b` is run only if `a` has succeeded.
infixr 3 ◌then◌
abbrev pub ◌then◌ : Step → Step → Step
(a then b) s = if (a s).1 then b (a s).0 else ((a s).0, false)

module _ (os : Os) where
  unfoldable pub wait : ℕ → Step
  wait msec s =
      let c : Call = sys_nanosleep (msec / 1000) (msec * 1000000 % 0x1_0000_0000 % 1000000000) in
      (sys os c s, rc_of os c s == 0)

  unfoldable pub set_bit : Pin → Step
  set_bit pin s = let c : Call = ioctl_tiocmbis s.fd pin in (sys os c s, rc_of os c s == 0)

  unfoldable pub clr_bit : Pin → Step
  clr_bit pin s = let c : Call = ioctl_tiocmbic s.fd pin in (sys os c s, rc_of os c s == 0)

  unfoldable pub mode_run : Step
  unfolding wait set_bit clr_bit
  mode_run =
      wait 10
      then set_bit dtr
      then clr_bit rts
      then wait 10
      then set_bit rts
      then set_bit dtr
      then wait 10

  unfoldable pub mode_program : Step
  unfolding wait set_bit clr_bit
  mode_program =
      wait 10
      then set_bit dtr
      then clr_bit rts
      then wait 10
      then set_bit rts
      then clr_bit dtr
      then wait 10

  abbrev same_pin : Pin → Pin → Bool
  same_pin dtr dtr = true
  same_pin rts rts = true
  same_pin dtr rts = false
  same_pin rts dtr = false

  -- Whether a pin is up after the calls, if it was `up` before all of them: an `ioctl` that returns 0
  -- has set or cleared its pin.
  unfoldable pub level : Pin → Bool → List Call → Bool
  level p up [] = up
  level p up (ioctl_tiocmbis fd q ∷ cs) =
      if same_pin q p && ((os cs (ioctl_tiocmbis fd q)).rc == 0) then true else level p up cs
  level p up (ioctl_tiocmbic fd q ∷ cs) =
      if same_pin q p && ((os cs (ioctl_tiocmbic fd q)).rc == 0) then false else level p up cs
  level p up (c ∷ cs) = level p up cs

  then-true :
      (a b : Step) (s : Serial)
      → ((a then b) s).1 ≡ true
      → (t : Serial) × ((a then b) s ≡ b t) × ((b t).1 ≡ true)
  then-true a b s h = elim (Bool-cases (a s).1) [
    | inl ok ↦ rw ok ((a s).0, refl, rw ok at h)
    | inr failed ↦ cc (rw failed at h)
  ]

  abbrev Up : Bool → Bool → Serial → Type 0
  Up down up t = (level dtr up t.calls ≡ down) × (level rts up t.calls ≡ true)

  run_end :
      (s : Serial) (up : Bool)
      → ((set_bit rts then set_bit dtr then wait 10) s).1 ≡ true
      → Up true up ((set_bit rts then set_bit dtr then wait 10) s).0
  unfolding wait set_bit level
  run_end s up h = ground (arith, h)

  program_end :
      (s : Serial) (up : Bool)
      → ((set_bit rts then clr_bit dtr then wait 10) s).1 ≡ true
      → Up false up ((set_bit rts then clr_bit dtr then wait 10) s).0
  unfolding wait set_bit clr_bit level
  program_end s up h = ground (arith, h)

  -- The first four steps of both modes, with any end.
  after_reset :
      (end : Step) (s : Serial)
      → ((wait 10 then set_bit dtr then clr_bit rts then wait 10 then end) s).1 ≡ true
      → (t : Serial) × ((wait 10 then set_bit dtr then clr_bit rts then wait 10 then end) s ≡ end t)
        × ((end t).1 ≡ true)
  after_reset end s h =
      let (s₁, e₁, h₁) =
        then-true (wait 10) (set_bit dtr then clr_bit rts then wait 10 then end) s h in
      let (s₂, e₂, h₂) = then-true (set_bit dtr) (clr_bit rts then wait 10 then end) s₁ h₁ in
      let (s₃, e₃, h₃) = then-true (clr_bit rts) (wait 10 then end) s₂ h₂ in
      let (s₄, e₄, h₄) = then-true (wait 10) end s₃ h₃ in (s₄, e₁ ∙ e₂ ∙ e₃ ∙ e₄, h₄)

  -- If `modeRun` returns true, both pins are up at the end, whatever they were before: the table in
  -- the source calls this RUN.
  pub mode_run-level :
      (s : Serial) (up : Bool)
      → (mode_run s).1 ≡ true
      → (level dtr up (mode_run s).0.calls ≡ true) × (level rts up (mode_run s).0.calls ≡ true)
  unfolding mode_run
  mode_run-level s up h =
      let (t, e, ok) = after_reset (set_bit rts then set_bit dtr then wait 10) s h in
      rw e (run_end t up ok)

  -- If `modeProgram` returns true, RTS is up and DTR is down at the end, whatever they were before:
  -- the table in the source calls this PROGRAM.
  pub mode_program-level :
      (s : Serial) (up : Bool)
      → (mode_program s).1 ≡ true
      → (level dtr up (mode_program s).0.calls ≡ false)
        × (level rts up (mode_program s).0.calls ≡ true)
  unfolding mode_program
  mode_program-level s up h =
      let (t, e, ok) = after_reset (set_bit rts then clr_bit dtr then wait 10) s h in
      rw e (program_end t up ok)

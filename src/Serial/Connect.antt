-- ===== src/Serial/Connect.antt =====
-- How `connect` of src/serial.cpp ends: the port is open and connected, or the descriptor is closed.
use zenoh_proxy.Prelude.{
  ◌+◌, ℕ, suc, ap, true, List, [], ◌∷◌, ◌==◌, if◌then◌else◌, ◌≡◌, ◌≢◌, ◌∙◌, ◌⊎◌, inl, inr, refl,
  arith, Bool-cases, ==_iff,
}
use zenoh_proxy.Serial.{
  Serial, Call, sys_open, sys_close, sys_isatty, sys_tcgetattr, sys_cfsetspeed, sys_tcsetattr, Os,
  sys, rc_of, negative, minus_one, give_up, mode_info, connect_attributes, connect_speed,
  connect_options, connect_tty, connect,
}

module _ (os : Os) where
  -- A call that fails sets `errno`: one that returns a negative number, and isatty if it returns 0.
  abbrev pub FailuresSet : Type 0
  FailuresSet =
      ((cs : List Call) (c : Call) → negative (os cs c).rc ≡ true → (os cs c).err ≢ 0)
      × ((cs : List Call) (fd : ℕ)
          → (os cs (sys_isatty fd)).rc ≡ 0
          → (os cs (sys_isatty fd)).err ≢ 0)

  -- The descriptors opened by the calls.
  pub opened : List Call → ℕ
  opened [] = 0
  opened (sys_open path ∷ cs) =
      (if (os cs (sys_open path)).rc == minus_one then 0 else 1) + opened cs
  opened (c ∷ cs) = opened cs

  -- The calls of `close`.
  pub closed : List Call → ℕ
  closed [] = 0
  closed (sys_close fd ∷ cs) = 1 + closed cs
  closed (c ∷ cs) = closed cs

  -- The calls of `connect` that failed, but for `close` and for those whose result is only logged.
  pub failures : List Call → ℕ
  failures [] = 0
  failures (sys_open path ∷ cs) =
      let rest = failures cs in if (os cs (sys_open path)).rc == minus_one then suc rest else rest
  failures (sys_isatty fd ∷ cs) =
      let rest = failures cs in if (os cs (sys_isatty fd)).rc == 0 then suc rest else rest
  failures (sys_tcgetattr fd ∷ cs) =
      let rest = failures cs in if negative (os cs (sys_tcgetattr fd)).rc then suc rest else rest
  failures (sys_cfsetspeed speed ∷ cs) =
      let rest = failures cs in
      if negative (os cs (sys_cfsetspeed speed)).rc then suc rest else rest
  failures (sys_tcsetattr fd speed ∷ cs) =
      let rest = failures cs in
      if negative (os cs (sys_tcsetattr fd speed)).rc then suc rest else rest
  failures (c ∷ cs) = failures cs

  -- How the steps behind `open` end, from a state with a descriptor: connected, with the descriptor,
  -- or with an error, the descriptor closed.
  abbrev Stage : Serial → Serial × ℕ → Type 0
  Stage s r =
      ((r.1 ≡ 0)
        × (r.0.connected ≡ true)
        × (r.0.fd ≡ s.fd)
        × (opened r.0.calls ≡ opened s.calls)
        × (closed r.0.calls ≡ closed s.calls)
        × (failures r.0.calls ≡ failures s.calls))
      ⊎ ((r.1 ≢ 0)
          × (r.0.fd ≡ minus_one)
          × (r.0.connected ≡ s.connected)
          × (opened r.0.calls ≡ opened s.calls)
          × (closed r.0.calls ≡ 1 + closed s.calls)
          × (failures r.0.calls ≡ suc (failures s.calls)))

  -- A call that fails and is counted as such, and `close` behind it.
  give_up-Stage :
      (c : Call) (s : Serial)
      → (sys os c s).errno ≢ 0
      → opened (c ∷ s.calls) ≡ opened s.calls
      → closed (c ∷ s.calls) ≡ closed s.calls
      → failures (c ∷ s.calls) ≡ suc (failures s.calls)
      → Stage s (give_up os (sys os c s))
  unfolding give_up opened closed failures
  give_up-Stage c s h more_open more_closed more =
      inr (ground (arith, h), refl, refl, more_open, ap (λ n. 1 + n) more_closed, more)

  -- A call that succeeds before a stage.
  after-Stage :
      (c : Call) (s : Serial) (r : Serial × ℕ)
      → opened (c ∷ s.calls) ≡ opened s.calls
      → closed (c ∷ s.calls) ≡ closed s.calls
      → failures (c ∷ s.calls) ≡ failures s.calls
      → Stage (sys os c s) r
      → Stage s r
  after-Stage c s r o k f (inl (ok, on, fd, more, shut, bad)) =
      inl (ok, on, fd, more ∙ o, shut ∙ k, bad ∙ f)
  after-Stage c s r o k f (inr (fails, fd, on, more, shut, bad)) =
      inr (fails, fd, on, more ∙ o, shut ∙ ap (λ n. 1 + n) k, bad ∙ ap suc f)

  module _ (lawful : FailuresSet) where
    -- A call that fails leaves an error number that is not 0.
    sys-errno : (c : Call) (s : Serial) → negative (rc_of os c s) ≡ true → (sys os c s).errno ≢ 0
    sys-errno c s h = ground (arith, lawful.0 s.calls c h)

    isatty-errno :
        (s : Serial) → rc_of os (sys_isatty s.fd) s ≡ 0 → (sys os (sys_isatty s.fd) s).errno ≢ 0
    isatty-errno s h = ground (arith, lawful.1 s.calls s.fd h)

    attributes-Stage : (s : Serial) → Stage s (connect_attributes os s)
    unfolding connect_attributes mode_info opened closed failures
    attributes-Stage s =
        let c : Call = sys_tcsetattr s.fd s.baudrate in
        elim (Bool-cases (negative (rc_of os c s))) [
          | inl bad ↦ rw bad (give_up-Stage c s (sys-errno c s bad) refl refl (rw bad))
          | inr good ↦ rw good (inl (refl, refl, refl, refl, refl, rw good))
        ]

    speed-Stage : (s : Serial) → Stage s (connect_speed os s)
    unfolding connect_speed opened closed failures
    speed-Stage s =
        let c : Call = sys_cfsetspeed s.baudrate in
        elim (Bool-cases (negative (rc_of os c s))) [
          | inl bad ↦ rw bad (give_up-Stage c s (sys-errno c s bad) refl refl (rw bad))
          | inr good ↦ rw good (
              after-Stage c s (connect_attributes os (sys os c s)) refl refl (rw good)
                (attributes-Stage (sys os c s)))
        ]

    options-Stage : (s : Serial) → Stage s (connect_options os s)
    unfolding connect_options opened closed failures
    options-Stage s =
        let c : Call = sys_tcgetattr s.fd in
        elim (Bool-cases (negative (rc_of os c s))) [
          | inl bad ↦ rw bad (give_up-Stage c s (sys-errno c s bad) refl refl (rw bad))
          | inr good ↦ rw good (
              after-Stage c s (connect_speed os (sys os c s)) refl refl (rw good)
                (speed-Stage (sys os c s)))
        ]

    tty-Stage : (s : Serial) → Stage s (connect_tty os s)
    unfolding connect_tty opened closed failures
    tty-Stage s =
        let c : Call = sys_isatty s.fd in
        elim (Bool-cases (rc_of os c s == 0)) [
          | inl bad ↦
              rw bad (give_up-Stage c s (isatty-errno s ((==_iff _ 0).0 bad)) refl refl (rw bad))
          | inr good ↦ rw good (
              after-Stage c s (connect_options os (sys os c s)) refl refl (rw good)
                (options-Stage (sys os c s)))
        ]

    -- If failing calls set `errno`, then `connect` ends in one of two ways. It returns 0, the port is
    -- connected on a descriptor, which is one more that is open, nothing was closed, and none of its
    -- calls of open, isatty, tcgetattr, cfsetspeed and tcsetattr failed. Or it returns an error
    -- number, not 0, exactly one of these calls failed, the descriptor is -1, as many descriptors are closed
    -- as are opened, and `_connected` is as before.
    pub connect-outcome :
        (s : Serial)
        → let r = connect os s in
          ((r.1 ≡ 0)
            × (r.0.connected ≡ true)
            × (r.0.fd ≢ minus_one)
            × (opened r.0.calls ≡ 1 + opened s.calls)
            × (closed r.0.calls ≡ closed s.calls)
            × (failures r.0.calls ≡ failures s.calls))
          ⊎ ((r.1 ≢ 0)
              × (r.0.fd ≡ minus_one)
              × (r.0.connected ≡ s.connected)
              × (opened r.0.calls + closed s.calls ≡ opened s.calls + closed r.0.calls)
              × (failures r.0.calls ≡ suc (failures s.calls)))
    unfolding connect opened closed failures
    connect-outcome s =
        let c : Call = sys_open s.port in
        let t : Serial = record (sys os c s) { fd = rc_of os c s } in
        elim (Bool-cases (t.fd == minus_one)) [
          | inl bad ↦
              let refused : negative (rc_of os c s) ≡ true = rw ((==_iff _ minus_one).0 bad) in
              rw bad (inr (sys-errno c s refused, refl, refl, ground (arith, bad), rw bad))
          | inr good ↦ rw good (ground (arith, tty-Stage t, good))
        ]

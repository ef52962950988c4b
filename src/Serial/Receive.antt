-- ===== src/Serial/Receive.antt =====
-- `rxd` of src/serial.cpp: everything that the descriptor holds is read.
use zenoh_proxy.Prelude.{
  ◌∙◌, eq→==, Bool-cases, ◌≢◌, arith, ◌≡◌, ◌<◌, ℕ, true, false, Option, none, some, List, [], ◌∷◌,
  ◌++◌, ◌==◌, if◌then◌else◌, take, zero, suc, inl, inr, ◌≡◌, ◌≢◌, refl, Bool-cases, append-nil,
  append_assoc, arith, ◌<◌, ==_iff,
}
use zenoh_proxy.Serial.{Serial, Call, sys_read, Os, sys, rc_of, negative, eagain, enotconn}

module _ (os : Os) where
  -- The loop of `rxd`, on the fuel: `out` so far, and the reads that may still be made; `none` when these run out.
  unfoldable pub rxd_loop : ℕ → List ℕ → Serial → Option (Serial × List ℕ × ℕ)
  rxd_loop zero out s = none
  rxd_loop (suc fuel) out s =
      let c : Call = sys_read s.fd in
      let after : Serial = sys os c s in
      let rest = rxd_loop fuel (out ++ take (rc_of os c s) (os s.calls c).input) after in
      if negative (rc_of os c s)
      then (if after.errno == eagain then some (after, out, 0) else some (after, out, after.errno))
      else (if rc_of os c s == 0 then some (after, out, 0) else rest)

  unfoldable pub rxd : ℕ → Serial → Option (Serial × List ℕ × ℕ)
  unfolding rxd_loop
  rxd fuel s = if s.connected then rxd_loop fuel [] s else some (s, [], enotconn)

  abbrev read_by : Call → List Call → List ℕ
  read_by (sys_read fd) cs =
      if negative (os cs (sys_read fd)).rc
      then []
      else take (os cs (sys_read fd)).rc (os cs (sys_read fd)).input
  read_by c cs = []

  -- The bytes that the calls have read.
  unfoldable pub received : List Call → List ℕ
  received [] = []
  received (c ∷ cs) = received cs ++ read_by c cs

  -- The reads end: each that returns a byte or more leaves less pending.
  abbrev pub Drains : (List Call → ℕ) → ℕ → Type 0
  Drains pending fd =
      (cs : List Call)
      → negative (os cs (sys_read fd)).rc ≡ false
      → (os cs (sys_read fd)).rc ≢ 0
      → pending (sys_read fd ∷ cs) < pending cs

  rxd_loop-total :
      (pending : List Call → ℕ) (fuel : ℕ) (out : List ℕ) (s : Serial)
      → Drains pending s.fd
      → pending s.calls < fuel
      → (s' : Serial) × (out' : List ℕ) × (e : ℕ) × (rxd_loop fuel out s
          ≡ some (s', out ++ out', e))
        × (received s'.calls ≡ received s.calls ++ out')
  unfolding rxd_loop received
  rxd_loop-total pending zero out s d enough = absurd (omega (arith, enough))
  rxd_loop-total pending (suc fuel) out s d enough =
      let c : Call = sys_read s.fd in
      let after : Serial = sys os c s in
      elim (Bool-cases (negative (rc_of os c s))) [
        | inl bad ↦ elim (Bool-cases (after.errno == eagain)) [
          | inl empty ↦
              rw (bad, empty)
                (after, [], 0, rw (append-nil out), rw (bad, append-nil (received s.calls)))
          | inr broken ↦
              rw (bad, broken)
                (
                  after,
                  [],
                  after.errno,
                  rw (append-nil out),
                  rw (bad, append-nil (received s.calls)),
                )
        ]
        | inr good ↦ elim (Bool-cases (rc_of os c s == 0)) [
          | inl end ↦
              rw (good, end)
                (after, [], 0, rw (append-nil out), rw ((==_iff (rc_of os c s) 0).0 end) refl)
          | inr more ↦
              let nonzero : rc_of os c s ≢ 0 = λ z. cc (more, eq→== _ _ z) in
              let piece : List ℕ = take (rc_of os c s) (os s.calls c).input in
              let one : received after.calls ≡ received s.calls ++ piece = rw good in
              let (s', out', e, ends, reads) =
                rxd_loop-total pending fuel (out ++ piece) after d
                  (omega (arith, enough, d s.calls good nonzero)) in
              rw (good, more)
                (
                  s',
                  piece ++ out',
                  e,
                  rw (← append_assoc out piece out') ends,
                  reads ∙ rw (one, append_assoc (received s.calls) piece out'),
                )
        ]
      ]

  -- The error of the last call: it failed, and not for want of data.
  unfoldable pub last_error : Serial → List Call → ℕ
  last_error s [] = 0
  last_error s (c ∷ cs) =
      if negative (os cs c).rc then (if s.errno == eagain then 0 else s.errno) else 0

  abbrev pub EndsBy : Option (Serial × List ℕ × ℕ) → Type 0
  EndsBy none = Unit
  EndsBy (some (s, out, e)) = e ≡ last_error s s.calls

  rxd_loop-EndsBy : (fuel : ℕ) (out : List ℕ) (s : Serial) → EndsBy (rxd_loop fuel out s)
  unfolding rxd_loop last_error
  rxd_loop-EndsBy zero out s = tt
  rxd_loop-EndsBy (suc fuel) out s =
      let c : Call = sys_read s.fd in
      let after : Serial = sys os c s in
      elim (Bool-cases (negative (rc_of os c s))) [
        | inl bad ↦ elim (Bool-cases (after.errno == eagain)) [
          | inl empty ↦ rw (bad, empty) (rw (bad, empty))
          | inr broken ↦ rw (bad, broken) (rw (bad, broken))
        ]
        | inr good ↦ elim (Bool-cases (rc_of os c s == 0)) [
          | inl end ↦ rw (good, end) (rw good)
          | inr more ↦
              rw (good, more)
                (rxd_loop-EndsBy fuel (out ++ take (rc_of os c s) (os s.calls c).input) after)
        ]
      ]

  -- What `rxd` of a connected port returns is the error of its last read.
  pub rxd-EndsBy : (fuel : ℕ) (s : Serial) → s.connected ≡ true → EndsBy (rxd fuel s)
  unfolding rxd
  rxd-EndsBy fuel s up = simp (up) (rxd_loop-EndsBy fuel [] s)

  -- If the reads on the descriptor of a connected port drain something pending, then `rxd`, with fuel
  -- for more reads than that, returns, and its result holds the bytes that it has read, all of them
  -- and in order.
  pub rxd-received :
      (pending : List Call → ℕ) (fuel : ℕ) (s : Serial)
      → s.connected ≡ true
      → Drains pending s.fd
      → pending s.calls < fuel
      → (s' : Serial) × (out : List ℕ) × (e : ℕ) × (rxd fuel s ≡ some (s', out, e))
        × (received s'.calls ≡ received s.calls ++ out)
  unfolding rxd
  rxd-received pending fuel s up d enough = simp (up) (rxd_loop-total pending fuel [] s d enough)

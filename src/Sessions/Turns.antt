-- ===== src/Sessions/Turns.antt =====
-- Turns of the thread on a connected `SerialSession` of src/serial_session.cpp: each calls `invoke`.
use mathlib.Core.List.{flatten}
use zenoh_proxy.Prelude.{
  ℕ, ◌<◌, true, Option, some, List, [], ◌∷◌, ◌++◌, ◌==◌, if◌then◌else◌, ◌≡◌, ◌≢◌, inl, inr, refl,
  ◌>>=◌, Bool-cases, append_assoc, append-nil, sym, ap, ◌∙◌, All, zero, suc, take, subst,
}
use zenoh_proxy.Serial.{Serial, Call, Os, sys, sys_read, rc_of, negative, eagain, enotconn}
use zenoh_proxy.Serial.Receive.{rxd, rxd_loop, received, Drains, rxd-received}
use zenoh_proxy.Serial.Transmit.{written}
use zenoh_proxy.Sessions.Line.{SerialSession, emit, after_rxd, invoke, after_rxd-incoming}

-- What is emitted is not empty.
abbrev pub NonEmpty : List ℕ → Type 0
NonEmpty bs = bs ≢ []

All-snoc :
    {A : Type 0} (P : A → Type 0) (xs : List A) (x : A) → All P xs → P x → All P (xs ++ x ∷ [])
All-snoc P [] x h p = (p, tt)
All-snoc P (y ∷ ys) x h p = (h.0, All-snoc P ys x h.1 p)

emit-NonEmpty :
    (out : List ℕ) (s : SerialSession)
    → All NonEmpty s.incoming
    → All NonEmpty (emit out s).incoming
unfolding emit
emit-NonEmpty [] s h = h
emit-NonEmpty (b ∷ bs) s h = All-snoc NonEmpty s.incoming (b ∷ bs) h (λ e. cc)

after_rxd-NonEmpty :
    (s : SerialSession) (p : Serial) (out : List ℕ) (rc : ℕ)
    → All NonEmpty s.incoming
    → All NonEmpty (after_rxd s (p, out, rc)).incoming
unfolding after_rxd
after_rxd-NonEmpty s p out rc h = elim (Bool-cases (rc == 0)) [
  | inl e ↦ rw e (emit-NonEmpty out (record s { serial_port = p; rxd_buffer = out }) h)
  | inr e ↦ rw e h
]

module _ (os : Os) where
  -- A read on the descriptor fails only when nothing is there.
  abbrev pub FailsEmpty : ℕ → Type 0
  FailsEmpty fd =
      (cs : List Call)
      → negative (os cs (sys_read fd)).rc ≡ true
      → (os cs (sys_read fd)).err ≡ eagain

  -- The result is no error, the port is the same but for its calls and errno, and nothing is written.
  abbrev Fine : Serial → Serial × List ℕ × ℕ → Type 0
  Fine s (p, out, rc) =
      (rc ≡ 0)
      × (p.connected ≡ s.connected)
      × (p.fd ≡ s.fd)
      × (written os p.calls ≡ written os s.calls)

  rxd_loop-Fine :
      (fuel : ℕ) (out : List ℕ) (s : Serial) (r : Serial × List ℕ × ℕ)
      → FailsEmpty s.fd
      → rxd_loop os fuel out s ≡ some r
      → Fine s r
  unfolding rxd_loop written
  rxd_loop-Fine zero out s r h e = cc
  rxd_loop-Fine (suc fuel) out s r h e =
      let c : Call = sys_read s.fd in
      let after : Serial = sys os c s in
      elim (Bool-cases (negative (rc_of os c s))) [
        | inl bad ↦
            let empty : (after.errno == eagain) ≡ true = rw (h s.calls bad) refl in
            let same : (after, out, 0) ≡ r = cc (rw (bad, empty) at e) in
            subst (Fine s) same (refl, refl, refl, append-nil (written os s.calls))
        | inr good ↦ elim (Bool-cases (rc_of os c s == 0)) [
          | inl end ↦
              let same : (after, out, 0) ≡ r = cc (rw (good, end) at e) in
              subst (Fine s) same (refl, refl, refl, append-nil (written os s.calls))
          | inr more ↦
              let (no_error, same_up, same_fd, same_written) =
                rxd_loop-Fine fuel (out ++ take (rc_of os c s) (os s.calls c).input) after r h
                  (rw (good, more) at e) in
              (no_error, same_up, same_fd, same_written ∙ append-nil (written os s.calls))
        ]
      ]

  -- The turns, each with this fuel for its reads.
  unfoldable pub turns : ℕ → ℕ → SerialSession → Option SerialSession
  turns fuel zero s = some s
  turns fuel (suc n) s = invoke os fuel s >>= turns fuel n

  rxd-Fine :
      (fuel : ℕ) (s : Serial) (r : Serial × List ℕ × ℕ)
      → s.connected ≡ true
      → FailsEmpty s.fd
      → rxd os fuel s ≡ some r
      → Fine s r
  unfolding rxd
  rxd-Fine fuel s r up h e =
      rxd_loop-Fine fuel [] s r h
        (sym (ap (λ b. if b then rxd_loop os fuel [] s else some (s, [], enotconn)) up) ∙ e)

  -- If the reads on the descriptor of a connected port drain something pending, and fail only when
  -- nothing is there, then any number of turns, with fuel for more reads than can be pending, end. All
  -- the bytes that were read have gone out, in order and behind the earlier ones, in pieces that are
  -- not empty. Nothing is written, and the port stays open.
  pub turns-received :
      (pending : List Call → ℕ) (fuel n : ℕ) (s : SerialSession)
      → s.serial_port.connected ≡ true
      → Drains os pending s.serial_port.fd
      → FailsEmpty s.serial_port.fd
      → ((cs : List Call) → pending cs < fuel)
      → All NonEmpty s.incoming
      → (s' : SerialSession) × (out : List ℕ) × (turns fuel n s ≡ some s')
        × (received os s'.serial_port.calls ≡ received os s.serial_port.calls ++ out)
        × (flatten s'.incoming ≡ flatten s.incoming ++ out)
        × All NonEmpty s'.incoming
        × (s'.serial_port.connected ≡ true)
        × (s'.serial_port.fd ≡ s.serial_port.fd)
        × (written os s'.serial_port.calls ≡ written os s.serial_port.calls)
  unfolding turns invoke
  turns-received pending fuel zero s up drains empty enough full = (
    s,
    [],
    refl,
    sym (append-nil (received os s.serial_port.calls)),
    sym (append-nil (flatten s.incoming)),
    full,
    up,
    refl,
    refl,
  )
  turns-received pending fuel (suc n) s up drains empty enough full =
      let (p, out, rc, ends, reads) =
        rxd-received os pending fuel s.serial_port up drains (enough s.serial_port.calls) in
      let (no_error, same_up, same_fd, same_written) =
        rxd-Fine fuel s.serial_port (p, out, rc) up empty ends in
      let one : SerialSession = after_rxd s (p, out, rc) in
      let (told, kept) = after_rxd-incoming s p out rc in
      let told0 : flatten one.incoming ≡ flatten s.incoming ++ out =
        told ∙ ap (λ k. flatten s.incoming ++ (if k == 0 then out else [])) no_error in
      let fd : one.serial_port.fd ≡ s.serial_port.fd = ap (λ q. q.fd) kept ∙ same_fd in
      let (s', rest, done, reads', told', full', up', fd', quiet') =
        turns-received pending fuel n one (ap (λ q. q.connected) kept ∙ same_up ∙ up)
          (subst (Drains os pending) (sym fd) drains) (subst FailsEmpty (sym fd) empty) enough
          (after_rxd-NonEmpty s p out rc full) in
      (
        s',
        out ++ rest,
        rw ends done,
        reads'
            ∙ ap (λ q. received os q.calls ++ rest) kept
            ∙ ap (λ bs. bs ++ rest) reads
            ∙ append_assoc (received os s.serial_port.calls) out rest,
        told' ∙ ap (λ bs. bs ++ rest) told0 ∙ append_assoc (flatten s.incoming) out rest,
        full',
        up',
        fd' ∙ fd,
        quiet' ∙ ap (λ q. written os q.calls) kept ∙ same_written,
      )

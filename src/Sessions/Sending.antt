-- ===== src/Sessions/Sending.antt =====
-- The sink `outgoing` of src/serial_session.cpp: each value that is sent to it is written to the port.
-- The queue between a source and a sink is limero's; here it loses nothing and keeps the order.
use mathlib.Core.List.{flatten}
use zenoh_proxy.Prelude.{
  ℕ, ◌≤◌, ◌<◌, true, false, Option, some, List, [], ◌∷◌, ◌++◌, ◌==◌, ◌≡◌, inl, inr, refl, ◌>>=◌,
  Bool-cases, append_assoc, append-nil, sym, ap, ◌∙◌, All, zero, suc, drop, subst, length,
  if◌then◌else◌,
}
use zenoh_proxy.Serial.{Serial, Call, Os, sys, sys_write, sys_tcdrain, rc_of, negative, enotconn}
use zenoh_proxy.Serial.Transmit.{txd, txd_loop, flush, written, Sends, txd-written}
use zenoh_proxy.Sessions.Line.{SerialSession, outgoing}

module _ (os : Os) where
  -- Every write takes a byte or more.
  abbrev pub WritesTake : ℕ → Type 0
  WritesTake fd =
      (cs : List Call) (b : ℕ) (bs : List ℕ)
      → let a = os cs (sys_write fd (b ∷ bs)) in (negative a.rc ≡ false) × (1 ≤ a.rc)

  -- The result is no error, and the port is the same but for its calls and errno.
  abbrev Fine : Serial → Serial × ℕ → Type 0
  Fine s (p, rc) = (rc ≡ 0) × (p.connected ≡ s.connected) × (p.fd ≡ s.fd)

  txd_loop-Fine :
      (fuel : ℕ) (bs : List ℕ) (s : Serial) (r : Serial × ℕ)
      → WritesTake s.fd
      → txd_loop os fuel bs s ≡ some r
      → Fine s r
  unfolding txd_loop flush
  txd_loop-Fine fuel [] s r h e =
      let same : flush os s ≡ r = cc e in subst (Fine s) same (refl, refl, refl)
  txd_loop-Fine zero (b ∷ bs) s r h e = cc
  txd_loop-Fine (suc fuel) (b ∷ bs) s r h e =
      let c : Call = sys_write s.fd (b ∷ bs) in
      let after : Serial = sys os c s in
      let drained : Serial = sys os (sys_tcdrain s.fd) after in
      elim (Bool-cases (rc_of os c s == length (b ∷ bs))) [
        | inl whole ↦
            let same : flush os after ≡ r = cc (rw whole at e) in
            subst (Fine s) same (refl, refl, refl)
        | inr part ↦
            txd_loop-Fine fuel (drop (rc_of os c s) (b ∷ bs)) drained r h
              (rw (part, (h s.calls b bs).0) at e)
      ]

  txd-Fine :
      (fuel : ℕ) (bs : List ℕ) (s : Serial) (r : Serial × ℕ)
      → s.connected ≡ true
      → WritesTake s.fd
      → txd os fuel bs s ≡ some r
      → Fine s r
  unfolding txd
  txd-Fine fuel bs s r up h e =
      txd_loop-Fine fuel bs s r h
        (sym (ap (λ b. if b then txd_loop os fuel bs s else some (s, enotconn)) up) ∙ e)

  Sends-whole :
      (bs : List ℕ) (s : Serial) (r : Serial × ℕ)
      → r.1 ≡ 0
      → Sends os bs s r
      → written os r.0.calls ≡ written os s.calls ++ bs
  Sends-whole bs s r zero_rc (sent, rest, wrote, parts, inl (ok, none_left)) =
      wrote
      ∙ ap (λ q. written os s.calls ++ q)
          (sym (append-nil sent) ∙ ap (λ q. sent ++ q) (sym none_left) ∙ parts)
  Sends-whole bs s r zero_rc (sent, rest, wrote, parts, inr bad) = absurd (bad zero_rc)

  -- The values that are sent to `outgoing`, one after another, each with fuel for a write of each byte.
  unfoldable pub send_all : List (List ℕ) → SerialSession → Option SerialSession
  send_all [] s = some s
  send_all (bs ∷ values) s = outgoing os (length bs) bs s >>= send_all values

  -- If every write on the descriptor of a connected port takes a byte or more, then all values, each
  -- of less than 2^31 bytes, are written, whole and in order, and the port stays connected.
  pub send_all-written :
      (values : List (List ℕ)) (s : SerialSession)
      → s.serial_port.connected ≡ true
      → WritesTake s.serial_port.fd
      → All (λ bs. length bs < 0x8000_0000) values
      → (s' : SerialSession) × (send_all values s ≡ some s')
        × (written os s'.serial_port.calls ≡ written os s.serial_port.calls ++ flatten values)
        × (s'.serial_port.connected ≡ true)
        × (s'.incoming ≡ s.incoming)
  unfolding send_all outgoing flatten
  send_all-written [] s up takes small =
      (s, refl, sym (append-nil (written os s.serial_port.calls)), up, refl)
  send_all-written (bs ∷ values) s up takes small =
      let (r, ends, sent) =
        txd-written os bs s.serial_port up (λ cs b rest. inl (takes cs b rest)) small.0 in
      let (no_error, same_up, same_fd) = txd-Fine (length bs) bs s.serial_port r up takes ends in
      let wrote = Sends-whole bs s.serial_port r no_error sent in
      let (s', done, wrote', up', told) =
        send_all-written values (record s { serial_port = r.0 }) (same_up ∙ up)
          (subst WritesTake (sym same_fd) takes) small.1 in
      (
        s',
        rw ends done,
        wrote'
            ∙ ap (λ q. q ++ flatten values) wrote
            ∙ append_assoc (written os s.serial_port.calls) bs (flatten values),
        up',
        told,
      )

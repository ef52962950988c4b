-- ===== src/Sessions/Line.antt =====
-- src/serial_session.cpp: `SerialSession`, over the port of src/serial.cpp.
use zenoh_proxy.Prelude.{
  ℕ, ◌<◌, Bool, true, Option, some, List, [], ◌∷◌, ◌++◌, ◌==◌, if◌then◌else◌, ◌≡◌, ◌≢◌, ◌⊎◌, inl,
  inr, refl, ◌>>=◌, eq→==, Bool-cases, append_assoc, append-nil, sym, ap, ◌∙◌, subst,
}
use mathlib.Core.List.{flatten}
use zenoh_proxy.Serial.{Serial, Call, Os, minus_one, set_port}
use zenoh_proxy.Serial
use zenoh_proxy.Serial.Rates.{set_baudrate}
use zenoh_proxy.Serial.Connect.{FailuresSet, connect-outcome}
use zenoh_proxy.Serial.Receive.{rxd, received, Drains, rxd-received, last_error, EndsBy, rxd-EndsBy}
use zenoh_proxy.Serial.Transmit.{txd}
use zenoh_proxy.Sessions.{Watch, add_read_invoker, add_error_invoker, delete_invoker, is_read}

-- `SerialSession`, with the requests to the thread and what it emits.
pub record SerialSession : Type 0 where
  pub serial_port : Serial
  pub port : List ℕ
  pub baudrate : ℕ
  pub rxd_buffer : List ℕ
  pub watches : List Watch
  pub incoming : List (List ℕ)

module _ (symbol : ℕ → ℕ) where
  -- `init`; the port's own `init` does nothing.
  unfoldable pub init : SerialSession → SerialSession × Bool
  init s = (
    record s { serial_port = set_baudrate symbol s.baudrate (set_port s.port s.serial_port) },
    true,
  )

-- An empty buffer is not emitted.
unfoldable pub emit : List ℕ → SerialSession → SerialSession
emit [] s = s
emit (b ∷ bs) s = record s { incoming = s.incoming ++ (b ∷ bs) ∷ [] }

-- `invoke` behind the read: nothing is emitted when the read fails.
unfoldable pub after_rxd : SerialSession → Serial × List ℕ × ℕ → SerialSession
after_rxd s (p, out, rc) =
    let read : SerialSession = record s { serial_port = p; rxd_buffer = out } in
    let told = emit out read in if rc == 0 then told else read

flatten-snoc : (xs : List (List ℕ)) (y : List ℕ) → flatten (xs ++ y ∷ []) ≡ flatten xs ++ y
unfolding flatten
flatten-snoc [] y = append-nil y
flatten-snoc (x ∷ xs) y = rw (flatten-snoc xs y, append_assoc x (flatten xs) y)

flatten-emit :
    (out : List ℕ) (s : SerialSession) → flatten (emit out s).incoming ≡ flatten s.incoming ++ out
unfolding emit
flatten-emit [] s = rw (append-nil (flatten s.incoming))
flatten-emit (b ∷ bs) s = flatten-snoc s.incoming (b ∷ bs)

emit-port : (out : List ℕ) (s : SerialSession) → (emit out s).serial_port ≡ s.serial_port
unfolding emit
emit-port [] s = refl
emit-port (b ∷ bs) s = refl

pub after_rxd-incoming :
    (s : SerialSession) (p : Serial) (out : List ℕ) (rc : ℕ)
    → (flatten (after_rxd s (p, out, rc)).incoming
        ≡ flatten s.incoming ++ (if rc == 0 then out else []))
      × ((after_rxd s (p, out, rc)).serial_port ≡ p)
unfolding after_rxd
after_rxd-incoming s p out rc =
    let read : SerialSession = record s { serial_port = p; rxd_buffer = out } in
    elim (Bool-cases (rc == 0)) [
      | inl e ↦ simp (e) (flatten-emit out read, emit-port out read)
      | inr e ↦ simp (e) (sym (append-nil (flatten s.incoming)), refl)
    ]

module _ (os : Os) where
  -- The result of the port's `connect` is not used.
  unfoldable pub connect : SerialSession → SerialSession × Bool
  connect s =
      let p : Serial = (Serial.connect os s.serial_port).0 in
      (
        record s {
          serial_port = p;
          watches = add_error_invoker p.fd ∷ add_read_invoker p.fd ∷ s.watches;
        },
        true,
      )

  unfoldable pub disconnect : SerialSession → SerialSession × Bool
  disconnect s = (
    record s {
      serial_port = (Serial.disconnect os s.serial_port).0;
      watches = delete_invoker s.serial_port.fd ∷ s.watches;
    },
    true,
  )

  unfoldable pub on_error : SerialSession → SerialSession
  on_error s = (disconnect s).0

  -- The fuel is that of `rxd` and of `txd`.
  unfoldable pub invoke : ℕ → SerialSession → Option SerialSession
  invoke fuel s = do r ← rxd os fuel s.serial_port; some (after_rxd s r)

  unfoldable pub outgoing : ℕ → List ℕ → SerialSession → Option SerialSession
  outgoing fuel bs s = do r ← txd os fuel bs s.serial_port; some (record s { serial_port = r.0 })

  -- If the reads on the descriptor of a connected port drain something pending, `invoke`, with fuel
  -- for more reads than that, ends. If the last read did not fail, or only for want of data, exactly
  -- the bytes that were read go out, in order and behind the earlier ones; if it failed otherwise,
  -- none of them go out.
  pub invoke-received :
      (pending : List Call → ℕ) (fuel : ℕ) (s : SerialSession)
      → s.serial_port.connected ≡ true
      → Drains os pending s.serial_port.fd
      → pending s.serial_port.calls < fuel
      → (s' : SerialSession) × (out : List ℕ) × (invoke fuel s ≡ some s')
        × (received os s'.serial_port.calls ≡ received os s.serial_port.calls ++ out)
        × (flatten s'.incoming
            ≡ flatten s.incoming
              ++ (if last_error os s'.serial_port s'.serial_port.calls == 0 then out else []))
  unfolding invoke
  invoke-received pending fuel s up drains enough =
      let (p, out, rc, ends, reads) = rxd-received os pending fuel s.serial_port up drains enough in
      let (told, kept) = after_rxd-incoming s p out rc in
      let error : rc ≡ last_error os p p.calls =
        subst (EndsBy os) ends (rxd-EndsBy os fuel s.serial_port up) in
      (
        after_rxd s (p, out, rc),
        out,
        rw ends,
        ap (λ q. received os q.calls) kept ∙ reads,
        rw (kept, ← error) told,
      )

  -- If failing calls set errno: `connect` returns true, and either the port is connected and the
  -- thread watches its descriptor, or the port is not opened and the thread watches descriptor -1.
  pub connect-watches :
      (s : SerialSession)
      → FailuresSet os
      → let r = connect s in
        (r.1 ≡ true)
        × (((r.0.serial_port.connected ≡ true)
              × (r.0.serial_port.fd ≢ minus_one)
              × (is_read r.0.serial_port.fd r.0.watches ≡ true))
            ⊎ ((r.0.serial_port.fd ≡ minus_one)
                × (r.0.serial_port.connected ≡ s.serial_port.connected)
                × (is_read minus_one r.0.watches ≡ true)))
  unfolding connect is_read
  connect-watches s lawful = (
    refl,
    elim (connect-outcome os lawful s.serial_port) [
      | inl (ok, on, fd, more, same_closed, clean) ↦ inl (on, fd, rw (eq→== _ _ refl))
      | inr (bad, fd, kept, even, failed) ↦ inr (fd, kept, rw (eq→== _ minus_one fd))
    ],
  )

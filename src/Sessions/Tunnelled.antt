-- ===== src/Sessions/Tunnelled.antt =====
-- Whatever happens to a `TcpSession` of src-pico/tcp_session.cpp: when the thread watches its socket,
-- and how many sockets stay open.
use zenoh_proxy.Prelude.{
  ℕ, ◌+◌, ◌≤◌, Option, none, some, List, [], ◌∷◌, ◌≡◌, refl, arith, eq→==, inl, inr, sym,
  Bool-cases,
}
use zenoh_proxy.Prelude.Prefix.{same}
use zenoh_proxy.Tcp.{positive}
use zenoh_proxy.Tcp.Sockets.{
  Call, open_tx_session, close_tx_session, opened, closed, open_tx_session-Ends, Ends,
}
use zenoh_proxy.Tcp.Locator.{
  open_locator, parse_locator, strtok, token, skip, split, parse_address, parse_port, open_resolved,
}
use zenoh_proxy.Sessions.{is_read}
use zenoh_proxy.Sessions.Tunnel.{
  TcpSession, disconnect, invoke, on_error, outgoing, connect_opened, connect_opening, connect,
  Event, connects, disconnects, readable, fails, sends, step, run,
}

-- "localhost" and "7447"
abbrev pub host_text : List ℕ
host_text = 108 ∷ 111 ∷ 99 ∷ 97 ∷ 108 ∷ 104 ∷ 111 ∷ 115 ∷ 116 ∷ []

abbrev pub port_text : List ℕ
port_text = 55 ∷ 52 ∷ 52 ∷ 55 ∷ []

-- The thread reports reads on the socket exactly while the session is connected.
abbrev pub Watched : TcpSession → Type 0
Watched s = is_read s.socket s.watches ≡ s.connected

module _ (os : List Call → Call → ℕ) (resolve : List ℕ → List ℕ → Option (List ℕ)) where
  -- Sockets that are open at the end and were not at the start.
  abbrev pub StaysOpen : ℕ → TcpSession → TcpSession → Type 0
  StaysOpen n s s' =
      opened os s.calls + closed os s'.calls + n ≤ opened os s'.calls + closed os s.calls

  -- Whether a connection was opened.
  abbrev pub success : Option ℕ → ℕ
  success none = 0
  success (some fd) = 1

  -- How many of the events open a connection.
  unfoldable pub connections : List Event → List ℕ → TcpSession → ℕ
  connections [] ip s = 0
  connections (connects ∷ es) ip s =
      let r = open_tx_session os ip s.calls in
      success r.1 + connections es ip (connect_opened r.0 r.1 s).0
  connections (disconnects ∷ es) ip s = connections es ip (disconnect s).0
  connections (readable rb bs ∷ es) ip s = connections es ip (invoke rb bs s)
  connections (fails ∷ es) ip s = connections es ip (on_error s)
  connections (sends bs ∷ es) ip s = connections es ip (outgoing bs s)

  none≢some : {a : ℕ} → none ≡ some a → ⊥
  none≢some e = cc

  connect-resolved :
      (ip : List ℕ) (s : TcpSession)
      → resolve host_text port_text ≡ some ip
      → connect os resolve s
        ≡ (let r = open_tx_session os ip s.calls in some (connect_opened r.0 r.1 s))
  unfolding connect connect_opening open_locator parse_locator strtok token skip split parse_address
      parse_port same open_resolved
  connect-resolved ip s e = rw (e, open_resolved)

  disconnect-Watched : (s : TcpSession) → Watched (disconnect s).0
  unfolding disconnect is_read
  disconnect-Watched s = rw (eq→== s.socket s.socket refl)

  disconnect-StaysOpen : (s : TcpSession) → StaysOpen 0 s (disconnect s).0
  unfolding disconnect close_tx_session opened closed
  disconnect-StaysOpen s = omega arith

  invoke-outcome :
      (rb : ℕ) (bs : List ℕ) (s : TcpSession)
      → Watched s
      → Watched (invoke rb bs s) × StaysOpen 0 s (invoke rb bs s)
  unfolding invoke
  invoke-outcome rb bs s w = elim (Bool-cases (positive rb)) [
    | inl e ↦ simp (e) (w, omega arith)
    | inr e ↦ simp (e) (disconnect-Watched s, disconnect-StaysOpen s)
  ]

  outgoing-outcome :
      (bs : List ℕ) (s : TcpSession)
      → Watched s
      → Watched (outgoing bs s) × StaysOpen 0 s (outgoing bs s)
  unfolding outgoing
  outgoing-outcome bs s w = (w, omega arith)

  opened-Watched :
      (cs : List Call) (r : Option ℕ) (s : TcpSession) → Watched (connect_opened cs r s).0
  unfolding connect_opened is_read
  opened-Watched cs none s = rw (eq→== s.socket s.socket refl)
  opened-Watched cs (some fd) s = rw (eq→== fd fd refl)

  opened-StaysOpen :
      (cs : List Call) (r : Option ℕ) (s : TcpSession)
      → Ends os s.calls (cs, r)
      → StaysOpen (success r) s (connect_opened cs r s).0
  unfolding connect_opened
  opened-StaysOpen cs none s h = elim h [
    | inl (e, more, same_closed) ↦ absurd (none≢some e)
    | inr (inl (e, at, more, same_closed)) ↦ omega (arith, more, same_closed)
    | inr (inr (e, at, even)) ↦ omega (arith, even)
  ]
  opened-StaysOpen cs (some fd) s h = elim h [
    | inl (e, more, same_closed) ↦ omega (arith, more, same_closed)
    | inr (inl (e, at, more, same_closed)) ↦ omega (arith, more, same_closed)
    | inr (inr (e, at, even)) ↦ absurd (none≢some (sym e))
  ]

  -- Let the name of the host be resolved. Whatever happens to a session whose socket the thread watches
  -- exactly while it is connected: nothing undefined happens, this is so at the end again, and each
  -- connection that was opened has left a socket that is never closed.
  pub run-Watched :
      (ip : List ℕ) (es : List Event) (s : TcpSession)
      → resolve host_text port_text ≡ some ip
      → Watched s
      → (s' : TcpSession) × (run os resolve es s ≡ some s')
        × Watched s'
        × StaysOpen (connections es ip s) s s'
  unfolding run step connections on_error
  run-Watched ip [] s e w = (s, refl, w, omega arith)
  run-Watched ip (connects ∷ es) s e w =
      let r = open_tx_session os ip s.calls in
      let m : TcpSession = (connect_opened r.0 r.1 s).0 in
      let (s', runs, w', alive) = run-Watched ip es m e (opened-Watched r.0 r.1 s) in
      rw (connect-resolved ip s e) (
        s',
        runs,
        w',
        omega (arith, alive, opened-StaysOpen r.0 r.1 s (open_tx_session-Ends os ip s.calls)),
      )
  run-Watched ip (disconnects ∷ es) s e w =
      let (s', runs, w', alive) = run-Watched ip es (disconnect s).0 e (disconnect-Watched s) in
      (s', runs, w', omega (arith, alive, disconnect-StaysOpen s))
  run-Watched ip (readable rb bs ∷ es) s e w =
      let (w₁, alive₁) = invoke-outcome rb bs s w in
      let (s', runs, w', alive) = run-Watched ip es (invoke rb bs s) e w₁ in
      (s', runs, w', omega (arith, alive, alive₁))
  run-Watched ip (fails ∷ es) s e w =
      let (s', runs, w', alive) = run-Watched ip es (disconnect s).0 e (disconnect-Watched s) in
      (s', runs, w', omega (arith, alive, disconnect-StaysOpen s))
  run-Watched ip (sends bs ∷ es) s e w =
      let (w₁, alive₁) = outgoing-outcome bs s w in
      let (s', runs, w', alive) = run-Watched ip es (outgoing bs s) e w₁ in
      (s', runs, w', omega (arith, alive, alive₁))

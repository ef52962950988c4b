-- ===== src/Tcp/Sockets.antt =====
-- src-pico/tcp.cpp: `_zn_create_udp_socket`, and `_zn_open_tx_session` from its call of `socket` on. The
-- system's answers are a parameter; the result is the socket, or none for the tag _z_res_t_ERR.
use zenoh_proxy.Prelude.{
  ℕ, Bool, true, false, Option, none, some, List, [], ◌∷◌, ◌==◌, if◌then◌else◌, ◌||◌, ◌≡◌, ◌⊎◌, ◌+◌,
  arith,
}
use zenoh_proxy.Tcp.{negative, minus_one}

pub data Call : Type 0 where
  sys_socket : Call
  sys_inet_pton : List ℕ → Call
  sys_bind : ℕ → Call
  sys_setsockopt : ℕ → ℕ → Call
  sys_connect : ℕ → Call
  sys_close : ℕ → Call
  sys_shutdown : ℕ → Call

-- The options of `setsockopt`, by their numbers on Linux.
abbrev pub so_keepalive : ℕ
so_keepalive = 9

abbrev pub so_linger : ℕ
so_linger = 13

abbrev pub so_rcvtimeo : ℕ
so_rcvtimeo = 20

abbrev pub so_sndtimeo : ℕ
so_sndtimeo = 21

-- `_zn_close_tx_session` shuts the connection down and does not close the socket.
unfoldable pub close_tx_session : ℕ → List Call → List Call
close_tx_session fd cs = sys_shutdown fd ∷ cs

-- What is returned, from the calls before, the newest first.
module _ (os : List Call → Call → ℕ) where
  abbrev fails : Call → List Call → Bool
  fails c cs = negative (os cs c)

  -- `inet_pton` returns 1 for a good address.
  abbrev bad_address : Call → List Call → Bool
  bad_address c cs = negative (os cs c) || (os cs c == 0)

  -- An option that is refused closes the socket.
  pub set_options : ℕ → ℕ → ℕ → List Call → List Call × Bool
  set_options fd first second cs =
      let c₁ : Call = sys_setsockopt fd first in
      let c₂ : Call = sys_setsockopt fd second in
      if os cs c₁ == minus_one
      then (sys_close fd ∷ c₁ ∷ cs, false)
      else (if os (c₁ ∷ cs) c₂ == minus_one
          then (sys_close fd ∷ c₂ ∷ c₁ ∷ cs, false)
          else (c₂ ∷ c₁ ∷ cs, true))

  unfoldable pub create_udp_socket : List ℕ → List Call → List Call × Option ℕ
  unfolding set_options
  create_udp_socket addr cs =
      let fd : ℕ = os cs sys_socket in
      let cs₁ : List Call = sys_socket ∷ cs in
      let cs₂ : List Call = sys_inet_pton addr ∷ cs₁ in
      let cs₃ : List Call = sys_bind fd ∷ cs₂ in
      let options = set_options fd so_rcvtimeo so_sndtimeo cs₃ in
      if negative fd
      then (cs₁, none)
      else (if bad_address (sys_inet_pton addr) cs₁
          then (cs₂, none)
          else (if fails (sys_bind fd) cs₂
              then (cs₃, none)
              else (if options.1 then (options.0, some fd) else (options.0, none))))

  unfoldable pub open_tx_session : List ℕ → List Call → List Call × Option ℕ
  unfolding set_options
  open_tx_session ip_addr cs =
      let fd : ℕ = os cs sys_socket in
      let cs₁ : List Call = sys_socket ∷ cs in
      let (cs₂, set) = set_options fd so_keepalive so_linger cs₁ in
      let cs₃ : List Call = sys_inet_pton ip_addr ∷ cs₂ in
      let cs₄ : List Call = sys_connect fd ∷ cs₃ in
      if negative fd
      then (cs₁, none)
      else (if set
          then (if bad_address (sys_inet_pton ip_addr) cs₂
              then (cs₃, none)
              else (if fails (sys_connect fd) cs₃ then (cs₄, none) else (cs₄, some fd)))
          else (cs₂, none))

  -- The sockets that the calls have opened, and the calls of `close`.
  unfoldable pub opened : List Call → ℕ
  opened [] = 0
  opened (sys_socket ∷ cs) = (if negative (os cs sys_socket) then 0 else 1) + opened cs
  opened (c ∷ cs) = opened cs

  unfoldable pub closed : List Call → ℕ
  closed [] = 0
  closed (sys_close fd ∷ cs) = 1 + closed cs
  closed (c ∷ cs) = closed cs

  -- Whether the last call is one about an address: `inet_pton`, `bind` or `connect`.
  pub at_address : List Call → Bool
  at_address [] = false
  at_address (sys_inet_pton addr ∷ cs) = true
  at_address (sys_bind fd ∷ cs) = true
  at_address (sys_connect fd ∷ cs) = true
  at_address (c ∷ cs) = false

  -- How the opening of a socket ends: with the socket, the one more that is open; with an error at an
  -- address, and the socket is open all the same; or with an error elsewhere and nothing more open.
  abbrev pub Ends : List Call → List Call × Option ℕ → Type 0
  Ends cs r =
      ((r.1 ≡ some (os cs sys_socket)) × (opened r.0 ≡ 1 + opened cs) × (closed r.0 ≡ closed cs))
      ⊎ ((r.1 ≡ none)
          × (at_address r.0 ≡ true)
          × (opened r.0 ≡ 1 + opened cs)
          × (closed r.0 ≡ closed cs))
      ⊎ ((r.1 ≡ none)
          × (at_address r.0 ≡ false)
          × (opened r.0 + closed cs ≡ opened cs + closed r.0))

  create_udp_socket-Ends : (addr : List ℕ) (cs : List Call) → Ends cs (create_udp_socket addr cs)
  unfolding create_udp_socket opened closed at_address
  create_udp_socket-Ends addr cs = ground arith

  pub open_tx_session-Ends :
      (ip_addr : List ℕ) (cs : List Call) → Ends cs (open_tx_session ip_addr cs)
  unfolding open_tx_session opened closed at_address
  open_tx_session-Ends ip_addr cs = ground arith

  -- From their calls of `socket` on, both functions end with the socket, one more that is open; or
  -- with an error behind an address that is refused, and the socket is open all the same; or with an
  -- error elsewhere, and no more sockets are open than before.
  pub sockets-Ends :
      (addr : List ℕ) (cs : List Call)
      → Ends cs (create_udp_socket addr cs) × Ends cs (open_tx_session addr cs)
  sockets-Ends addr cs = (create_udp_socket-Ends addr cs, open_tx_session-Ends addr cs)

-- ===== src/Tcp/Locator.antt =====
-- src-pico/tcp.cpp: the start of `_zn_open_tx_session`, which takes the locator apart with `strtok`,
-- and `_zn_make_socket_address`.
use zenoh_proxy.Prelude.Prefix.{same}
use zenoh_proxy.Prelude.{
  ℕ, Option, none, some, List, [], ◌∷◌, ◌++◌, ◌==◌, if◌then◌else◌, ◌≡◌, ◌≢◌, refl, All, ne→==,
  eq→==,
}
use zenoh_proxy.Tcp.Sockets.{Call, open_tx_session}

-- '/' and ':'
abbrev pub slash : ℕ
slash = 47

abbrev pub colon : ℕ
colon = 58

-- "tcp"
abbrev pub tcp_text : List ℕ
tcp_text = 116 ∷ 99 ∷ 112 ∷ []

-- `strtok`: the delimiters at the front are skipped; the token, and what is left for the next call.
unfoldable pub skip : ℕ → List ℕ → List ℕ
skip d [] = []
skip d (c ∷ cs) = let rest = skip d cs in if c == d then rest else c ∷ cs

unfoldable pub split : ℕ → List ℕ → List ℕ × List ℕ
split d [] = ([], [])
split d (c ∷ cs) = let (token, rest) = split d cs in if c == d then ([], cs) else (c ∷ token, rest)

unfoldable pub token : ℕ → List ℕ → Option (List ℕ × List ℕ)
token d [] = none
token d (c ∷ cs) = some (split d (c ∷ cs))

unfoldable pub strtok : ℕ → List ℕ → Option (List ℕ × List ℕ)
strtok d cs = token d (skip d cs)

-- The program ends itself, uses a NULL pointer, or goes on with an address and a port.
pub data Locator : Type 0 where
  exits : Locator
  undefined : Locator
  tcp : List ℕ → List ℕ → Locator

unfoldable pub parse_port : List ℕ → Option (List ℕ × List ℕ) → Locator
parse_port addr none = undefined
parse_port addr (some (port, rest)) = tcp addr port

unfoldable pub parse_address : Option (List ℕ × List ℕ) → Locator
parse_address none = undefined
parse_address (some (addr, rest)) = parse_port addr (strtok colon rest)

unfoldable pub parse_locator : List ℕ → Locator
parse_locator locator = elim (strtok slash locator) [
  | none ↦ undefined
  | some (tx, rest) ↦ if same tx tcp_text then parse_address (strtok colon rest) else exits
]

-- How `_zn_open_tx_session` ends: when `getaddrinfo` fails, `freeaddrinfo` is given a pointer that is
-- not initialised.
pub data Opening : Type 0 where
  opening_exits : Opening
  opening_undefined : Opening
  opens : List Call → Option ℕ → Opening

-- `resolve` is `getaddrinfo` and `inet_ntop`.
module _ (os : List Call → Call → ℕ) (resolve : List ℕ → List ℕ → Option (List ℕ)) where
  unfoldable pub open_resolved : Option (List ℕ) → List Call → Opening
  open_resolved none cs = opening_undefined
  open_resolved (some ip_addr) cs =
      let (cs', socket) = open_tx_session os ip_addr cs in opens cs' socket

  unfoldable pub open_locator : List ℕ → List Call → Opening
  open_locator locator cs = elim (parse_locator locator) [
    | exits ↦ opening_exits
    | undefined ↦ opening_undefined
    | tcp addr port ↦ open_resolved (resolve addr port) cs
  ]

abbrev pub Lacks : ℕ → List ℕ → Type 0
Lacks d = All (λ c. c ≢ d)

skip-Lacks : (d c : ℕ) (cs : List ℕ) → c ≢ d → skip d (c ∷ cs) ≡ c ∷ cs
unfolding skip
skip-Lacks d c cs h = rw (ne→== c d h)

split-Lacks : (d : ℕ) (cs rest : List ℕ) → Lacks d cs → split d (cs ++ d ∷ rest) ≡ (cs, rest)
unfolding split
split-Lacks d [] rest h = rw (eq→== d d refl)
split-Lacks d (c ∷ cs) rest h = rw (ne→== c d h.0, split-Lacks d cs rest h.1)

split-whole : (d : ℕ) (cs : List ℕ) → Lacks d cs → split d cs ≡ (cs, [])
unfolding split
split-whole d [] h = refl
split-whole d (c ∷ cs) h = rw (ne→== c d h.0, split-whole d cs h.1)

strtok-Lacks :
    (d : ℕ) (cs rest : List ℕ) → cs ≢ [] → Lacks d cs → strtok d (cs ++ d ∷ rest) ≡ some (cs, rest)
unfolding strtok token
strtok-Lacks d [] rest ne h = absurd (ne refl)
strtok-Lacks d (c ∷ cs) rest ne h =
    rw (skip-Lacks d c (cs ++ d ∷ rest) h.0, split-Lacks d (c ∷ cs) rest h)

strtok-whole : (d : ℕ) (cs : List ℕ) → cs ≢ [] → Lacks d cs → strtok d cs ≡ some (cs, [])
unfolding strtok token
strtok-whole d [] ne h = absurd (ne refl)
strtok-whole d (c ∷ cs) ne h = rw (skip-Lacks d c cs h.0, split-whole d (c ∷ cs) h)

-- The locator tcp/addr:port, with an address and a port that are not empty and hold no colon, is taken
-- apart into these.
pub parse_locator-tcp :
    (addr port : List ℕ)
    → addr ≢ []
    → Lacks colon addr
    → port ≢ []
    → Lacks colon port
    → parse_locator (tcp_text ++ slash ∷ addr ++ colon ∷ port) ≡ tcp addr port
unfolding parse_locator parse_address parse_port same
parse_locator-tcp addr port some_addr plain some_port plain' = rw (
  parse_locator,
  strtok-Lacks slash tcp_text (addr ++ colon ∷ port) (λ e. cc)
      ((λ e. cc), ((λ e. cc), ((λ e. cc), tt))),
  parse_address,
  strtok-Lacks colon addr port some_addr plain,
  strtok-whole colon port some_port plain',
)

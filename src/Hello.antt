-- ===== src/Hello.antt =====
-- `scout` of src/BrokerZenoh.cpp, which src-pico/zenoh_session.cpp repeats: a search for zenoh
-- processes, which logs what it finds. The processes that zenoh answers with, its two constants and
-- `string_format` are parameters; a message of the log is an event.
pub mod Found
use zenoh_proxy.Prelude.{
  ℕ, ◌+◌, Option, none, some, List, [], ◌∷◌, ◌++◌, ◌==◌, if◌then◌else◌, bit_or,
}
use zenoh_proxy.Text.{hex_dump}

-- `zn_hello_t`; a process without an id has a NULL pointer there.
pub record Hello : Type 0 where
  pub whatami : ℕ
  pub pid : Option (List ℕ)
  pub locators : List (List ℕ)

-- The calls of zenoh, and the messages with their arguments.
pub data Event : Type 0 where
  config_default : Event
  insert_listener : List ℕ → Event
  zn_scout : ℕ → ℕ → Event
  hello_info : List ℕ → List ℕ → Event
  locator_info : List ℕ → Event
  hello_array_free : Event
  none_warn : Event

-- "tcp/us-west.zenoh.io:7447"
abbrev pub us_west : List ℕ
us_west =
    116 ∷ 99 ∷ 112 ∷ 47 ∷ 117 ∷ 115 ∷ 45 ∷ 119 ∷ 101 ∷ 115 ∷ 116 ∷ 46 ∷ 122 ∷ 101 ∷ 110 ∷ 111 ∷ 104
    ∷ 46 ∷ 105 ∷ 111 ∷ 58 ∷ 55 ∷ 52 ∷ 52 ∷ 55 ∷ []

-- "ZN_ROUTER", "ZN_PEER" and "OTHER"
abbrev pub router_text : List ℕ
router_text = 90 ∷ 78 ∷ 95 ∷ 82 ∷ 79 ∷ 85 ∷ 84 ∷ 69 ∷ 82 ∷ []

abbrev pub peer_text : List ℕ
peer_text = 90 ∷ 78 ∷ 95 ∷ 80 ∷ 69 ∷ 69 ∷ 82 ∷ []

abbrev pub other_text : List ℕ
other_text = 79 ∷ 84 ∷ 72 ∷ 69 ∷ 82 ∷ []

-- A `pid` that is not given is an empty vector.
unfoldable pub pid_bytes : Option (List ℕ) → List ℕ
pid_bytes none = []
pid_bytes (some bs) = bs

unfoldable pub locators_loop : List (List ℕ) → List Event
locators_loop [] = []
locators_loop (l ∷ ls) = locator_info l ∷ locators_loop ls

module _ (zn_router zn_peer : ℕ) (size_text : List ℕ → List ℕ) where
  unfoldable pub kind_text : ℕ → List ℕ
  kind_text whatami =
      if whatami == zn_router
      then router_text
      else if whatami == zn_peer
      then peer_text
      else other_text

  unfoldable pub hellos_loop : List Hello → List Event
  hellos_loop [] = []
  hellos_loop (h ∷ hs) =
      hello_info (kind_text h.whatami) (hex_dump size_text [] (pid_bytes h.pid))
        ∷ locators_loop h.locators
      ++ hellos_loop hs

  -- What is done with the answer: an empty array is not freed.
  unfoldable pub report : List Hello → List Event
  report [] = none_warn ∷ []
  report (h ∷ hs) = hellos_loop (h ∷ hs) ++ hello_array_free ∷ []

  -- The events, and the result.
  unfoldable pub scout : List Hello → List Event × ℕ
  scout hellos = (
    config_default
        ∷ insert_listener us_west
        ∷ zn_scout (bit_or zn_router zn_peer) 3000
        ∷ report hellos,
    0,
  )

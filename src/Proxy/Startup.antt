-- ===== src/Proxy/Startup.antt =====
-- The start of src/proxy.cpp: `loadConfig`, what `main` does to the serial session before the thread
-- runs, and the handler of the session's `connected`. The JSON library is a parameter: what it gives
-- for a text and for a number that may be missing; so is `atoi`.
use zenoh_proxy.Prelude.{ℕ, Bool, true, false, Option, none, some, List, [], ◌∷◌, ◌≡◌, ◌≢◌, ◌⊎◌}
use zenoh_proxy.Serial.{Os, minus_one}
use zenoh_proxy.Serial.Connect.{FailuresSet}
use zenoh_proxy.Sessions.{is_read}
use zenoh_proxy.Sessions.Line.{SerialSession, init, connect, connect-watches}
use zenoh_proxy.Broker.{BrokerZenoh, disconnect}

-- `config["serial"]`
pub record Settings : Type 0 where
  pub port : Option (List ℕ)
  pub baudrate : Option ℕ

-- From the arguments, the first of which is the name of the program.
unfoldable pub load_config : (List ℕ → ℕ) → List (List ℕ) → Settings
load_config atoi [] = record { port = none; baudrate = none }
load_config atoi (program ∷ []) = record { port = none; baudrate = none }
load_config atoi (program ∷ port ∷ []) = record { port = some port; baudrate = none }
load_config atoi (program ∷ port ∷ rate ∷ rest) = record {
  port = some port;
  baudrate = some (atoi rate);
}

-- The constructor of `SerialSession`, as far as the settings are concerned.
unfoldable pub configure :
    (as_string : Option (List ℕ) → List ℕ) (as_number : Option ℕ → ℕ)
    → Settings
    → SerialSession
    → SerialSession
configure as_string as_number c s = record s {
  port = as_string c.port;
  baudrate = as_number c.baudrate;
}

-- `serial.init` and `serial.connect`, whose results are not used.
unfoldable pub start : Os → (ℕ → ℕ) → SerialSession → SerialSession
start os symbol s = (connect os (init symbol s).0).0

unfoldable pub on_serial_connected : Bool → BrokerZenoh → BrokerZenoh
on_serial_connected true b = b
on_serial_connected false b = (disconnect b).0

-- If failing calls set errno: `main` goes on, and either the port is connected and the thread watches
-- its descriptor, or the thread watches descriptor -1.
pub start-watches :
    (os : Os) (symbol : ℕ → ℕ) (s : SerialSession)
    → FailuresSet os
    → let s' = start os symbol s in
      ((s'.serial_port.connected ≡ true)
        × (s'.serial_port.fd ≢ minus_one)
        × (is_read s'.serial_port.fd s'.watches ≡ true))
      ⊎ ((s'.serial_port.fd ≡ minus_one)
          × (s'.serial_port.connected ≡ (init symbol s).0.serial_port.connected)
          × (is_read minus_one s'.watches ≡ true))
unfolding start
start-watches os symbol s lawful = (connect-watches os (init symbol s).0 lawful).1

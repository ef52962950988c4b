-- ===== src/Serial/Tests.antt =====
-- Runs of the serial port against systems that answer in a fixed way.
use zenoh_proxy.Prelude.Prefix.{starts_with}
use zenoh_proxy.Prelude.{
  ℕ, suc, true, List, [], ◌∷◌, ◌++◌, ◌≡◌, ◌≢◌, ◌⊎◌, inl, refl, arith, some, ◌+◌,
}
use zenoh_proxy.Serial.{
  Serial, Call, Answer, Os, sys_open, sys_isatty, sys_cfsetspeed, negative, sys_tcgetattr,
  sys_tcsetattr, sys_close, sys_read, sys_tcdrain, sys_fsync, sys_tcflush, ioctl_tiocmget,
  ioctl_tiocmbis, ioctl_tiocmbic, sys_nanosleep, sys_write, construct, set_port, connect, minus_one,
  eagain,
}
use zenoh_proxy.Serial.Names.{after_last_slash, short_name, dev_tty}
use zenoh_proxy.Serial.Receive.{Drains, rxd, rxd-received, received}
use zenoh_proxy.Serial.Transmit.{txd, txd-written, Sends}
use zenoh_proxy.Serial.Connect.{FailuresSet, connect-outcome, failures, opened, closed}

abbrev usb : List ℕ
usb = 85 ∷ 83 ∷ 66 ∷ 48 ∷ []

-- A path `x/USB0`, and /dev/ttyUSB0.
short_name_of_tty : short_name (dev_tty ++ usb) ≡ usb
unfolding short_name starts_with after_last_slash
short_name_of_tty = refl

-- The system opens descriptor 5, is not a terminal, and takes two bytes of each write.
abbrev answer_of : Call → Answer
answer_of (sys_open path) = record { rc = 5; err = 0; input = [] }
answer_of (sys_isatty fd) = record { rc = 0; err = 25; input = [] }
answer_of (sys_write fd bs) = record { rc = 2; err = 0; input = [] }
answer_of c = record { rc = 0; err = 0; input = [] }

-- Reads: three bytes by the first call, then EAGAIN.
abbrev pub source : Os
source [] c = record { rc = 3; err = 0; input = 7 ∷ 8 ∷ 9 ∷ [] }
source (d ∷ ds) c = record { rc = minus_one; err = eagain; input = [] }

abbrev pub up : Serial
up = record (construct 115200) { fd = 5; connected = true }

abbrev pub pending : List Call → ℕ
pending [] = 1
pending (c ∷ cs) = 0

pub source-Drains : Drains source pending 5
source-Drains [] good nonzero = omega arith
source-Drains (c ∷ cs) good nonzero = cc

rxd-received_example :
    (s' : Serial) × (out : List ℕ) × (e : ℕ) × (rxd source 2 up ≡ some (s', out, e))
    × (received source s'.calls ≡ received source up.calls ++ out)
unfolding construct
rxd-received_example = rxd-received source pending 2 up refl source-Drains (omega arith)

abbrev two_each : Os
two_each cs c = answer_of c

txd-written_example :
    (r : Serial × ℕ) × (txd two_each 3 (1 ∷ 2 ∷ 3 ∷ []) up ≡ some r)
    × Sends two_each (1 ∷ 2 ∷ 3 ∷ []) up r
txd-written_example =
    txd-written two_each (1 ∷ 2 ∷ 3 ∷ []) up refl (λ cs b bs. inl (refl, omega arith)) (omega arith)

abbrev obeys : Os
obeys cs c = record { rc = 0; err = 0; input = [] }

-- A terminal that does not take the speed; the other calls succeed and leave errno alone.
abbrev broken : Os
broken cs (sys_open path) = record { rc = 5; err = 0; input = [] }
broken cs (sys_isatty fd) = record { rc = 1; err = 0; input = [] }
broken cs (sys_cfsetspeed speed) = record { rc = minus_one; err = 22; input = [] }
broken cs c = record { rc = 0; err = 0; input = [] }

broken-FailuresSet : FailuresSet broken
broken-FailuresSet = (broken_negative, λ cs fd none_set. cc)
  where
    broken_negative :
        (cs : List Call) (c : Call) → negative (broken cs c).rc ≡ true → (broken cs c).err ≢ 0
    broken_negative cs (sys_cfsetspeed speed) bad = omega arith
    broken_negative cs (sys_open path) bad = cc
    broken_negative cs (sys_isatty fd) bad = cc
    broken_negative cs (sys_tcgetattr fd) bad = cc
    broken_negative cs (sys_tcsetattr fd speed) bad = cc
    broken_negative cs (sys_close fd) bad = cc
    broken_negative cs (sys_read fd) bad = cc
    broken_negative cs (sys_write fd bs) bad = cc
    broken_negative cs (sys_tcdrain fd) bad = cc
    broken_negative cs (sys_fsync fd) bad = cc
    broken_negative cs (sys_tcflush fd) bad = cc
    broken_negative cs (ioctl_tiocmget fd) bad = cc
    broken_negative cs (ioctl_tiocmbis fd pin) bad = cc
    broken_negative cs (ioctl_tiocmbic fd pin) bad = cc
    broken_negative cs (sys_nanosleep sec nsec) bad = cc

connect-outcome_example :
    let s = set_port usb (construct 115200) in
    let r = connect broken s in
    ((r.1 ≡ 0)
      × (r.0.connected ≡ true)
      × (r.0.fd ≢ minus_one)
      × (opened broken r.0.calls ≡ 1 + opened broken s.calls)
      × (closed broken r.0.calls ≡ closed broken s.calls)
      × (failures broken r.0.calls ≡ failures broken s.calls))
    ⊎ ((r.1 ≢ 0)
        × (r.0.fd ≡ minus_one)
        × (r.0.connected ≡ s.connected)
        × (opened broken r.0.calls + closed broken s.calls
            ≡ opened broken s.calls + closed broken r.0.calls)
        × (failures broken r.0.calls ≡ suc (failures broken s.calls)))
connect-outcome_example =
    connect-outcome broken broken-FailuresSet (set_port usb (construct 115200))

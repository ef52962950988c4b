-- ===== src/Serial.antt =====
-- src/serial.cpp and serial.h: the class `Serial`, over the system calls of termios.
-- The system's answers are the environment's: `os` gives what a call returns and what it does to
-- `errno`, from the calls before it, the newest first. An `int` is its 32-bit pattern, a string or a
-- buffer the list of its bytes.
pub mod Rates
pub mod Connect
pub mod Transmit
pub mod Receive
pub mod Modes
pub mod Names
pub mod Tests
use zenoh_proxy.Prelude.{
  ℕ, Bool, true, false, Option, none, some, List, [], ◌∷◌, ◌++◌, ◌==◌, ltb, leb, if◌then◌else◌,
  ◌&&◌, ◌||◌, length, take, drop, zero, suc, ◌*◌, ◌/◌, ◌%◌,
}

-- The system calls of the class; the flags of `ioctl` are the pins they name.
pub data Pin : Type 0 where
  dtr : Pin
  rts : Pin

pub data Call : Type 0 where
  sys_open : List ℕ → Call
  sys_isatty : ℕ → Call
  sys_tcgetattr : ℕ → Call
  sys_cfsetspeed : ℕ → Call
  sys_tcsetattr : ℕ → ℕ → Call
  sys_close : ℕ → Call
  sys_read : ℕ → Call
  sys_write : ℕ → List ℕ → Call
  sys_tcdrain : ℕ → Call
  sys_fsync : ℕ → Call
  sys_tcflush : ℕ → Call
  ioctl_tiocmget : ℕ → Call
  ioctl_tiocmbis : ℕ → Pin → Call
  ioctl_tiocmbic : ℕ → Pin → Call
  sys_nanosleep : ℕ → ℕ → Call

-- What a call returns, the value it gives `errno` (0 if it leaves `errno` alone), and, for a read, the
-- bytes that it puts into the buffer.
pub record Answer : Type 0 where
  pub rc : ℕ
  pub err : ℕ
  pub input : List ℕ

abbrev pub Os : Type 0
Os = List Call → Call → Answer

-- `Serial`, with `errno` and the calls that have been made.
pub record Serial : Type 0 where
  pub port : List ℕ
  pub baudrate : ℕ
  pub fd : ℕ
  pub connected : Bool
  pub errno : ℕ
  pub calls : List Call

abbrev pub minus_one : ℕ
minus_one = 0xffff_ffff

-- The test `rc < 0`.
abbrev pub negative : ℕ → Bool
negative n = leb 0x8000_0000 n

abbrev pub enotconn : ℕ
enotconn = 107

-- EAGAIN and EWOULDBLOCK are one number on Linux.
abbrev pub eagain : ℕ
eagain = 11

-- The constructor; `_connected` starts as false.
unfoldable pub construct : ℕ → Serial
construct b115200 = record {
  port = [];
  baudrate = b115200;
  fd = minus_one;
  connected = false;
  errno = 0;
  calls = [];
}

pub set_port : List ℕ → Serial → Serial
set_port port s = record s { port = port }

module _ (os : Os) where
  -- A call goes into the list, and may set `errno`.
  abbrev pub sys : Call → Serial → Serial
  sys c s = record s {
    errno = if (os s.calls c).err == 0 then s.errno else (os s.calls c).err;
    calls = c ∷ s.calls;
  }

  abbrev pub rc_of : Call → Serial → ℕ
  rc_of c s = (os s.calls c).rc

  -- `modeInfo` only logs what it reads.
  pub mode_info : Serial → Serial × ℕ
  mode_info s = (sys (ioctl_tiocmget s.fd) s, 0)

  -- The end of each error path of `connect`: errno is read after `close`.
  pub give_up : Serial → Serial × ℕ
  give_up s =
      let closed : Serial = sys (sys_close s.fd) s in
      (record closed { fd = minus_one }, closed.errno)

  -- `connect` from `tcsetattr`, from `cfsetspeed`, from `tcgetattr`, from `isatty` and as a whole.
  pub connect_attributes : Serial → Serial × ℕ
  unfolding give_up mode_info
  connect_attributes s =
      let c : Call = sys_tcsetattr s.fd s.baudrate in
      let set : Serial = sys c s in
      if negative (rc_of c s)
      then give_up set
      else ((mode_info (record set { connected = true })).0, 0)

  pub connect_speed : Serial → Serial × ℕ
  unfolding give_up connect_attributes
  connect_speed s =
      let c : Call = sys_cfsetspeed s.baudrate in
      if negative (rc_of c s) then give_up (sys c s) else connect_attributes (sys c s)

  pub connect_options : Serial → Serial × ℕ
  unfolding give_up connect_speed
  connect_options s =
      let c : Call = sys_tcgetattr s.fd in
      if negative (rc_of c s) then give_up (sys c s) else connect_speed (sys c s)

  pub connect_tty : Serial → Serial × ℕ
  unfolding give_up connect_options
  connect_tty s =
      let c : Call = sys_isatty s.fd in
      if rc_of c s == 0 then give_up (sys c s) else connect_options (sys c s)

  pub connect : Serial → Serial × ℕ
  unfolding connect_tty
  connect s =
      let c : Call = sys_open s.port in
      let opened : Serial = record (sys c s) { fd = rc_of c s } in
      if opened.fd == minus_one
      then (record opened { fd = minus_one }, opened.errno)
      else connect_tty opened

  pub disconnect : Serial → Serial × ℕ
  disconnect s =
      let c : Call = sys_close s.fd in
      let closed : Serial = record (sys c s) { fd = minus_one; connected = false } in
      if negative (rc_of c s) then (closed, closed.errno) else (closed, 0)

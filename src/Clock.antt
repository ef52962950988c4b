-- ===== src/Clock.antt =====
-- src/Sys.cpp: the clock and the name of the host. The monotonic clock of the system is a parameter:
-- seconds and nanoseconds, by the number of the reading.
pub mod Kept
pub mod Tests
use zenoh_proxy.Prelude.{
  ℕ, ◌+◌, ◌-◌, ◌*◌, ◌/◌, ◌%◌, ◌^◌, Option, none, some, List, [], ◌∷◌, ◌++◌, ltb, leb, ◌==◌, take,
  drop, length, if◌then◌else◌, zero, suc,
}
use zenoh_proxy.Cbor.Deserializer

-- The static members; `_hostname` is an array of 30 characters.
pub record Sys : Type 0 where
  pub up_time : ℕ
  pub boot_time : ℕ
  pub host : List ℕ
  pub clock_reads : ℕ

abbrev pub host_size : ℕ
host_size = 30

-- `strncpy`: at most n characters, filled up with zeros.
unfoldable pub strncpy : ℕ → List ℕ → List ℕ
strncpy zero cs = []
strncpy (suc n) [] = 0 ∷ strncpy n []
strncpy (suc n) (c ∷ cs) = c ∷ strncpy n cs

-- A string in an array, up to its zero; without one the end of the array is passed.
unfoldable pub read_string : List ℕ → Option (List ℕ)
read_string [] = none
read_string (c ∷ cs) =
    let rest = read_string cs in
    if c == 0 then some [] else elim rest [ none ↦ none | some text ↦ some (c ∷ text) ]

-- `init`: the array as `gethostname`, a parameter, leaves it.
unfoldable pub init : (ℕ → List ℕ) → Sys → Sys
init gethostname s = record s { host = gethostname host_size }

-- `hostname(const char *)` and `hostname()`
unfoldable pub set_hostname_of : List ℕ → Sys → Sys
set_hostname_of name s = record s { host = strncpy host_size name }

unfoldable pub hostname : Sys → Option (List ℕ)
hostname s = read_string s.host

-- `setHostname` copies the name and its zero, whatever the size of the array is; `none` when it writes
-- behind it.
unfoldable pub set_hostname : List ℕ → Sys → Option Sys
set_hostname name s =
    if ltb (length name) host_size
    then some (record s { host = name ++ 0 ∷ drop (length name + 1) s.host })
    else none

-- `delay`: the microseconds, of 32 bits, for `usleep`.
unfoldable pub delay : ℕ → ℕ
delay time = time * 1000 % 2 ^ 32

module _ (clock : ℕ → ℕ × ℕ) where
  unfoldable pub millis : Sys → Sys × ℕ
  millis s =
      let (sec, nsec) = clock s.clock_reads in
      let up = (sec * 1000 + nsec / 1000000) % 2 ^ 64 in
      (record s { up_time = up; clock_reads = s.clock_reads + 1 }, up)

  unfoldable pub now : Sys → Sys × ℕ
  now s = let (s', up) = millis s in (s', (s'.boot_time + up) % 2 ^ 64)

  unfoldable pub set_now : ℕ → Sys → Sys
  set_now n s = let (s', up) = millis s in record s' { boot_time = (n + 2 ^ 64 - up) % 2 ^ 64 }

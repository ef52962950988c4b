-- ===== src/Sample.antt =====
-- src_client/serial_client.cpp: a program that declares a publisher over zenoh-pico and writes a
-- numbered text every second. The answers of zenoh-pico are the environment's. The loop has no end; it
-- is run for a number of turns. Undefined behaviour, a text that is longer than its buffer or the
-- overflow of the counter, is `none`.
pub mod Decimal
pub mod Written
pub mod Tests
use zenoh_proxy.Prelude.{
  ℕ, zero, suc, ◌+◌, ◌-◌, ◌^◌, Option, none, some, List, [], ◌∷◌, ◌++◌, ltb, ◌==◌, if◌then◌else◌,
  length,
}
use zenoh_proxy.Cbor.Deserializer.{c_string}
use zenoh_proxy.Sample.Decimal.{decimal}

-- What the program calls, but for what it prints.
pub data Call : Type 0 where
  zn_config_default : Call
  zn_properties_insert : ℕ → List ℕ → Call
  zn_open : ℕ → Call
  znp_start_read_task : ℕ → Call
  znp_start_lease_task : ℕ → Call
  zn_declare_resource : ℕ → List ℕ → Call
  zn_declare_publisher : ℕ → ℕ → Call
  sys_sleep : ℕ → Call
  zn_write : ℕ → ℕ → List ℕ → Call

-- "/demo/example/zenoh-pico-pub" and "Pub from pico!"
abbrev pub uri_default : List ℕ
uri_default =
    47 ∷ 100 ∷ 101 ∷ 109 ∷ 111 ∷ 47 ∷ 101 ∷ 120 ∷ 97 ∷ 109 ∷ 112 ∷ 108 ∷ 101 ∷ 47 ∷ 122 ∷ 101 ∷ 110
    ∷ 111 ∷ 104 ∷ 45 ∷ 112 ∷ 105 ∷ 99 ∷ 111 ∷ 45 ∷ 112 ∷ 117 ∷ 98 ∷ []

abbrev pub value_default : List ℕ
value_default = 80 ∷ 117 ∷ 98 ∷ 32 ∷ 102 ∷ 114 ∷ 111 ∷ 109 ∷ 32 ∷ 112 ∷ 105 ∷ 99 ∷ 111 ∷ 33 ∷ []

-- `argv[n]`, or the default where there are no more than n of them.
unfoldable pub argument : ℕ → List ℕ → List (List ℕ) → List ℕ
argument n default [] = default
argument zero default (arg ∷ args) = arg
argument (suc n) default (arg ∷ args) = argument n default args

unfoldable pub spaces : ℕ → List ℕ
spaces zero = []
spaces (suc n) = 32 ∷ spaces n

-- "%4d" of a number that is not negative.
unfoldable pub padded : ℕ → List ℕ
padded n = let shown = decimal n in spaces (4 - length shown) ++ shown

-- "[%4d] %s"
unfoldable pub text_of : ℕ → List ℕ → List ℕ
text_of idx value = 91 ∷ padded idx ++ 93 ∷ 32 ∷ value

-- The size of `buf`.
abbrev pub buf_size : ℕ
buf_size = 256

-- The loop, for some turns from the counter `idx` on. The text takes one more byte, its zero.
unfoldable pub write_loop : ℕ → ℕ → ℕ → ℕ → List ℕ → List Call → Option (List Call)
write_loop zero idx s reskey value cs = some cs
write_loop (suc turns) idx s reskey value cs =
    let text : List ℕ = text_of idx value in
    let written : List Call = zn_write s reskey (c_string text) ∷ sys_sleep 1 ∷ cs in
    let rest = write_loop turns (suc idx) s reskey value written in
    if ltb (length text) buf_size then (if ltb (suc idx) (2 ^ 31) then rest else none) else none

-- How the program stands: `exit(-1)`, or in its loop; with its calls, the newest first.
pub data Stand : Type 0 where
  exited : List Call → Stand
  in_loop : List Call → Stand
  undefined : Stand

unfoldable pub looping : Option (List Call) → Stand
looping none = undefined
looping (some cs) = in_loop cs

-- What is returned, from the calls before.
module _ (answer : List Call → Call → ℕ) where
  -- The configuration: a peer, if there is an `argv[3]`.
  unfoldable pub peer_config : List (List ℕ) → ℕ × List Call
  peer_config argv =
      let config : ℕ = answer [] zn_config_default in
      let cs : List Call = zn_config_default ∷ [] in
      (
        config,
        if ltb 3 (length argv) then zn_properties_insert config (argument 3 [] argv) ∷ cs else cs,
      )

  -- From `zn_open` to `zn_declare_publisher`, if there is a session: the resource and the calls.
  unfoldable pub declare_uri : List ℕ → ℕ → List Call → ℕ × List Call
  declare_uri uri s cs =
      let cs₁ : List Call = znp_start_lease_task s ∷ znp_start_read_task s ∷ cs in
      (answer cs₁ (zn_declare_resource s uri), zn_declare_resource s uri ∷ cs₁)

  -- `main`, with the loop run for some turns.
  unfoldable pub main : ℕ → List (List ℕ) → Stand
  main turns argv =
      let (config, cs) = peer_config argv in
      let s : ℕ = answer cs (zn_open config) in
      let (rid, cs₁) = declare_uri (argument 1 uri_default argv) s (zn_open config ∷ cs) in
      let publ : ℕ = answer cs₁ (zn_declare_publisher s rid) in
      let cs₂ : List Call = zn_declare_publisher s rid ∷ cs₁ in
      if s == 0
      then exited (zn_open config ∷ cs)
      else (if publ == 0
          then exited cs₂
          else looping (write_loop turns 0 s rid (argument 2 value_default argv) cs₂))

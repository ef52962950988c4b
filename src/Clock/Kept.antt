-- ===== src/Clock/Kept.antt =====
-- That src/Sys.cpp keeps the time and the name that it is given.
use zenoh_proxy.Prelude.{
  ℕ, ◌+◌, ◌-◌, ◌*◌, ◌/◌, ◌%◌, ◌^◌, ◌≤◌, ◌<◌, ◌≡◌, refl, none, some, List, [], ◌∷◌, ◌++◌, length,
  arith, zero, suc, ne→==, ltb, lt→ltb, le→ltb, if◌then◌else◌, Bool-cases, inl, inr,
}
use zenoh_proxy.Cbor.Reads.{NoNul}
use zenoh_proxy.Clock.{
  Sys, host_size, strncpy, read_string, set_hostname_of, hostname, set_hostname, millis, now,
  set_now,
}

-- The milliseconds of a reading.
abbrev pub reading : (ℕ → ℕ × ℕ) → ℕ → ℕ
reading clock k = ((clock k).0 * 1000 + (clock k).1 / 1000000) % 2 ^ 64

-- `now` after `setNow` gives the time that was set and the milliseconds that have passed since, modulo
-- 2^64, if the clock does not run backwards.
pub now-set_now :
    (clock : ℕ → ℕ × ℕ) (n : ℕ) (s : Sys)
    → n < 2 ^ 64
    → reading clock s.clock_reads ≤ reading clock (s.clock_reads + 1)
    → (now clock (set_now clock n s)).1
      ≡ (n + (reading clock (s.clock_reads + 1) - reading clock s.clock_reads)) % 2 ^ 64
unfolding now set_now millis
now-set_now clock n s small forward = omega (arith, small, forward)

read_string-nul : (name rest : List ℕ) → NoNul name → read_string (name ++ 0 ∷ rest) ≡ some name
unfolding read_string
read_string-nul [] rest h = refl
read_string-nul (c ∷ cs) rest h = rw (ne→== c 0 h.0, read_string-nul cs rest h.1)

ltb-suc : (a b : ℕ) → ltb (suc a) (suc b) ≡ ltb a b
ltb-suc a b = ground arith

read_string-strncpy :
    (n : ℕ) (name : List ℕ)
    → NoNul name
    → read_string (strncpy n name) ≡ (if ltb (length name) n then some name else none)
unfolding read_string strncpy
read_string-strncpy zero [] h = refl
read_string-strncpy zero (c ∷ cs) h = rw (le→ltb (suc (length cs)) 0 (omega arith)) refl
read_string-strncpy (suc n) [] h = rw (lt→ltb 0 (suc n) (omega arith)) refl
read_string-strncpy (suc n) (c ∷ cs) h =
    rw (ne→== c 0 h.0, read_string-strncpy n cs h.1, ltb-suc (length cs) n)
      (elim (Bool-cases (ltb (length cs) n)) [ inl e ↦ rw e refl | inr e ↦ rw e refl ])

-- For a name without a zero byte: after `hostname(name)`, `hostname()` is the name if it has less than
-- 30 characters, and otherwise reads behind the array; `setHostname` sets the same, and writes behind
-- the array in the other case.
pub hostname-set_hostname :
    (name : List ℕ) (s : Sys)
    → NoNul name
    → (hostname (set_hostname_of name s)
        ≡ (if ltb (length name) host_size then some name else none))
      × (elim (set_hostname name s) [ none ↦ none | some s' ↦ hostname s' ]
          ≡ (if ltb (length name) host_size then some name else none))
unfolding hostname set_hostname_of set_hostname
hostname-set_hostname name s h = (
  read_string-strncpy host_size name h,
  elim (Bool-cases (ltb (length name) host_size)) [
    | inl e ↦ rw e (read_string-nul name _ h)
    | inr e ↦ rw e refl
  ],
)

-- ===== src/Clock/Tests.antt =====
-- A clock that ticks once a second, and two names.
use zenoh_proxy.Prelude.{ℕ, ◌≡◌, none, some, [], ◌∷◌, arith}
use zenoh_proxy.Clock.{Sys, set_hostname_of, hostname, set_hostname, now, set_now}
use zenoh_proxy.Clock.Kept.{now-set_now, hostname-set_hostname}

abbrev ticking : ℕ → ℕ × ℕ
ticking k = (k, 0)

abbrev booted : Sys
booted = record { up_time = 0; boot_time = 0; host = []; clock_reads = 3 }

one_second_later : (now ticking (set_now ticking 5000 booted)).1 ≡ 6000
one_second_later = now-set_now ticking 5000 booted (omega arith) (omega arith)

short_name_kept :
    (hostname (set_hostname_of (112 ∷ 99 ∷ []) booted) ≡ some (112 ∷ 99 ∷ []))
    × (elim (set_hostname (112 ∷ 99 ∷ []) booted) [ none ↦ none | some s ↦ hostname s ]
        ≡ some (112 ∷ 99 ∷ []))
short_name_kept = hostname-set_hostname (112 ∷ 99 ∷ []) booted (omega arith)

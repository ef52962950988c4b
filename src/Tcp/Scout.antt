-- ===== src/Tcp/Scout.antt =====
-- src-pico/tcp.cpp: `_zn_select_scout_iface`, which picks the address of a network interface for
-- scouting. The list is that of `getifaddrs`; the text that `getnameinfo` gives for an address comes
-- with it.
use zenoh_proxy.Prelude.{
  ◌∙◌, ◌⊎◌, ℕ, Bool, true, false, Option, none, some, List, [], ◌∷◌, ◌==◌, if◌then◌else◌, ◌&&◌,
  ◌||◌, not, ◌≡◌, refl, bit_and, inl, inr, ◌⊎◌, arith,
}
use zenoh_proxy.Prelude.Prefix.{starts_with}

-- `inet`: there is an address, and it is of the family AF_INET.
pub record Interface : Type 0 where
  pub inet : Bool
  pub name : List ℕ
  pub flags : ℕ
  pub host : List ℕ

-- "en" and "lo"
abbrev pub eth_prefix : List ℕ
eth_prefix = 101 ∷ 110 ∷ []

abbrev pub lo_prefix : List ℕ
lo_prefix = 108 ∷ 111 ∷ []

-- IFF_MULTICAST | IFF_UP | IFF_RUNNING, IFF_UP | IFF_RUNNING and IFF_PROMISC on Linux.
abbrev pub eth_flags : ℕ
eth_flags = 0x1041

abbrev pub lo_flags : ℕ
lo_flags = 0x41

abbrev pub promisc : ℕ
promisc = 0x100

-- `(flags & any) && !(flags & IFF_PROMISC)`: one flag of the mask is enough.
unfoldable pub has_flags : ℕ → ℕ → Bool
has_flags any flags = not (bit_and flags any == 0) && (bit_and flags promisc == 0)

-- The two pointers, as whether they are set, and the buffer to which both point.
pub record Scan : Type 0 where
  pub iface : Bool
  pub loopback : Bool
  pub host : List ℕ

unfoldable pub visit : Interface → Scan → Scan
visit i s =
    if i.inet
    then (if starts_with eth_prefix i.name
        then (if has_flags eth_flags i.flags then record s { iface = true; host = i.host } else s)
        else (if starts_with lo_prefix i.name && has_flags lo_flags i.flags
            then record s { loopback = true; host = i.host }
            else s))
    else s

-- The loop ends behind the last interface, or when `iface` is set.
unfoldable pub scan_loop : List Interface → Scan → Scan
scan_loop [] s = s
scan_loop (i ∷ rest) s =
    let s' = visit i s in let end = scan_loop rest s' in if s'.iface then s' else end

-- `null` is the pointer 0; `strdup` of it, or a look at the first of no interfaces, is undefined.
pub data Selection : Type 0 where
  null : Selection
  undefined : Selection
  selected : List ℕ → Selection

unfoldable pub duplicate : Scan → Selection
duplicate s = if s.iface || s.loopback then selected s.host else undefined

-- `none` for a failure of `getifaddrs`; the buffer is not initialised.
unfoldable pub select_scout_iface : Option (List Interface) → List ℕ → Selection
unfolding scan_loop duplicate
select_scout_iface none junk = null
select_scout_iface (some []) junk = undefined
select_scout_iface (some (i ∷ rest)) junk =
    duplicate (scan_loop (i ∷ rest) (record { iface = false; loopback = false; host = junk }))

-- The interfaces that serve, the ones before the others.
unfoldable pub is_ethernet : Interface → Bool
is_ethernet i = i.inet && starts_with eth_prefix i.name && has_flags eth_flags i.flags

unfoldable pub is_loopback : Interface → Bool
is_loopback i =
    i.inet
    && not (starts_with eth_prefix i.name)
    && starts_with lo_prefix i.name
    && has_flags lo_flags i.flags

unfoldable pub first_ethernet : List Interface → Option (List ℕ)
first_ethernet [] = none
first_ethernet (i ∷ rest) =
    let later = first_ethernet rest in if is_ethernet i then some i.host else later

unfoldable pub or_else : Option (List ℕ) → Option (List ℕ) → Option (List ℕ)
or_else (some h) b = some h
or_else none b = b

unfoldable pub last_loopback : List Interface → Option (List ℕ)
last_loopback [] = none
last_loopback (i ∷ rest) =
    or_else (last_loopback rest) (if is_loopback i then some i.host else none)

-- The host of the first, else of the second, else the third.
unfoldable pub prefer : Option (List ℕ) → Option (List ℕ) → Selection → Selection
prefer (some h) b c = selected h
prefer none (some h) c = selected h
prefer none none c = c

visit-cases :
    (i : Interface) (s : Scan)
    → s.iface ≡ false
    → ((is_ethernet i ≡ true) × (visit i s ≡ record s { iface = true; host = i.host }))
      ⊎ ((is_ethernet i ≡ false)
          × (is_loopback i ≡ true)
          × (visit i s ≡ record s { loopback = true; host = i.host }))
      ⊎ ((is_ethernet i ≡ false) × (is_loopback i ≡ false) × (visit i s ≡ s))
unfolding visit is_ethernet is_loopback
visit-cases i s off = ground arith

loopback_lem :
    (a b : Option (List ℕ)) (h : List ℕ) (s : Scan)
    → prefer a b (duplicate (record s { loopback = true; host = h }))
      ≡ prefer a (or_else b (some h)) (duplicate s)
unfolding prefer duplicate or_else
loopback_lem (some g) b h s = refl
loopback_lem none (some g) h s = refl
loopback_lem none none h s = ground arith

or_else-none : (b : Option (List ℕ)) → or_else b none ≡ b
unfolding or_else
or_else-none none = refl
or_else-none (some h) = refl

scan_loop_nil : (s : Scan) → duplicate (scan_loop [] s) ≡ prefer none none (duplicate s)
unfolding prefer scan_loop
scan_loop_nil s = refl

chosen :
    (h : List ℕ) (b : Option (List ℕ)) (s : Scan)
    → duplicate (record s { iface = true; host = h }) ≡ prefer (some h) b (duplicate s)
unfolding prefer duplicate
chosen h b s = refl

scan_loop-on :
    (i : Interface) (rest : List Interface) (s s' : Scan)
    → visit i s ≡ s'
    → s'.iface ≡ false
    → scan_loop (i ∷ rest) s ≡ scan_loop rest s'
unfolding scan_loop
scan_loop-on i rest s s' v off = rw v (simp (off) refl)

scan_loop-stop :
    (i : Interface) (rest : List Interface) (s s' : Scan)
    → visit i s ≡ s'
    → s'.iface ≡ true
    → scan_loop (i ∷ rest) s ≡ s'
unfolding scan_loop
scan_loop-stop i rest s s' v on = rw v (simp (on) refl)

scan_loop_lem :
    (is : List Interface) (s : Scan)
    → s.iface ≡ false
    → duplicate (scan_loop is s) ≡ prefer (first_ethernet is) (last_loopback is) (duplicate s)
unfolding first_ethernet last_loopback
scan_loop_lem [] s off = scan_loop_nil s
scan_loop_lem (i ∷ rest) s off = elim (visit-cases i s off) [
  | inl (eth, v) ↦ rw (eth, scan_loop-stop i rest s _ v refl) (chosen i.host _ s)
  | inr (inl (eth, lo, v)) ↦
      rw (eth, lo, scan_loop-on i rest s _ v off)
        (scan_loop_lem rest (record s { loopback = true; host = i.host }) off
          ∙ loopback_lem (first_ethernet rest) (last_loopback rest) i.host s)
  | inr (inr (eth, lo, v)) ↦
      rw (eth, lo, scan_loop-on i rest s _ v off, or_else-none (last_loopback rest))
        (scan_loop_lem rest s off)
]

-- Of the interfaces with an address, at least one, the address of the first one that begins with "en",
-- has a flag of the mask and is not promiscuous is chosen; if there is none, that of the last such one
-- that begins with "lo"; if there is none either, the program uses a NULL pointer.
pub select_scout_iface-prefer :
    (i : Interface) (rest : List Interface) (junk : List ℕ)
    → select_scout_iface (some (i ∷ rest)) junk
      ≡ prefer (first_ethernet (i ∷ rest)) (last_loopback (i ∷ rest)) undefined
unfolding select_scout_iface duplicate
select_scout_iface-prefer i rest junk =
    scan_loop_lem (i ∷ rest) (record { iface = false; loopback = false; host = junk }) refl

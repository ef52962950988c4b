-- ===== src/Ppp/Faults.antt =====
-- When `ppp_deframe` runs into `pop_back` on an empty vector.
use zenoh_proxy.Prelude.{
  ltb-false→le, ne→==, ℕ, suc, ◌+◌, ◌≤◌, ◌<◌, ◌≡◌, ◌≢◌, ◌↔◌, refl, inl, inr, false, none, some,
  List, [], ◌∷◌, length, length-append, arith, ltb, ltb→lt, ◌==◌, Bool-cases, if◌then◌else◌,
}
use zenoh_proxy.Fcs.{fcs_start}
use zenoh_proxy.Ppp.{
  ppp_mask_char, pop_check_bytes, bit_xor, ppp_deframe, ppp_flag_char, ppp_esc_char, Scan, at_end,
  scan, scan_byte, finish, pop_back, undefined,
}
use zenoh_proxy.Ppp.Shape.{NoFlag}

-- How many bytes of the input are no escape character.
pub plain_count : List ℕ → ℕ
plain_count [] = 0
plain_count (c ∷ cs) = if c == ppp_esc_char then plain_count cs else suc (plain_count cs)

length-scan_byte :
    (s : Scan) (c : ℕ)
    → length (scan_byte s c).out ≡ (if c == ppp_esc_char then length s.out else suc (length s.out))
unfolding scan_byte
length-scan_byte s c =
    ground (arith, length-append s.out (c ∷ []), length-append s.out (bit_xor c ppp_mask_char ∷ []))

-- Without a flag the loop runs to the end, and each byte that is no escape character leaves one.
record Ends (s : Scan) (cs : List ℕ) : Type 0 where
  last : Scan
  ends : scan s cs ≡ at_end last
  size : length last.out ≡ length s.out + plain_count cs

scan-Ends : (s : Scan) (cs : List ℕ) → NoFlag cs → Ends s cs
unfolding scan plain_count
scan-Ends s [] h = record { last = s; ends = refl; size = omega arith }
scan-Ends s (c ∷ cs) h =
    let rest = scan-Ends (scan_byte s c) cs h.1 in
    record {
      last = rest.last;
      ends = rw (ne→== c ppp_flag_char h.0, scan) rest.ends;
      size = ground (arith, rest.size, length-scan_byte s c);
    }

-- What two calls of `pop_back` do, by the number of bytes.
pop_back-some :
    (x : ℕ) (xs : List ℕ) → (ys : List ℕ) × (pop_back (x ∷ xs) ≡ some ys) × (length ys ≡ length xs)
unfolding pop_back
pop_back-some x [] = ([], refl, refl)
pop_back-some x (y ∷ r) =
    let rest = pop_back-some y r in (x ∷ rest.0, rw rest.1, omega (arith, rest.2))

pop_back-ne-none : (xs : List ℕ) → 1 ≤ length xs → pop_back xs ≢ none
pop_back-ne-none [] h e = absurd (omega arith)
pop_back-ne-none (x ∷ xs) h e = cc ((pop_back-some x xs).1)

pop_check_bytes-none_iff : (out : List ℕ) → (pop_check_bytes out ≡ none) ↔ (length out < 2)
unfolding pop_check_bytes pop_back
pop_check_bytes-none_iff [] = (λ e. omega arith, λ h. refl)
pop_check_bytes-none_iff (x ∷ []) = (λ e. omega arith, λ h. refl)
pop_check_bytes-none_iff (x ∷ y ∷ r) =
    let last = pop_back-some x (y ∷ r) in
    (
      λ e.
          absurd
            (pop_back-ne-none last.0 (omega (arith, last.2)) (rw (last.1, pop_check_bytes) at e)),
      λ h. absurd (omega arith),
    )

finish-undefined_iff : (s : Scan) → (finish (at_end s) ≡ undefined) ↔ (length s.out < 2)
unfolding finish
finish-undefined_iff s = ground (arith, pop_check_bytes-none_iff s.out)

undefined-NoFlag : (s : Scan) (cs : List ℕ) → finish (scan s cs) ≡ undefined → NoFlag cs
unfolding scan finish
undefined-NoFlag s [] e = tt
undefined-NoFlag s (c ∷ cs) e = elim (Bool-cases (c == ppp_flag_char)) [
  | inl f ↦ cc (rw (f, scan, finish) at e)
  | inr f ↦ (ground arith, undefined-NoFlag (scan_byte s c) cs (rw (f, scan) at e))
]

finish-scan_iff :
    (s : Scan) (cs : List ℕ)
    → (finish (scan s cs) ≡ undefined) ↔ (NoFlag cs × (length s.out + plain_count cs < 2))
finish-scan_iff s cs = (
  λ e.
      let free = undefined-NoFlag s cs e in
      let run = scan-Ends s cs free in
      (free, omega (arith, run.size, (finish-undefined_iff run.last).0 (rw run.ends at e))),
  λ h.
      let run = scan-Ends s cs h.0 in
      rw run.ends ((finish-undefined_iff run.last).1 (omega (arith, run.size))),
)

-- `ppp_deframe` is undefined exactly on the inputs of three bytes or more that hold no flag and at
-- most one byte other than the escape character.
pub ppp_deframe-undefined :
    (input : List ℕ)
    → (ppp_deframe input ≡ undefined)
      ↔ ((3 ≤ length input) × NoFlag input × (plain_count input < 2))
unfolding ppp_deframe
ppp_deframe-undefined input =
    let start : Scan = record { out = []; esc_flag = false; fcs = fcs_start } in
    elim (Bool-cases (ltb (length input) 3)) [
      | inl short ↦ (
        λ e. cc (rw (short, ppp_deframe) at e),
        λ h. absurd (omega (arith, ltb→lt _ _ short, h.0)),
      )
      | inr long ↦ (
        λ e.
            let both = (finish-scan_iff start input).0 (rw (long, ppp_deframe) at e) in
            (omega (arith, ltb-false→le _ _ long), both.0, omega (arith, both.1)),
        λ h. rw long ((finish-scan_iff start input).1 (h.1, omega (arith, h.2))),
      )
    ]

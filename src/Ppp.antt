-- ===== src/Ppp.antt =====
-- common/ppp_frame.cpp and ppp_frame.h: byte stuffing with a check sequence, `ppp_frame` and
-- `ppp_deframe`.
pub mod Stuffing
pub mod RoundTrip
pub mod Corruption
pub mod Shape
pub mod Faults
pub mod Tests
use zenoh_proxy.Prelude.{
  ℕ, ◌/◌, ◌%◌, bit_xor, Bool, true, false, ◌||◌, ◌&&◌, not, Option, none, some, List, [], ◌∷◌, ◌++◌,
  length, ltb, ◌==◌, if◌then◌else◌,
}
use mathlib.Core.Option
use zenoh_proxy.Fcs.{fcs_start, write, result}

abbrev pub ppp_mask_char : ℕ
ppp_mask_char = 0x20

abbrev pub ppp_esc_char : ℕ
ppp_esc_char = 0x7d

abbrev pub ppp_flag_char : ℕ
ppp_flag_char = 0x7e

-- `push_back` on a vector.
abbrev pub push_back : List ℕ → ℕ → List ℕ
push_back out c = out ++ c ∷ []

-- `addEscaped`.
unfoldable pub add_escaped : List ℕ → ℕ → List ℕ
add_escaped out c =
    if c == ppp_esc_char || c == ppp_flag_char
    then push_back (push_back out ppp_esc_char) (bit_xor c ppp_mask_char)
    else push_back out c

-- The loop of `ppp_frame`: the bytes so far and the register.
unfoldable pub frame_loop : List ℕ → ℕ → List ℕ → List ℕ × ℕ
frame_loop out fcs [] = (out, fcs)
frame_loop out fcs (c ∷ cs) = frame_loop (add_escaped out c) (write fcs c) cs

unfoldable pub ppp_frame : List ℕ → List ℕ
ppp_frame input =
    let (out, fcs) = frame_loop (ppp_flag_char ∷ []) fcs_start input in
    push_back (add_escaped (add_escaped out (result fcs % 256)) (result fcs / 256)) ppp_flag_char

-- The local variables of the loop of `ppp_deframe`.
pub record Scan : Type 0 where
  pub out : List ℕ
  pub esc_flag : Bool
  pub fcs : ℕ

-- The loop ends at the last byte, or returns early at a flag.
pub data ScanEnd : Type 0 where
  at_end : Scan → ScanEnd
  at_flag : List ℕ → ScanEnd

-- One round of the loop, for a byte that is no flag.
pub scan_byte : Scan → ℕ → Scan
scan_byte s c =
    if c == ppp_esc_char
    then record s { esc_flag = true }
    else if s.esc_flag
    then record {
      out = push_back s.out (bit_xor c ppp_mask_char);
      esc_flag = false;
      fcs = write s.fcs (bit_xor c ppp_mask_char);
    }
    else record s { out = push_back s.out c; fcs = write s.fcs c }

pub scan : Scan → List ℕ → ScanEnd
unfolding scan_byte
scan s [] = at_end s
scan s (c ∷ cs) = elim (c == ppp_flag_char) [
  | true ↦ at_flag s.out
  | false ↦ scan (scan_byte s c) cs
]

-- `pop_back`; on an empty vector it is undefined, which is `none`.
pub pop_back : List ℕ → Option (List ℕ)
pop_back [] = none
pop_back (x ∷ []) = some []
pop_back (x ∷ y ∷ r) = Option.map (◌∷◌ x) (pop_back (y ∷ r))

-- The two `pop_back` calls behind the loop.
pub pop_check_bytes : List ℕ → Option (List ℕ)
unfolding pop_back
pop_check_bytes out = elim (pop_back out) [ none ↦ none | some once ↦ pop_back once ]

-- The result of `ppp_deframe` and what it leaves in `out`.
pub data Deframed : Type 0 where
  returns : Bool → List ℕ → Deframed
  undefined : Deframed

-- What follows the loop.
pub finish : ScanEnd → Deframed
unfolding pop_check_bytes
finish (at_flag out) = returns false out
finish (at_end s) = elim (pop_check_bytes s.out) [
  | none ↦ undefined
  | some out ↦ returns (not s.esc_flag && result s.fcs == 0x0f47) out
]

unfoldable pub ppp_deframe : List ℕ → Deframed
unfolding scan finish
ppp_deframe input =
    if ltb (length input) 3
    then returns false []
    else finish (scan (record { out = []; esc_flag = false; fcs = fcs_start }) input)

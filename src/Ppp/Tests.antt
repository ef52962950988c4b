-- ===== src/Ppp/Tests.antt =====
-- The framing on concrete bytes.
use zenoh_proxy.Prelude.{
  ℕ, ◌+◌, ◌*◌, ◌≤◌, ◌<◌, ◌≡◌, ◌↔◌, refl, true, false, List, [], ◌∷◌, ◌++◌, length, arith,
}
use zenoh_proxy.Fcs.{table_at, write, write_all, result}
use zenoh_proxy.Ppp.{
  ppp_frame, ppp_deframe, ppp_flag_char, frame_loop, add_escaped, returns, undefined,
}
use zenoh_proxy.Ppp.Stuffing.{stuffed, content}
use zenoh_proxy.Ppp.RoundTrip.{ppp_deframe-ppp_frame}
use zenoh_proxy.Ppp.Corruption.{ppp_deframe-changed_byte}
use zenoh_proxy.Ppp.Faults.{plain_count, ppp_deframe-undefined}
use zenoh_proxy.Ppp.Shape.{NoFlag, ppp_frame-NoFlag}

-- Both special characters are stuffed.
abbrev special : List ℕ
special = 0x7e ∷ 0x41 ∷ 0x7d ∷ []

framed_special :
    ppp_frame special ≡ 0x7e ∷ 0x7d ∷ 0x5e ∷ 0x41 ∷ 0x7d ∷ 0x5d ∷ 0xd3 ∷ 0xa1 ∷ 0x7e ∷ []
unfolding ppp_frame frame_loop add_escaped write result table_at
framed_special = refl

deframed_special :
    ppp_deframe (0x7d ∷ 0x5e ∷ 0x41 ∷ 0x7d ∷ 0x5d ∷ 0xd3 ∷ 0xa1 ∷ []) ≡ returns true special
unfolding ppp_deframe write result table_at
deframed_special = refl

-- The empty payload is framed, and its frame is refused: its body has two bytes.
framed_empty : ppp_frame [] ≡ 0x7e ∷ 0 ∷ 0 ∷ 0x7e ∷ []
unfolding ppp_frame frame_loop add_escaped result
framed_empty = refl

deframed_empty : ppp_deframe (0 ∷ 0 ∷ []) ≡ returns false []
unfolding ppp_deframe
deframed_empty = refl

ppp_deframe-ppp_frame_example :
    (body : List ℕ) × (ppp_frame special ≡ ppp_flag_char ∷ body ++ ppp_flag_char ∷ [])
    × (ppp_deframe body ≡ returns true special)
ppp_deframe-ppp_frame_example = ppp_deframe-ppp_frame special (omega arith) (λ e. cc)

ppp_deframe-undefined_example :
    (ppp_deframe (0x7d ∷ 0x7d ∷ 0x7d ∷ []) ≡ undefined)
    ↔ ((3 ≤ 3) × NoFlag (0x7d ∷ 0x7d ∷ 0x7d ∷ []) × (plain_count (0x7d ∷ 0x7d ∷ 0x7d ∷ []) < 2))
ppp_deframe-undefined_example = ppp_deframe-undefined (0x7d ∷ 0x7d ∷ 0x7d ∷ [])

ppp_frame-NoFlag_example :
    (body : List ℕ) × (ppp_frame special ≡ ppp_flag_char ∷ body ++ ppp_flag_char ∷ [])
    × NoFlag body
    × (3 + 4 ≤ length (ppp_frame special))
    × (length (ppp_frame special) ≤ 2 * 3 + 6)
ppp_frame-NoFlag_example = ppp_frame-NoFlag special

-- One byte of the payload is flipped on the line.
ppp_deframe-changed_byte_example :
    (out : List ℕ) × (ppp_deframe (stuffed (0x7e ∷ 0x40 ∷ 0x7d ∷ 0xd3 ∷ 0xa1 ∷ []))
      ≡ returns false out)
ppp_deframe-changed_byte_example =
    ppp_deframe-changed_byte special (0x7e ∷ []) (0x7d ∷ 0xd3 ∷ 0xa1 ∷ []) 0x41 0x40 (omega arith)
      (omega arith) (omega arith) (omega arith) (omega arith) (omega arith)
      (unfold content write_all write result table_at in refl) (omega arith)

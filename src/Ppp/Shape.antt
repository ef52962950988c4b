-- ===== src/Ppp/Shape.antt =====
-- The bytes of a frame: no flag inside, and how long it is.
use zenoh_proxy.Prelude.{
  ◌∙◌, ap, ℕ, ◌+◌, ◌*◌, ◌≤◌, ◌≡◌, ◌≢◌, inl, inr, List, [], ◌∷◌, ◌++◌, All, All-append, length,
  length-append, arith, ◌==◌, ==_iff, Bool-cases,
}
use zenoh_proxy.Fcs.{fcs_start, write_all}
use zenoh_proxy.Fcs.Residue.{fcs_bytes}
use zenoh_proxy.Ppp.{ppp_frame, ppp_flag_char, ppp_esc_char, add_escaped}
use zenoh_proxy.Ppp.Stuffing.{stuffed, content, ppp_frame-stuffed, length-stuffed}

abbrev pub NoFlag : List ℕ → Type 0
NoFlag = All (λ b. b ≢ ppp_flag_char)

add_escaped-NoFlag : (c : ℕ) → NoFlag (add_escaped [] c)
unfolding add_escaped
add_escaped-NoFlag c = elim (Bool-cases (c == ppp_esc_char)) [
  | inl e ↦ rw ((==_iff c ppp_esc_char).0 e) (omega arith)
  | inr e ↦ elim (Bool-cases (c == ppp_flag_char)) [
    | inl f ↦ rw ((==_iff c ppp_flag_char).0 f) (omega arith)
    | inr f ↦ ground arith
  ]
]

-- Stuffing leaves no flag.
pub stuffed-NoFlag : (cs : List ℕ) → NoFlag (stuffed cs)
unfolding stuffed
stuffed-NoFlag [] = tt
stuffed-NoFlag (c ∷ cs) =
    All-append _ (add_escaped [] c) (stuffed cs) (add_escaped-NoFlag c) (stuffed-NoFlag cs)

length-add_escaped_le : (c : ℕ) → length (add_escaped [] c) ≤ 2
unfolding add_escaped
length-add_escaped_le c = ground arith

length-stuffed_le : (cs : List ℕ) → length (stuffed cs) ≤ 2 * length cs
unfolding stuffed
length-stuffed_le [] = omega arith
length-stuffed_le (c ∷ cs) = omega (
  arith,
  length-stuffed_le cs,
  length-add_escaped_le c,
  length-append (add_escaped [] c) (stuffed cs),
)

-- A frame is a flag, a body without flags and a flag; it is from 4 bytes longer than the payload to
-- twice as long and 6 bytes.
pub ppp_frame-NoFlag :
    (payload : List ℕ)
    → (body : List ℕ) × (ppp_frame payload ≡ ppp_flag_char ∷ body ++ ppp_flag_char ∷ [])
      × NoFlag body
      × (length payload + 4 ≤ length (ppp_frame payload))
      × (length (ppp_frame payload) ≤ 2 * length payload + 6)
unfolding content
ppp_frame-NoFlag payload =
    let cs : List ℕ = content payload in
    let size : length (ppp_frame payload) ≡ length (stuffed cs) + 2 =
      ap length (ppp_frame-stuffed payload)
      ∙ omega (arith, length-append (stuffed cs) (ppp_flag_char ∷ [])) in
    let count : length cs ≡ length payload + 2 =
      length-append payload (fcs_bytes (write_all fcs_start payload)) in
    (
      stuffed cs,
      ppp_frame-stuffed payload,
      stuffed-NoFlag cs,
      omega (arith, length-stuffed cs),
      omega (arith, length-stuffed_le cs),
    )

-- ===== src/Ppp/RoundTrip.antt =====
-- A frame carries its payload: what `ppp_deframe` makes of a stuffed content, and of a frame's body.
use zenoh_proxy.Prelude.{
  ℕ, ◌≤◌, ◌≡◌, ◌≢◌, refl, sym, ap, ◌∙◌, true, List, [], ◌∷◌, ◌++◌, append-nil, IsBytes, length,
  length-append, arith, le→ltb, ◌==◌,
}
use zenoh_proxy.Fcs.{fcs_start, write_all, result}
use zenoh_proxy.Fcs.Residue.{result-payload}
use zenoh_proxy.Ppp.{ppp_frame, ppp_deframe, ppp_flag_char, returns, scan, finish, at_end}
use zenoh_proxy.Ppp.Stuffing.{
  pop_check_bytes-append, stuffed, content, plain, ppp_frame-stuffed, scan-stuffed, length-stuffed,
}

finish-two_bytes :
    (xs : List ℕ) (x y fcs : ℕ)
    → finish (at_end (plain (xs ++ x ∷ y ∷ []) fcs)) ≡ returns (result fcs == 0x0f47) xs
unfolding finish
finish-two_bytes xs x y fcs = rw (pop_check_bytes-append xs x y, finish)

-- A stuffed content gives back all but its last two bytes, and the verdict of the register.
pub ppp_deframe-stuffed :
    (xs : List ℕ) (x y : ℕ)
    → 1 ≤ length xs
    → ppp_deframe (stuffed (xs ++ x ∷ y ∷ []))
      ≡ returns (result (write_all fcs_start (xs ++ x ∷ y ∷ [])) == 0x0f47) xs
unfolding ppp_deframe scan
ppp_deframe-stuffed xs x y h =
    let cs : List ℕ = xs ++ x ∷ y ∷ [] in
    let long : 3 ≤ length (stuffed cs) =
      omega (arith, length-stuffed cs, length-append xs (x ∷ y ∷ [])) in
    rw
      (
        le→ltb (length (stuffed cs)) 3 long,
        sym (append-nil (stuffed cs)),
        scan-stuffed [] fcs_start cs [],
      )
      (finish-two_bytes xs x y (write_all fcs_start cs))

length-pos : (xs : List ℕ) → xs ≢ [] → 1 ≤ length xs
length-pos [] h = absurd (h refl)
length-pos (x ∷ xs) h = omega arith

pub ppp_deframe-content :
    (payload : List ℕ)
    → IsBytes payload
    → payload ≢ []
    → ppp_deframe (stuffed (content payload)) ≡ returns true payload
unfolding content
ppp_deframe-content payload bytes ne =
    ppp_deframe-stuffed payload _ _ (length-pos payload ne)
    ∙ ap (λ (r : ℕ). returns (r == 0x0f47) payload) (result-payload payload bytes)

-- For a payload of bytes that is not empty, `ppp_frame` is a flag, a body and a flag, and
-- `ppp_deframe` of the body succeeds and leaves the payload in `out`.
pub ppp_deframe-ppp_frame :
    (payload : List ℕ)
    → IsBytes payload
    → payload ≢ []
    → (body : List ℕ) × (ppp_frame payload ≡ ppp_flag_char ∷ body ++ ppp_flag_char ∷ [])
      × (ppp_deframe body ≡ returns true payload)
ppp_deframe-ppp_frame payload bytes ne =
    (stuffed (content payload), ppp_frame-stuffed payload, ppp_deframe-content payload bytes ne)

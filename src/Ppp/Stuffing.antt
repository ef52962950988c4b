-- ===== src/Ppp/Stuffing.antt =====
-- Byte stuffing as a function on whole runs, and the loops of `ppp_frame` and `ppp_deframe` in its
-- terms.
use zenoh_proxy.Prelude.{
  append-nil, ℕ, ◌/◌, ◌%◌, ◌≤◌, ◌≡◌, refl, sym, inl, inr, false, ◌||◌, some, List, [], ◌∷◌, ◌++◌,
  append_assoc, length, length-append, arith, ◌==◌, ==_iff, Bool-cases,
}
use zenoh_proxy.Fcs.{result, write, write_all, fcs_start}
use zenoh_proxy.Fcs.Residue.{fcs_bytes}
use zenoh_proxy.Ppp.{
  pop_check_bytes, add_escaped, frame_loop, ppp_frame, ppp_flag_char, ppp_esc_char, Scan, scan,
  pop_back, push_back,
}

-- The stuffed form of a run of bytes.
unfoldable pub stuffed : List ℕ → List ℕ
stuffed [] = []
stuffed (c ∷ cs) = add_escaped [] c ++ stuffed cs

add_escaped-append : (out : List ℕ) (c : ℕ) → add_escaped out c ≡ out ++ add_escaped [] c
unfolding add_escaped
add_escaped-append out c = elim (Bool-cases (c == ppp_esc_char || c == ppp_flag_char)) [
  | inl e ↦ rw e (append_assoc out (ppp_esc_char ∷ []) _)
  | inr e ↦ rw e
]

pub stuffed-append : (xs ys : List ℕ) → stuffed (xs ++ ys) ≡ stuffed xs ++ stuffed ys
unfolding stuffed
stuffed-append [] ys = refl
stuffed-append (x ∷ xs) ys =
    rw (stuffed-append xs ys) (sym (append_assoc (add_escaped [] x) (stuffed xs) (stuffed ys)))

frame_loop-stuffed :
    (out : List ℕ) (fcs : ℕ) (cs : List ℕ)
    → frame_loop out fcs cs ≡ (out ++ stuffed cs, write_all fcs cs)
unfolding frame_loop stuffed write_all
frame_loop-stuffed out fcs [] = rw (append-nil out)
frame_loop-stuffed out fcs (c ∷ cs) = rw (
  frame_loop-stuffed (add_escaped out c) (write fcs c) cs,
  add_escaped-append out c,
  append_assoc out (add_escaped [] c) (stuffed cs),
)

-- What stands between the flags of a frame: the payload and its check sequence.
unfoldable pub content : List ℕ → List ℕ
content payload = payload ++ fcs_bytes (write_all fcs_start payload)

-- A frame is the stuffed content between two flags.
pub ppp_frame-stuffed :
    (payload : List ℕ)
    → ppp_frame payload ≡ ppp_flag_char ∷ stuffed (content payload) ++ ppp_flag_char ∷ []
unfolding ppp_frame content stuffed
ppp_frame-stuffed payload =
    let register : ℕ = write_all fcs_start payload in
    let low : ℕ = result register % 256 in
    let high : ℕ = result register / 256 in
    rw
      (
        frame_loop-stuffed (ppp_flag_char ∷ []) fcs_start payload,
        add_escaped-append ((ppp_flag_char ∷ []) ++ stuffed payload) low,
        add_escaped-append (((ppp_flag_char ∷ []) ++ stuffed payload) ++ add_escaped [] low) high,
        stuffed-append payload (fcs_bytes register),
        stuffed,
      )
      (simp (append_assoc, append-nil))

length-add_escaped : (c : ℕ) → 1 ≤ length (add_escaped [] c)
unfolding add_escaped
length-add_escaped c = ground arith

pub length-stuffed : (cs : List ℕ) → length cs ≤ length (stuffed cs)
unfolding stuffed
length-stuffed [] = omega arith
length-stuffed (c ∷ cs) =
    omega (
      arith,
      length-stuffed cs,
      length-add_escaped c,
      length-append (add_escaped [] c) (stuffed cs),
    )

-- The scan with `out` and the register, outside an escape.
abbrev pub plain : List ℕ → ℕ → Scan
plain out fcs = record { out = out; esc_flag = false; fcs = fcs }

scan-escaped :
    (out : List ℕ) (fcs c : ℕ) (rest : List ℕ)
    → scan (plain out fcs) (add_escaped [] c ++ rest)
      ≡ scan (plain (push_back out c) (write fcs c)) rest
unfolding scan add_escaped
scan-escaped out fcs c rest = elim (Bool-cases (c == ppp_esc_char)) [
  | inl e ↦ rw ((==_iff c ppp_esc_char).0 e)
  | inr e ↦ elim (Bool-cases (c == ppp_flag_char)) [
    | inl f ↦ rw ((==_iff c ppp_flag_char).0 f)
    | inr f ↦ ground arith
  ]
]

-- The loop of `ppp_deframe` undoes the stuffing and runs the register over the content.
pub scan-stuffed :
    (out : List ℕ) (fcs : ℕ) (cs rest : List ℕ)
    → scan (plain out fcs) (stuffed cs ++ rest) ≡ scan (plain (out ++ cs) (write_all fcs cs)) rest
unfolding stuffed write_all
scan-stuffed out fcs [] rest = rw (append-nil out)
scan-stuffed out fcs (c ∷ cs) rest = rw (
  append_assoc (add_escaped [] c) (stuffed cs) rest,
  scan-escaped out fcs c (stuffed cs ++ rest),
  scan-stuffed (push_back out c) (write fcs c) cs rest,
  append_assoc out (c ∷ []) cs,
)

pop_back-push_back : (xs : List ℕ) (x : ℕ) → pop_back (push_back xs x) ≡ some xs
unfolding pop_back
pop_back-push_back [] x = refl
pop_back-push_back (y ∷ []) x = refl
pop_back-push_back (y ∷ z ∷ r) x = rw (pop_back-push_back (z ∷ r) x)

-- Removing the two check bytes.
pub pop_check_bytes-append : (xs : List ℕ) (x y : ℕ) → pop_check_bytes (xs ++ x ∷ y ∷ []) ≡ some xs
unfolding pop_check_bytes
pop_check_bytes-append xs x y = rw (
  ← append_assoc xs (x ∷ []) (y ∷ []),
  pop_check_bytes,
  pop_back-push_back (push_back xs x) y,
  pop_back-push_back xs x,
)

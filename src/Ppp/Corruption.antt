-- ===== src/Ppp/Corruption.antt =====
-- A damaged frame is refused.
use zenoh_proxy.Prelude.{
  ℕ, ◌≤◌, ◌<◌, ◌≡◌, ◌≢◌, refl, sym, ap, ◌∙◌, false, List, [], ◌∷◌, ◌++◌, IsBytes, All-append,
  length, length-append, arith, ◌==◌, ne→==,
}
use zenoh_proxy.Fcs.{fcs_start, write_all, result}
use zenoh_proxy.Fcs.Residue.{fcs_bytes, result-payload, write_all-lt}
use zenoh_proxy.Fcs.Detect.{write_all-changed_byte}
use zenoh_proxy.Ppp.{ppp_deframe, returns}
use zenoh_proxy.Ppp.Stuffing.{stuffed, content}
use zenoh_proxy.Ppp.RoundTrip.{ppp_deframe-stuffed}

record LastTwo (cs : List ℕ) : Type 0 where
  body : List ℕ
  x : ℕ
  y : ℕ
  splits : cs ≡ body ++ x ∷ y ∷ []

split_tail : (cs : List ℕ) → 2 ≤ length cs → LastTwo cs
split_tail [] h = absurd (omega arith)
split_tail (x ∷ []) h = absurd (omega arith)
split_tail (x ∷ y ∷ []) h = record { body = []; x = x; y = y; splits = refl }
split_tail (x ∷ y ∷ z ∷ cs) h =
    let t = split_tail (y ∷ z ∷ cs) (omega arith) in
    record { body = x ∷ t.body; x = t.x; y = t.y; splits = ap (◌∷◌ x) t.splits }

result_injective : (r s : ℕ) → r < 65536 → s < 65536 → result r ≡ result s → r ≡ s
unfolding result
result_injective r s p q e = omega arith

-- The verdict on a stuffed content of at least three bytes.
verdict :
    (cs : List ℕ)
    → 3 ≤ length cs
    → (out : List ℕ) × (ppp_deframe (stuffed cs)
        ≡ returns (result (write_all fcs_start cs) == 0x0f47) out)
verdict cs h =
    let t = split_tail cs (omega arith) in
    (
      t.body,
      ap (λ bs. ppp_deframe (stuffed bs)) t.splits
          ∙ (ppp_deframe-stuffed t.body t.x t.y
                (omega (arith, length-append t.body (t.x ∷ t.y ∷ []), ap length t.splits))
              ∙ ap (λ bs. returns (result (write_all fcs_start bs) == 0x0f47) t.body)
                  (sym t.splits)),
    )

-- Let the content of a frame (the payload and its two check bytes, before stuffing) have one byte
-- `b`, at any place, replaced by another byte `c`. Then `ppp_deframe` refuses the stuffed result.
pub ppp_deframe-changed_byte :
    (payload before after : List ℕ) (b c : ℕ)
    → IsBytes payload
    → 1 ≤ length payload
    → IsBytes before
    → IsBytes after
    → b < 256
    → c < 256
    → content payload ≡ before ++ b ∷ after
    → b ≢ c
    → (out : List ℕ) × (ppp_deframe (stuffed (before ++ c ∷ after)) ≡ returns false out)
unfolding content
ppp_deframe-changed_byte payload before after b c bytes some_byte hx hy hb hc splits ne =
    let damaged : List ℕ = before ++ c ∷ after in
    let good : result (write_all fcs_start (before ++ b ∷ after)) ≡ 0x0f47 =
      ap (λ cs. result (write_all fcs_start cs)) (sym splits) ∙ result-payload payload bytes in
    let long : 3 ≤ length damaged = omega (
      arith,
      ap length splits,
      length-append payload (fcs_bytes (write_all fcs_start payload)),
      length-append before (b ∷ after),
      length-append before (c ∷ after),
    ) in
    let refused : result (write_all fcs_start damaged) ≢ 0x0f47 = λ e.
      write_all-changed_byte fcs_start before b c after (omega arith) hx hb hc hy ne (
        result_injective (write_all fcs_start (before ++ b ∷ after)) (write_all fcs_start damaged)
          (write_all-lt fcs_start _ (omega arith) (All-append _ before (b ∷ after) hx (hb, hy)))
          (write_all-lt fcs_start _ (omega arith) (All-append _ before (c ∷ after) hx (hc, hy)))
          (good ∙ sym e)) in
    let v = verdict damaged long in (v.0, v.1 ∙ ap (λ ok. returns ok v.0) (ne→== _ _ refused))

-- ===== src/Serial/Transmit.antt =====
-- `txd` of src/serial.cpp: a buffer is written piece by piece.
use zenoh_proxy.Prelude.{
  sym, take-append-drop, length-drop, take-length, ◌∙◌, ne→==, ap, ◌≢◌, arith, inl, ◌⊎◌, ◌≤◌, ◌≡◌,
  ℕ, true, false, Option, none, some, List, [], ◌∷◌, ◌++◌, ◌==◌, if◌then◌else◌, take, drop, length,
  zero, suc, inl, inr, ◌⊎◌, ◌≡◌, ◌≢◌, ◌≤◌, refl, Bool-cases, append-nil, append_assoc, arith, ◌<◌,
  ==_iff,
}
use zenoh_proxy.Serial.{
  Serial, Call, sys_write, sys_tcdrain, sys_fsync, sys_tcflush, Os, sys, rc_of, negative, eagain,
  enotconn,
}

module _ (os : Os) where
  -- The calls behind the loop.
  unfoldable pub flush : Serial → Serial × ℕ
  flush s = (sys os (sys_tcflush s.fd) (sys os (sys_fsync s.fd) s), 0)

  -- The loop of `txd`, on the bytes that are left; `none` when the writes that may be made run out.
  unfoldable pub txd_loop : ℕ → List ℕ → Serial → Option (Serial × ℕ)
  unfolding flush
  txd_loop fuel [] s = some (flush s)
  txd_loop zero (b ∷ bs) s = none
  txd_loop (suc fuel) (b ∷ bs) s =
      let c : Call = sys_write s.fd (b ∷ bs) in
      let after : Serial = sys os c s in
      let drained : Serial = sys os (sys_tcdrain s.fd) after in
      let again = txd_loop fuel (b ∷ bs) drained in
      let rest = txd_loop fuel (drop (rc_of os c s) (b ∷ bs)) drained in
      if rc_of os c s == length (b ∷ bs)
      then some (flush after)
      else (if negative (rc_of os c s)
          then (if after.errno == eagain then again else some (after, after.errno))
          else rest)

  unfoldable pub txd : ℕ → List ℕ → Serial → Option (Serial × ℕ)
  unfolding txd_loop
  txd fuel bs s = if s.connected then txd_loop fuel bs s else some (s, enotconn)

  abbrev written_by : Call → List Call → List ℕ
  written_by (sys_write fd bs) cs =
      if negative (os cs (sys_write fd bs)).rc then [] else take (os cs (sys_write fd bs)).rc bs
  written_by c cs = []

  -- The bytes that the system has taken.
  unfoldable pub written : List Call → List ℕ
  written [] = []
  written (c ∷ cs) = written cs ++ written_by c cs

  -- What a run of `txd` on `bs` promises: the system has taken a first part of the buffer, all of it
  -- if the result is 0.
  abbrev pub Sends : List ℕ → Serial → Serial × ℕ → Type 0
  Sends bs s r =
      (sent rest : List ℕ) × (written r.0.calls ≡ written s.calls ++ sent)
      × (sent ++ rest ≡ bs)
      × (((r.1 ≡ 0) × (rest ≡ [])) ⊎ (r.1 ≢ 0))

  -- Every write takes a byte or fails for good.
  abbrev pub Progress : ℕ → Type 0
  Progress fd =
      (cs : List Call) (b : ℕ) (bs : List ℕ)
      → let a = os cs (sys_write fd (b ∷ bs)) in
        ((negative a.rc ≡ false) × (1 ≤ a.rc))
        ⊎ ((negative a.rc ≡ true) × (a.err ≢ 0) × (a.err ≢ eagain))

  pub flush-written : (s : Serial) → written (flush s).0.calls ≡ written s.calls
  unfolding flush written
  flush-written s = rw (append-nil (written s.calls), append-nil (written s.calls))

  txd_loop-total :
      (fuel : ℕ) (bs : List ℕ) (s : Serial)
      → Progress s.fd
      → length bs ≤ fuel
      → length bs < 0x8000_0000
      → (r : Serial × ℕ) × (txd_loop fuel bs s ≡ some r) × Sends bs s r
  unfolding txd_loop written
  txd_loop-total fuel [] s p enough small =
      (_, refl, ([], [], flush-written s ∙ sym (append-nil _), refl, inl (refl, refl)))
  txd_loop-total zero (b ∷ bs) s p enough small = absurd (omega (arith, enough))
  txd_loop-total (suc fuel) (b ∷ bs) s p enough small =
      let c : Call = sys_write s.fd (b ∷ bs) in
      let after : Serial = sys os c s in
      let drained : Serial = sys os (sys_tcdrain s.fd) after in
      let piece : List ℕ = take (rc_of os c s) (b ∷ bs) in
      let left : List ℕ = drop (rc_of os c s) (b ∷ bs) in
      elim (p s.calls b bs) [
        | inr (bad, real, broken) ↦
            let differs : (rc_of os c s == length (b ∷ bs)) ≡ false = ground (arith, bad, small) in
            rw (differs, bad, ne→== _ _ real, ne→== _ _ broken)
              (
                (record after { errno = (os s.calls c).err }, (os s.calls c).err),
                refl,
                ([], b ∷ bs, rw bad, refl, inr real),
              )
        | inl (good, some_taken) ↦
            let one : written after.calls ≡ written s.calls ++ piece = rw good in
            elim (Bool-cases (rc_of os c s == length (b ∷ bs))) [
              | inl whole ↦
                  let took_all : written (flush after).0.calls ≡ written s.calls ++ b ∷ bs =
                    flush-written after
                    ∙ one
                    ∙ rw ((==_iff (rc_of os c s) _).0 whole, take-length (b ∷ bs)) in
                  rw whole (_, refl, (b ∷ bs, [], took_all, append-nil _, inl (refl, refl)))
              | inr partial ↦
                  let fewer : length left < length (b ∷ bs) =
                    omega (arith, length-drop (rc_of os c s) (b ∷ bs), some_taken) in
                  let (r, ends, (sent, rest, taken, all, outcome)) =
                    txd_loop-total fuel left drained p (omega (arith, enough, fewer))
                      (omega (arith, small, fewer)) in
                  let begun = ap (λ w. w ++ sent) (append-nil (written after.calls) ∙ one) in
                  rw (partial, good)
                    (
                      r,
                      ends,
                      (
                        piece ++ sent,
                        rest,
                        taken ∙ begun ∙ append_assoc (written s.calls) piece sent,
                        append_assoc piece sent rest
                            ∙ ap (λ w. piece ++ w) all
                            ∙ take-append-drop (rc_of os c s) (b ∷ bs),
                        outcome,
                      ),
                    )
            ]
      ]

  -- If every write takes a byte or fails for good, then `txd` of a connected port, for a buffer of less
  -- than 2^31 bytes and with fuel for a write of each, returns. The bytes that the system has taken
  -- are a prefix of the buffer, in order and each once, and the whole of it if the result is 0.
  pub txd-written :
      (bs : List ℕ) (s : Serial)
      → s.connected ≡ true
      → Progress s.fd
      → length bs < 0x8000_0000
      → (r : Serial × ℕ) × (txd (length bs) bs s ≡ some r) × Sends bs s r
  unfolding txd
  txd-written bs s up p small = simp (up) (txd_loop-total (length bs) bs s p (omega arith) small)

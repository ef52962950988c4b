-- ===== src/Frame/View.antt =====
-- The part of `FrameExtractor` that does not depend on the clock, as a function on byte streams, and
-- that `handleRxd` follows it as long as no timeout strikes.
use zenoh_proxy.Prelude.{
  suc, length, ℕ, ◌+◌, ◌-◌, ◌%◌, ◌^◌, ◌≤◌, ◌<◌, ◌≡◌, inl, inr, refl, sym, ◌∙◌, true, false, Option,
  none, some, List, [], ◌∷◌, ◌++◌, arith, ltb, le→ltb, ◌==◌, Bool-cases, ◌>>=◌, bind_cong,
  bind_assoc, length,
}
use mathlib.Core.List.{flatten}
use zenoh_proxy.Ppp.{ppp_flag_char, push_back, ppp_deframe, Deframed, returns, undefined}
use zenoh_proxy.Frame.{
  FrameExtractor, frame_timeout, to_stdout, handle_deframed, handle_frame, clear_input, on_flag,
  rxd_loop, check_timeout, handle_rxd, receive,
}

-- The bytes since the last flag, and the payloads delivered so far.
pub record View : Type 0 where
  pub pending : List ℕ
  pub delivered : List (List ℕ)

abbrev pub view : FrameExtractor → View
view e = record { pending = e.input_frame; delivered = e.emitted }

-- A flag ends the pending bytes: nothing if there are none, a payload if they are a good frame.
unfoldable pub close_outcome : View → Deframed → Option View
close_outcome v (returns true out) =
    some (record { pending = []; delivered = v.delivered ++ out ∷ [] })
close_outcome v (returns false out) = some (record v { pending = [] })
close_outcome v undefined = none

unfoldable pub close_pending : View → List ℕ → Option View
unfolding close_outcome
close_pending v [] = some (record v { pending = [] })
close_pending v (b ∷ bs) = close_outcome v (ppp_deframe (b ∷ bs))

unfoldable pub close : View → Option View
unfolding close_pending
close v = close_pending v v.pending

unfoldable pub decode : View → List ℕ → Option View
decode v [] = some v
decode v (b ∷ bs) = elim (b == ppp_flag_char) [
  | true ↦ close v >>= λ w. decode w bs
  | false ↦ decode (record v { pending = push_back v.pending b }) bs
]

-- How the bytes are cut into chunks does not matter.
pub decode-append :
    (v : View) (xs ys : List ℕ) → decode v (xs ++ ys) ≡ (decode v xs >>= λ w. decode w ys)
unfolding decode
decode-append v [] ys = refl
decode-append v (b ∷ xs) ys = elim (Bool-cases (b == ppp_flag_char)) [
  | inl e ↦
      rw (e, decode)
        (bind_cong (close v) _ _ (λ w. decode-append w xs ys)
          ∙ sym (bind_assoc (close v) (λ w. decode w xs) (λ w. decode w ys)))
  | inr e ↦ rw (e, decode) (decode-append (record v { pending = push_back v.pending b }) xs ys)
]

-- What one chunk, and a list of chunks, can take of clock readings at most.
unfoldable pub readings : List (List ℕ) → ℕ
readings [] = 0
readings (bs ∷ chunks) = length bs + suc (readings chunks)

-- The clock: it does not run backwards, and the readings before `limit` all fall into the time
-- that starts at `lo` and lasts as long as the timeout.
pub record IsQuiet (millis : ℕ → ℕ) (lo limit : ℕ) : Type 0 where
  pub steady : (n : ℕ) → millis n ≤ millis (n + 1)
  pub within : (n : ℕ) → n < limit → millis n ≤ lo + frame_timeout
  pub fits : lo + frame_timeout < 2 ^ 64

module _ (millis : ℕ → ℕ) (lo limit : ℕ) (quiet : IsQuiet millis lo limit) where
  -- The last flag came in this time, and `spare` more readings fall into it.
  abbrev pub InTime : ℕ → FrameExtractor → Type 0
  InTime spare e =
      (lo ≤ e.last_frame_flag)
      × (e.last_frame_flag ≤ millis e.clock_reads)
      × (e.clock_reads + spare ≤ limit)

  -- The extractor does what the view does, undefined behaviour included.
  abbrev pub Follows : ℕ → Option View → Option FrameExtractor → Type 0
  Follows spare none none = Unit
  Follows spare (some v) (some e) = (view e ≡ v) × InTime spare e
  Follows spare none (some e) = ⊥
  Follows spare (some v) none = ⊥

  follow_outcome :
      (spare : ℕ) (e : FrameExtractor) (bs : List ℕ) (d : Deframed)
      → InTime spare e
      → Follows spare (close_outcome (view e) d) (clear_input (handle_deframed e bs d))
  unfolding close_outcome clear_input handle_deframed to_stdout
  follow_outcome spare e bs (returns true out) h = (refl, h)
  follow_outcome spare e [] (returns false out) h = (refl, h)
  follow_outcome spare e (b ∷ bs) (returns false out) h = (refl, h)
  follow_outcome spare e bs undefined h = tt

  follow_pending :
      (spare : ℕ) (e : FrameExtractor) (bs : List ℕ)
      → InTime spare e
      → Follows spare (close_pending (view e) bs) (clear_input (handle_frame e bs))
  unfolding close_pending handle_frame clear_input
  follow_pending spare e [] h = (refl, h)
  follow_pending spare e (b ∷ bs) h = follow_outcome spare e (b ∷ bs) (ppp_deframe (b ∷ bs)) h

  follow_flag :
      (spare : ℕ) (e : FrameExtractor)
      → InTime (suc spare) e
      → Follows spare (close (view e)) (on_flag millis e)
  unfolding close on_flag
  follow_flag spare e h =
      follow_pending spare _ e.input_frame (omega arith, quiet.steady e.clock_reads, omega arith)

  Follows-bind :
      (spare rest : ℕ) (o : Option View) (p : Option FrameExtractor) (f : View → Option View)
      (g : FrameExtractor → Option FrameExtractor)
      → Follows spare o p
      → ((e : FrameExtractor) → InTime spare e → Follows rest (f (view e)) (g e))
      → Follows rest (o >>= f) (p >>= g)
  Follows-bind spare rest none none f g h k = tt
  Follows-bind spare rest (some v) (some e) f g h k = rw (← h.0) (k e h.1)
  Follows-bind spare rest none (some e) f g h k = absurd h
  Follows-bind spare rest (some v) none f g h k = absurd h

  pub follow_loop :
      (spare : ℕ) (e : FrameExtractor) (bs : List ℕ)
      → InTime (length bs + spare) e
      → Follows spare (decode (view e) bs) (rxd_loop millis e bs)
  unfolding decode rxd_loop
  follow_loop spare e [] h = (refl, (h.0, h.1, omega arith))
  follow_loop spare e (b ∷ bs) h = elim (Bool-cases (b == ppp_flag_char)) [
    | inl f ↦
        rw (f, decode, rxd_loop)
          (Follows-bind (length bs + spare) spare (close (view e)) (on_flag millis e) _ _
            (follow_flag (length bs + spare) e (h.0, h.1, omega arith))
            (λ e' h'. follow_loop spare e' bs h'))
    | inr f ↦
        rw (f, decode, rxd_loop)
          (follow_loop spare (record e { input_frame = push_back e.input_frame b }) bs
            (h.0, h.1, omega arith))
  ]

  pub InTime-soon :
      (spare : ℕ) (e : FrameExtractor)
      → InTime (suc spare) e
      → ltb frame_timeout ((millis e.clock_reads + 2 ^ 64 - e.last_frame_flag) % 2 ^ 64) ≡ false
  InTime-soon spare e h =
      le→ltb _ _ (omega (arith, quiet.within e.clock_reads (omega arith), quiet.fits))

  -- No timeout strikes at the end of a chunk.
  pub check_timeout-InTime :
      (spare : ℕ) (e : FrameExtractor)
      → InTime (suc spare) e
      → (view (check_timeout millis e) ≡ view e) × InTime spare (check_timeout millis e)
  unfolding check_timeout
  check_timeout-InTime spare e h =
      rw (InTime-soon spare e h)
        (refl, (h.0, omega (arith, quiet.steady e.clock_reads), omega arith))

  pub follow_rxd :
      (spare : ℕ) (e : FrameExtractor) (bs : List ℕ)
      → InTime (length bs + suc spare) e
      → Follows spare (decode (view e) bs) (handle_rxd millis e bs)
  unfolding handle_rxd
  follow_rxd spare e bs h =
      ended (decode (view e) bs) (rxd_loop millis e bs) (follow_loop (suc spare) e bs h)
    where
      ended :
          (o : Option View) (p : Option FrameExtractor)
          → Follows (suc spare) o p
          → Follows spare o (p >>= λ e'. some (check_timeout millis e'))
      ended none none f = tt
      ended (some v) (some e') f = let t = check_timeout-InTime spare e' f.1 in (t.0 ∙ f.0, t.1)
      ended none (some e') f = absurd f
      ended (some v) none f = absurd f

  -- In the quiet time the extractor's frames are those of the bytes of all chunks together.
  pub receive-decode :
      (spare : ℕ) (e : FrameExtractor) (chunks : List (List ℕ))
      → InTime (readings chunks + spare) e
      → Follows spare (decode (view e) (flatten chunks)) (receive millis e chunks)
  unfolding decode receive flatten readings
  receive-decode spare e [] h = (refl, (h.0, h.1, omega arith))
  receive-decode spare e (bs ∷ chunks) h =
      let start : InTime (length bs + suc (readings chunks + spare)) e = (h.0, h.1, omega arith) in
      rw (decode-append (view e) bs (flatten chunks)) (
        Follows-bind (readings chunks + spare) spare (decode (view e) bs) (handle_rxd millis e bs) _
          _ (follow_rxd (readings chunks + spare) e bs start)
          (λ e' h'. receive-decode spare e' chunks h'))

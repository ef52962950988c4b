-- ===== src/Frame/Tests.antt =====
-- The extractor on concrete bytes.
use mathlib.Core.List.{flatten}
use zenoh_proxy.Prelude.{All, ℕ, ◌≡◌, refl, false, some, List, [], ◌∷◌, ◌++◌, arith}
use zenoh_proxy.Fcs.{write, table_at, result}
use zenoh_proxy.Ppp.{ppp_frame, frame_loop, add_escaped, ppp_deframe}
use zenoh_proxy.Frame.{returns, FrameExtractor, receive}
use zenoh_proxy.Frame.View.{IsQuiet, readings}
use zenoh_proxy.Frame.Delivery.{IsPayload, frames, receive-frames}
use zenoh_proxy.Frame.Resync.{receive-resync}

abbrev pub fresh : FrameExtractor
fresh = record {
  input_frame = [];
  clean_data = [];
  last_frame_flag = 5000;
  emitted = [];
  printed = [];
  clock_reads = 0;
}

-- A clock that stands still for the length of the test.
abbrev pub noon : ℕ → ℕ
noon n = 5200

pub noon-IsQuiet : IsQuiet noon 5000 100
noon-IsQuiet = record { steady = λ n. omega arith; within = λ n h. omega arith; fits = omega arith }

abbrev pub payloads : List (List ℕ)
payloads = (0x41 ∷ []) ∷ (0x7e ∷ 0x42 ∷ []) ∷ []

-- The two frames, cut in the middle of the second.
abbrev pub chunks : List (List ℕ)
chunks =
    (0x7e ∷ 0x41 ∷ 0xf5 ∷ 0xa3 ∷ 0x7e ∷ 0x7e ∷ 0x7d ∷ [])
    ∷ (0x5e ∷ 0x42 ∷ 0x85 ∷ 0x4 ∷ 0x7e ∷ [])
    ∷ []

pub chunks-frames : flatten chunks ≡ frames payloads
unfolding flatten frames ppp_frame frame_loop add_escaped write table_at result
chunks-frames = refl

pub payloads-IsPayload : All IsPayload payloads
payloads-IsPayload = ((omega arith, λ e. cc), ((omega arith, λ e. cc), tt))

receive-frames_example :
    (e' : FrameExtractor) × (receive noon fresh chunks ≡ some e')
    × (e'.emitted ≡ payloads)
    × (e'.input_frame ≡ [])
unfolding readings
receive-frames_example =
    receive-frames noon 5000 100 noon-IsQuiet fresh payloads chunks refl payloads-IsPayload
      chunks-frames (omega arith, omega arith, omega arith)

-- Log text in front of a frame.
abbrev log : List ℕ
log = 0x6f ∷ 0x6b ∷ 0x0d ∷ 0x0a ∷ []

log-refused : ppp_deframe log ≡ returns false (0x6f ∷ 0x6b ∷ [])
unfolding ppp_deframe write table_at result
log-refused = refl

receive-resync_example :
    (e' : FrameExtractor) × (receive noon fresh ((log ++ ppp_frame (0x41 ∷ [])) ∷ []) ≡ some e')
    × (e'.emitted ≡ (0x41 ∷ []) ∷ [])
    × (e'.input_frame ≡ [])
unfolding readings flatten ppp_frame frame_loop add_escaped write table_at result
receive-resync_example =
    receive-resync noon 5000 100 noon-IsQuiet fresh log (0x6f ∷ 0x6b ∷ []) (0x41 ∷ [])
      ((log ++ ppp_frame (0x41 ∷ [])) ∷ []) (omega arith) log-refused (omega arith, λ e. cc) refl
      (omega arith, omega arith, omega arith)

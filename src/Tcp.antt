-- ===== src/Tcp.antt =====
-- src-pico/tcp.cpp: the loops that receive and send over a socket. The system's answers are a list of
-- what the successive calls return, a 32-bit pattern; when it runs out, the loop is still waiting.
-- A pointer is its offset in the buffer, of 64 bits.
pub mod Transfer
pub mod Sockets
pub mod Scout
pub mod Locator
pub mod Datagram
pub mod Tests
use zenoh_proxy.Prelude.{
  ℕ, Bool, true, false, Option, none, some, List, [], ◌∷◌, ◌++◌, ◌==◌, leb, if◌then◌else◌, ◌&&◌,
  ◌||◌, not, take, drop, length, ◌>>=◌, ◌+◌, ◌-◌, ◌%◌,
}

abbrev pub minus_one : ℕ
minus_one = 0xffff_ffff

-- The test `rc < 0`.
abbrev pub negative : ℕ → Bool
negative n = leb 0x8000_0000 n

-- `n - rb` of two ints, and the test `n > 0`.
abbrev pub minus_int : ℕ → ℕ → ℕ
minus_int n rb = (n + 0x1_0000_0000 - rb) % 0x1_0000_0000

abbrev pub positive : ℕ → Bool
positive n = not (negative n) && not (n == 0)

-- `ptr + (len - n)`: the int is extended to 64 bits.
abbrev pub extend : ℕ → ℕ
extend n = if negative n then n + 0xffff_ffff_0000_0000 else n

abbrev pub advance : ℕ → ℕ → ℕ → ℕ
advance ptr len n = (ptr + (len + 0x1_0000_0000_0000_0000 - extend n)) % 0x1_0000_0000_0000_0000

-- `_zn_recv_bytes` inside its loop: the result, and what is stored where, the first first. A `recv`
-- stores the bytes that it returns.
unfoldable pub recv_loop : (len n ptr : ℕ) → List (ℕ × List ℕ) → Option (ℕ × List (ℕ × List ℕ))
recv_loop len n ptr [] = none
recv_loop len n ptr ((rb, bs) ∷ answers) =
    let stored : List (ℕ × List ℕ) = if negative rb then [] else (ptr, take rb bs) ∷ [] in
    let n' : ℕ = minus_int n rb in
    let rest = recv_loop len n' (advance ptr len n') answers in
    if rb == 0
    then some (minus_one, [])
    else (if positive n' then (do r ← rest; some (r.0, stored ++ r.1)) else some (0, stored))

unfoldable pub recv_bytes : ℕ → List (ℕ × List ℕ) → Option (ℕ × List (ℕ × List ℕ))
recv_bytes len answers = recv_loop len (len % 0x1_0000_0000) 0 answers

-- The loop of `_zn_send_wbuf` on one slice: the result, the offset and the number of bytes of each
-- `send`, the first first, and the answers that are left.
unfoldable pub send_loop : (len n ptr : ℕ) → List ℕ → Option (ℕ × List (ℕ × ℕ) × List ℕ)
send_loop len n ptr [] = none
send_loop len n ptr (wb ∷ answers) =
    let n' : ℕ = minus_int n wb in
    let rest = send_loop len n' (advance ptr len n') answers in
    if negative wb || (wb == 0)
    then some (minus_one, (ptr, n) ∷ [], answers)
    else (if positive n'
        then (do r ← rest; some (r.0, (ptr, n) ∷ r.1, r.2))
        else some (0, (ptr, n) ∷ [], answers))

-- `_zn_send_wbuf` on the lengths of the slices: the result, and the sends of each slice.
unfoldable pub send_wbuf : List ℕ → List ℕ → Option (ℕ × List (List (ℕ × ℕ)))
send_wbuf [] answers = some (0, [])
send_wbuf (len ∷ lens) answers = send_loop len (len % 0x1_0000_0000) 0 answers >>= λ r.
    let rest = send_wbuf lens r.2 in
    if r.0 == 0 then (do q ← rest; some (q.0, r.1 ∷ q.1)) else some (minus_one, r.1 ∷ [])

-- `_zn_recv_zbuf` and `_zn_recv_dgram_from`: the write position after a read that returns `rb`.
unfoldable pub recv_zbuf : (wpos rb : ℕ) → ℕ
recv_zbuf wpos rb = if positive rb then wpos + rb else wpos

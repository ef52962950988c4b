-- ===== src/Tcp/Transfer.antt =====
-- Where the loops of src-pico/tcp.cpp store and read: right for two pieces, wrong from the third on.
use zenoh_proxy.Prelude.{
  ℕ, true, false, some, List, [], ◌∷◌, ◌==◌, length, ◌≡◌, ◌≤◌, ◌<◌, ◌+◌, ◌*◌, ◌-◌, ◌%◌, arith,
  take-length, ◌>>=◌,
}
use zenoh_proxy.Tcp.{recv_loop, recv_bytes, negative, minus_int, positive, advance}

-- A piece that does not end the loop: what is left, and where the pointer goes.
minus_int-small : (n r : ℕ) → n < 0x8000_0000 → r ≤ n → minus_int n r ≡ n - r
minus_int-small n r h k = omega (arith, h, k)

advance-small :
    (ptr len n : ℕ)
    → len < 0x8000_0000
    → ptr < 0x1_0000_0000
    → n ≤ len
    → advance ptr len n ≡ ptr + (len - n)
advance-small ptr len n h k l = ground (arith, h, k, l)

positive-small : (n : ℕ) → 1 ≤ n → n < 0x8000_0000 → positive n ≡ true
positive-small n h k = ground (arith, h, k)

negative-small : (n : ℕ) → n < 0x8000_0000 → negative n ≡ false
negative-small n h = ground (arith, h)

-- A piece of `recv` that is not the last, and the last.
recv_part :
    (len n ptr : ℕ) (bs : List ℕ) (answers : List (ℕ × List ℕ))
    → len < 0x8000_0000
    → ptr < 0x1_0000_0000
    → n ≤ len
    → 1 ≤ length bs
    → length bs < n
    → recv_loop len n ptr ((length bs, bs) ∷ answers) ≡ (
        recv_loop len (n - length bs) (ptr + (len - (n - length bs))) answers >>= λ r.
        some (r.0, (ptr, bs) ∷ r.1))
unfolding recv_loop
recv_part len n ptr bs answers h k l one more =
    let left : minus_int n (length bs) ≡ n - length bs =
      minus_int-small n (length bs) (omega (arith, h, l)) (omega (arith, more)) in
    let nonzero : (length bs == 0) ≡ false = ground (arith, one) in
    rw (
      left,
      advance-small ptr len (n - length bs) h k (omega (arith, l)),
      positive-small (n - length bs) (omega (arith, more)) (omega (arith, h, l)),
      negative-small (length bs) (omega (arith, h, l, more)),
      nonzero,
      take-length bs,
    )

recv_last :
    (len ptr : ℕ) (bs : List ℕ) (answers : List (ℕ × List ℕ))
    → 1 ≤ length bs
    → length bs < 0x8000_0000
    → recv_loop len (length bs) ptr ((length bs, bs) ∷ answers) ≡ some (0, (ptr, bs) ∷ [])
unfolding recv_loop
recv_last len ptr bs answers one small =
    let left : minus_int (length bs) (length bs) ≡ 0 = omega (arith, small) in
    let nonzero : (length bs == 0) ≡ false = ground (arith, one) in
    rw (left, negative-small (length bs) small, nonzero, take-length bs)

-- `_zn_recv_bytes`, when the bytes come in two pieces, each at least a byte, less than 2^31 together:
-- it returns 0, and the pieces are stored one behind the other, from the start of the buffer.
pub recv_bytes-two :
    (b c : List ℕ) (answers : List (ℕ × List ℕ))
    → 1 ≤ length b
    → 1 ≤ length c
    → length b + length c < 0x8000_0000
    → recv_bytes (length b + length c) ((length b, b) ∷ (length c, c) ∷ answers)
      ≡ some (0, (0, b) ∷ (length b, c) ∷ [])
unfolding recv_bytes
recv_bytes-two b c answers hb hc small =
    let len : ℕ = length b + length c in
    let all : len % 0x1_0000_0000 ≡ len = omega (arith, small) in
    let rest : len - length b ≡ length c = omega arith in
    let at : 0 + (len - (len - length b)) ≡ length b = omega arith in
    rw (
      all,
      recv_part len len 0 b ((length c, c) ∷ answers) small (omega arith) (omega arith) hb
          (omega (arith, hc)),
      at,
      rest,
      recv_last len (length b) c answers hc (omega (arith, small)),
    )

-- When they come in three pieces, `_zn_recv_bytes` returns 0 too, but the third piece is stored too far:
-- at twice the length of the first and the length of the second.
pub recv_bytes-three :
    (b c d : List ℕ) (answers : List (ℕ × List ℕ))
    → 1 ≤ length b
    → 1 ≤ length c
    → 1 ≤ length d
    → length b + length c + length d < 0x8000_0000
    → recv_bytes
        (length b + length c + length d)
        ((length b, b) ∷ (length c, c) ∷ (length d, d) ∷ answers)
      ≡ some (0, (0, b) ∷ (length b, c) ∷ (2 * length b + length c, d) ∷ [])
unfolding recv_bytes
recv_bytes-three b c d answers hb hc hd small =
    let len : ℕ = length b + length c + length d in
    let all : len % 0x1_0000_0000 ≡ len = omega (arith, small) in
    let at : 0 + (len - (len - length b)) ≡ length b = omega arith in
    let at' : length b + (len - (len - length b - length c)) ≡ 2 * length b + length c =
      omega arith in
    let rest : len - length b - length c ≡ length d = omega arith in
    rw (
      all,
      recv_part len len 0 b ((length c, c) ∷ (length d, d) ∷ answers) small (omega arith)
          (omega arith) hb (omega (arith, hc)),
      at,
      recv_part len (len - length b) (length b) c ((length d, d) ∷ answers) small
          (omega (arith, small)) (omega arith) hc (omega (arith, hd)),
      at',
      rest,
      recv_last len (2 * length b + length c) d answers hd (omega (arith, small)),
    )

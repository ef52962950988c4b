-- ===== src/Sample/Written.antt =====
-- What the program has written after some turns of its loop.
use zenoh_proxy.Prelude.{
  ap, true, sym, ℕ, zero, suc, ◌+◌, ◌-◌, ◌^◌, ◌≤◌, ◌<◌, ◌≡◌, ◌≢◌, refl, some, List, [], ◌∷◌, ◌++◌,
  ltb, length, length-append, map, append_assoc, append-nil, arith, ne→==, ◌∙◌,
}
use zenoh_proxy.Cbor.Reads.{NoNul, c_string-NoNul}
use zenoh_proxy.Cbor.Deserializer.{c_string}
use zenoh_proxy.Sample.Decimal.{decimal, decimal-length, decimal-NoNul, All-append}
use zenoh_proxy.Sample.{
  Call, zn_open, zn_declare_publisher, sys_sleep, zn_write, value_default, uri_default, argument,
  spaces, padded, text_of, buf_size, write_loop, in_loop, looping, peer_config, declare_uri, main,
}

-- What has been written, on which session and to which resource, in order.
pub writes : List Call → List (ℕ × ℕ × List ℕ)
writes [] = []
writes (zn_write s reskey bs ∷ cs) = writes cs ++ (s, reskey, bs) ∷ []
writes (c ∷ cs) = writes cs

-- How often the program has slept, a second each time.
pub sleeps : List Call → ℕ
sleeps [] = 0
sleeps (sys_sleep n ∷ cs) = sleeps cs + n
sleeps (c ∷ cs) = sleeps cs

-- The numbers from `idx` on.
abbrev pub numbers : ℕ → ℕ → List ℕ
numbers idx zero = []
numbers idx (suc n) = idx ∷ numbers (suc idx) n

abbrev pub entry : ℕ → ℕ → List ℕ → ℕ → ℕ × ℕ × List ℕ
entry s reskey value idx = (s, reskey, text_of idx value)

spaces-length : (n : ℕ) → length (spaces n) ≡ n
unfolding spaces
spaces-length zero = refl
spaces-length (suc n) = rw (spaces-length n)

spaces-NoNul : (n : ℕ) → NoNul (spaces n)
unfolding spaces
spaces-NoNul zero = tt
spaces-NoNul (suc n) = (omega arith, spaces-NoNul n)

text_of-length : (idx : ℕ) (value : List ℕ) → length (text_of idx value) ≤ 13 + length value
unfolding text_of padded
text_of-length idx value =
    let shown : List ℕ = decimal idx in
    let blank : List ℕ = spaces (4 - length shown) in
    omega (
      arith,
      decimal-length idx,
      spaces-length (4 - length shown),
      length-append blank shown,
      length-append (blank ++ shown) (93 ∷ 32 ∷ value),
    )

text_of-NoNul : (idx : ℕ) (value : List ℕ) → NoNul value → NoNul (text_of idx value)
unfolding text_of padded
text_of-NoNul idx value plain =
    let shown : List ℕ = decimal idx in
    let blank : List ℕ = spaces (4 - length shown) in
    (
      omega arith,
      All-append _ (blank ++ shown) (93 ∷ 32 ∷ value)
          (All-append _ blank shown (spaces-NoNul (4 - length shown)) (decimal-NoNul idx))
          (omega arith, (omega arith, plain)),
    )

-- From the calls before the loop on.
record Wrote (turns idx s reskey : ℕ) (value : List ℕ) (cs : List Call) : Type 0 where
  after : List Call
  stays : write_loop turns idx s reskey value cs ≡ some after
  written : writes after ≡ writes cs ++ map (entry s reskey value) (numbers idx turns)
  slept : sleeps after ≡ sleeps cs + turns

write_loop-Wrote :
    (turns idx s reskey : ℕ) (value : List ℕ) (cs : List Call)
    → NoNul value
    → length value ≤ 242
    → idx + turns < 2 ^ 31
    → Wrote turns idx s reskey value cs
unfolding write_loop writes sleeps
write_loop-Wrote zero idx s reskey value cs plain short few = record {
  after = cs;
  stays = refl;
  written = sym (append-nil (writes cs));
  slept = omega arith;
}
write_loop-Wrote (suc turns) idx s reskey value cs plain short few =
    let text : List ℕ = text_of idx value in
    let same : c_string text ≡ text = c_string-NoNul text (text_of-NoNul idx value plain) in
    let fits : ltb (length text) buf_size ≡ true = ground (arith, text_of-length idx value) in
    let more : ltb (suc idx) (2 ^ 31) ≡ true = ground arith in
    let rest =
      write_loop-Wrote turns (suc idx) s reskey value (zn_write s reskey text ∷ sys_sleep 1 ∷ cs)
        plain short (omega arith) in
    record {
      after = rest.after;
      stays = rw (same, fits, more) rest.stays;
      written =
          rest.written
          ∙ append_assoc (writes cs) (entry s reskey value idx ∷ [])
              (map (entry s reskey value) (numbers (suc idx) turns));
      slept = omega (arith, rest.slept);
    }

module _ (answer : List Call → Call → ℕ) where
  -- The session, the resource and the publisher that `main` is given.
  abbrev pub session : List (List ℕ) → ℕ
  session argv = let (config, cs) = peer_config answer argv in answer cs (zn_open config)

  abbrev pub declared : List (List ℕ) → ℕ × List Call
  declared argv =
      let (config, cs) = peer_config answer argv in
      declare_uri answer (argument 1 uri_default argv) (session argv) (zn_open config ∷ cs)

  abbrev pub publisher : List (List ℕ) → ℕ
  publisher argv =
      let (rid, cs) = declared argv in answer cs (zn_declare_publisher (session argv) rid)

  -- Before the loop, nothing is written and there is no wait.
  peer_config-quiet :
      (argv : List (List ℕ))
      → (writes (peer_config answer argv).1 ≡ []) × (sleeps (peer_config answer argv).1 ≡ 0)
  unfolding peer_config writes sleeps
  peer_config-quiet argv = ground arith

  -- If the session and the publisher are given, and the value has at most 242 bytes: after any number
  -- of turns for which the counter is enough the program is in its loop, has slept a second for each
  -- of them, and has written on its session, to its resource, exactly the texts of 0, 1 and so on.
  pub main-writes :
      (turns : ℕ) (argv : List (List ℕ))
      → session argv ≢ 0
      → publisher argv ≢ 0
      → NoNul (argument 2 value_default argv)
      → length (argument 2 value_default argv) ≤ 242
      → turns < 2 ^ 31
      → (cs : List Call) × (main answer turns argv ≡ in_loop cs)
        × (writes cs
            ≡ map
                (entry (session argv) (declared argv).0 (argument 2 value_default argv))
                (numbers 0 turns))
        × (sleeps cs ≡ turns)
  unfolding main writes sleeps looping peer_config declare_uri
  main-writes turns argv alive given plain short few =
      let cs : List Call =
        zn_declare_publisher (session argv) (declared argv).0 ∷ (declared argv).1 in
      let written = entry (session argv) (declared argv).0 (argument 2 value_default argv) in
      let w =
        write_loop-Wrote turns 0 (session argv) (declared argv).0 (argument 2 value_default argv) cs
          plain short (omega arith) in
      (
        w.after,
        rw (ne→== (session argv) 0 alive, ne→== (publisher argv) 0 given, w.stays),
        w.written ∙ ap (λ ws. ws ++ map written (numbers 0 turns)) (peer_config-quiet argv).0,
        omega (arith, w.slept, (peer_config-quiet argv).1),
      )

-- ===== src/Dump/Walk.antt =====
-- common/CborDump.cpp: the loop of `dumpCborRecursive` and its recursion, on a common fuel.
use zenoh_proxy.Prelude.{
  ℕ, ◌+◌, true, false, Option, none, some, List, [], ◌∷◌, ◌==◌, ◌>>=◌, zero, suc,
}
use zenoh_proxy.Dump.{Kind, array_type, map_type, Decoder, Format, Stream, put, indent, dump_item}

-- "Array[", "]", "Map{" and "}"
abbrev pub array_open : List ℕ
array_open = 65 ∷ 114 ∷ 114 ∷ 97 ∷ 121 ∷ 91 ∷ []

abbrev pub array_close : List ℕ
array_close = 93 ∷ []

abbrev pub map_open : List ℕ
map_open = 77 ∷ 97 ∷ 112 ∷ 123 ∷ []

abbrev pub map_close : List ℕ
map_close = 125 ∷ []

module _ (f : Format) (d : Decoder) where
  -- The error, the iterator and the text.
  abbrev pub Outcome : Type 0
  Outcome = Option (ℕ × d.Value × Stream)

  -- `CBOR_CHECK`, and the next turn of the loop.
  unfoldable pub checked : (d.Value → Stream → Outcome) → ℕ × d.Value × Stream → Outcome
  checked later (rc, it, ss) = elim (rc == 0) [ true ↦ later it ss | false ↦ some (rc, it, ss) ]

  -- A container behind its elements: it is left, and the closing bracket is printed.
  unfoldable pub left_behind :
      (d.Value → Stream → Outcome) → ℕ → d.Value → List ℕ → d.Value → Stream → Outcome
  left_behind later level it close r ss =
      let (rc, it') = d.leave_container it r in
      checked (λ i s. later i (put close (indent level s))) (rc, it', ss)

  -- A container: `inner` dumps the elements, `later` goes on behind it.
  unfoldable pub nested :
      (d.Value → Stream → Outcome)
      → (d.Value → Stream → Outcome)
      → ℕ
      → d.Value
      → List ℕ
      → List ℕ
      → Stream
      → Outcome
  nested later inner level it bracket close ss =
      let (rc, r) = d.enter_container it in
      let opened = put bracket ss in
      elim (rc == 0) [
        | true ↦ inner r opened >>= λ q. checked (λ r' s. left_behind later level it close r' s) q
        | false ↦ some (rc, it, opened)
      ]

  unfoldable pub walk :
      (d.Value → Stream → Outcome)
      → (d.Value → Stream → Outcome)
      → ℕ
      → d.Value
      → Kind
      → Stream
      → Outcome
  walk later inner level it array_type ss = nested later inner level it array_open array_close ss
  walk later inner level it map_type ss = nested later inner level it map_open map_close ss
  walk later inner level it k ss = checked later (dump_item f d k it ss)

  unfoldable pub dump_recursive : ℕ → ℕ → d.Value → Stream → Outcome
  dump_recursive zero level it ss = none
  dump_recursive (suc fuel) level it ss =
      let later : d.Value → Stream → Outcome = λ i s. dump_recursive fuel level i s in
      let inner : d.Value → Stream → Outcome = λ i s. dump_recursive fuel (level + 1) i s in
      elim (d.at_end it) [
        | true ↦ some (0, it, ss)
        | false ↦ walk later inner level it (d.get_type it) (indent level ss)
      ]

  -- `cborDump`: errors are not looked at.
  unfoldable pub cbor_dump : ℕ → List ℕ → Option (List ℕ)
  cbor_dump fuel bs =
      dump_recursive fuel 0 (d.parser_init bs).1 (record { text = []; hex = false }) >>= λ r.
      some r.2.text

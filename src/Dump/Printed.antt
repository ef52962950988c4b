-- ===== src/Dump/Printed.antt =====
-- That `cborDump` of common/CborDump.cpp prints the text of the values.
use zenoh_proxy.Prelude.{
  ℕ, ◌+◌, ◌≤◌, ◌≡◌, refl, true, false, some, List, [], ◌∷◌, zero, suc, arith, ◌∙◌,
}
use zenoh_proxy.Dump.{Decoder, Format, Stream, put, indent, got, advanced, passed, dump_item}
use zenoh_proxy.Dump.Walk.{Outcome, checked, left_behind, nested, walk, dump_recursive, cbor_dump}
use zenoh_proxy.Dump.Tree.{
  Leaf, int_leaf, bytes_leaf, text_leaf, tag_leaf, simple_leaf, null_leaf, undefined_leaf,
  boolean_leaf, half_leaf, float_leaf, double_leaf, Bracket, array, mapping, Values, end, leaf,
  nest, turns, opening, closing, kind, put_leaf, print, leaf_kind, Gets, Passes, behind, Laws,
}

module _ (f : Format) (d : Decoder) where
  item-leaf :
      (v : d.Value) (l : Leaf) (ss : Stream)
      → Gets d v l
      → Passes d v l
      → dump_item f d (leaf_kind l) v ss ≡ (0, behind d v l, put_leaf f l ss)
  unfolding dump_item advanced got passed put_leaf
  item-leaf v (int_leaf n) ss g p = rw (g, p)
  item-leaf v (bytes_leaf bs) ss g p = rw (g.0, g.1)
  item-leaf v (text_leaf bs) ss g p = rw (g.0, g.1)
  item-leaf v (tag_leaf n) ss g p = rw (g, p)
  item-leaf v (simple_leaf n) ss g p = rw (g, p)
  item-leaf v null_leaf ss g p = rw p
  item-leaf v undefined_leaf ss g p = rw p
  item-leaf v (boolean_leaf b) ss g p = rw (g, p)
  item-leaf v (half_leaf n) ss g p = rw (g, p)
  item-leaf v (float_leaf n) ss g p = rw (g, p)
  item-leaf v (double_leaf n) ss g p = rw (g, p)

  walk-leaf :
      (later inner : d.Value → Stream → Outcome f d) (level : ℕ) (v : d.Value) (l : Leaf)
      (ss : Stream)
      → walk f d later inner level v (leaf_kind l) ss
        ≡ checked f d later (dump_item f d (leaf_kind l) v ss)
  unfolding walk
  walk-leaf later inner level v (int_leaf n) ss = refl
  walk-leaf later inner level v (bytes_leaf bs) ss = refl
  walk-leaf later inner level v (text_leaf bs) ss = refl
  walk-leaf later inner level v (tag_leaf n) ss = refl
  walk-leaf later inner level v (simple_leaf n) ss = refl
  walk-leaf later inner level v null_leaf ss = refl
  walk-leaf later inner level v undefined_leaf ss = refl
  walk-leaf later inner level v (boolean_leaf b) ss = refl
  walk-leaf later inner level v (half_leaf n) ss = refl
  walk-leaf later inner level v (float_leaf n) ss = refl
  walk-leaf later inner level v (double_leaf n) ss = refl

  walk-nest :
      (later inner : d.Value → Stream → Outcome f d) (level : ℕ) (v : d.Value) (b : Bracket)
      (ss : Stream)
      → walk f d later inner level v (kind b) ss
        ≡ nested f d later inner level v (opening b) (closing b) ss
  unfolding walk
  walk-nest later inner level v array ss = refl
  walk-nest later inner level v mapping ss = refl

  dump-end :
      (fuel level : ℕ) (v : d.Value) (ss : Stream)
      → d.at_end v ≡ true
      → dump_recursive f d (suc fuel) level v ss ≡ some (0, v, ss)
  unfolding dump_recursive
  dump-end fuel level v ss e = rw (e, dump_recursive)

  checked-good :
      (later : d.Value → Stream → Outcome f d) (r : ℕ × d.Value × Stream) (v : d.Value)
      (ss : Stream)
      → r ≡ (0, v, ss)
      → checked f d later r ≡ later v ss
  unfolding checked
  checked-good later r v ss e = rw e

  dump-leaf :
      (fuel level : ℕ) (v : d.Value) (l : Leaf) (ss : Stream)
      → d.at_end v ≡ false
      → d.get_type v ≡ leaf_kind l
      → Gets d v l
      → Passes d v l
      → dump_recursive f d (suc fuel) level v ss
        ≡ dump_recursive f d fuel level (behind d v l) (put_leaf f l (indent level ss))
  unfolding dump_recursive
  dump-leaf fuel level v l ss more ty gets passes =
      let later : d.Value → Stream → Outcome f d = λ i s. dump_recursive f d fuel level i s in
      let inner : d.Value → Stream → Outcome f d = λ i s. dump_recursive f d fuel (level + 1) i s in
      rw (dump_recursive, more, ty)
        (walk-leaf later inner level v l (indent level ss)
          ∙ checked-good later _ _ _ (item-leaf v l (indent level ss) gets passes))

  dump-nest :
      (fuel level : ℕ) (v : d.Value) (b : Bracket) (ss : Stream) (r' : d.Value) (inside : Stream)
      → d.at_end v ≡ false
      → d.get_type v ≡ kind b
      → (d.enter_container v).0 ≡ 0
      → dump_recursive f d fuel
          (level + 1)
          (d.enter_container v).1
          (put (opening b) (indent level ss))
        ≡ some (0, r', inside)
      → (d.leave_container v r').0 ≡ 0
      → dump_recursive f d (suc fuel) level v ss
        ≡ dump_recursive f d fuel level
            (d.leave_container v r').1
            (put (closing b) (indent level inside))
  unfolding checked dump_recursive nested left_behind put indent
  dump-nest fuel level v b ss r' inside more ty entered inner left = rw (
    dump_recursive,
    more,
    ty,
    walk-nest (λ i s. dump_recursive f d fuel level i s)
        (λ i s. dump_recursive f d fuel (level + 1) i s) level v b (indent level ss),
    nested,
    entered,
    inner,
    checked,
    left_behind,
    left,
  )

  module _ (laws : Laws d) where
    -- The dump ends without an error, at the end of the values, with their text.
    abbrev pub Prints : ℕ → Values → List Values → Stream → Outcome f d → Type 0
    Prints level xs o ss r =
        (v' : d.Value) × (r ≡ some (0, v', print f level xs ss)) × laws.At o v' end

    dump_recursive-print :
        (fuel level : ℕ) (o : List Values) (v : d.Value) (xs : Values) (ss : Stream)
        → laws.At o v xs
        → turns xs ≤ fuel
        → Prints level xs o ss (dump_recursive f d fuel level v ss)
    unfolding turns print
    dump_recursive-print zero level o v end ss h enough = absurd (omega (arith, enough))
    dump_recursive-print zero level o v (leaf l xs) ss h enough = absurd (omega (arith, enough))
    dump_recursive-print zero level o v (nest b ys xs) ss h enough = absurd (omega (arith, enough))
    dump_recursive-print (suc fuel) level o v end ss h enough =
        (v, dump-end fuel level v ss (laws.at_end o v h), h)
    dump_recursive-print (suc fuel) level o v (leaf l xs) ss h enough =
        let (more, ty, gets, passes, next) = laws.at_leaf o v l xs h in
        let ss' : Stream = put_leaf f l (indent level ss) in
        let (v', ends, at) =
          dump_recursive-print fuel level o (behind d v l) xs ss' next (omega (arith, enough)) in
        (v', dump-leaf fuel level v l ss more ty gets passes ∙ ends, at)
    dump_recursive-print (suc fuel) level o v (nest b ys xs) ss h enough =
        let (more, ty, entered, inner) = laws.at_nest o v b ys xs h in
        let ss' : Stream = put (opening b) (indent level ss) in
        let (r', printed, at_end) =
          dump_recursive-print fuel (level + 1) (xs ∷ o) (d.enter_container v).1 ys ss' inner
            (omega (arith, enough)) in
        let (left, next) = laws.leave o v r' b ys xs h at_end in
        let inside = print f (level + 1) ys ss' in
        let (v', ends, at) =
          dump_recursive-print fuel level o (d.leave_container v r').1 xs
            (put (closing b) (indent level inside)) next (omega (arith, enough)) in
        (v', dump-nest fuel level v b ss r' inside more ty entered printed left ∙ ends, at)

    -- With the laws of TinyCBOR: for bytes that hold some values, nested as they may be, and with fuel
    -- for one turn of the loop for each value and each container, `cborDump` ends, and gives the text
    -- that is printed of the values: each indented by its depth, containers in brackets.
    pub cbor_dump-print :
        (fuel : ℕ) (bs : List ℕ) (xs : Values)
        → laws.At [] (d.parser_init bs).1 xs
        → turns xs ≤ fuel
        → cbor_dump f d fuel bs ≡ some (print f 0 xs (record { text = []; hex = false })).text
    unfolding cbor_dump
    cbor_dump-print fuel bs xs h enough =
        let (v', ends, at) =
          dump_recursive-print fuel 0 [] (d.parser_init bs).1 xs (record { text = []; hex = false })
            h enough in
        rw ends

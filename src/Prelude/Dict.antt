-- ===== src/Prelude/Dict.antt =====
-- An `unordered_map<int, A>` as a list of entries. An `int` is its bit pattern.
use mathlib.Core.List.{List, [], ◌∷◌}
use mathlib.Core.Logic.{inl, inr}
use mathlib.Core.Option.{Option, none, some}
use mathlib.Core.Path.{◌≡◌, subst₂}
use Prim.Native.Nat.{ℕ}
use zenoh_proxy.Prelude.Tests.{◌==◌, ==_iff, Bool-cases, Option-cases, if◌then◌else◌}

module _ {ℓ} {A : Type ℓ} where
  -- `find`, with `none` for `end()`.
  unfoldable pub find : ℕ → List (ℕ × A) → Option A
  find k [] = none
  find k ((j, a) ∷ m) = if j == k then some a else find k m

  -- `emplace` leaves an entry that is there.
  unfoldable pub emplace : ℕ → A → List (ℕ × A) → List (ℕ × A)
  emplace k a m = elim (find k m) [ none ↦ (k, a) ∷ m | some old ↦ m ]

  pub find-emplace :
      (k j : ℕ) (a : A) (m : List (ℕ × A))
      → find k m ≡ none
      → find j (emplace k a m) ≡ (if k == j then some a else find j m)
  unfolding find emplace
  find-emplace k j a m e = rw (e, emplace)

  -- A predicate on every entry.
  abbrev pub Entries {κ} : (ℕ → A → Type κ) → List (ℕ × A) → Type κ
  Entries P [] = Unit
  Entries P ((k, a) ∷ m) = P k a × Entries P m

  pub find-Entries {κ} :
      (P : ℕ → A → Type κ) (k : ℕ) (a : A) (m : List (ℕ × A))
      → Entries P m
      → find k m ≡ some a
      → P k a
  unfolding find
  find-Entries P k a [] h e = cc
  find-Entries P k a ((j, c) ∷ m) h e = elim (Bool-cases (j == k)) [
    | inl same ↦
        let value : c ≡ a = cc (rw (same, find) at e) in subst₂ P ((==_iff j k).0 same) value h.0
    | inr other ↦ find-Entries P k a m h.1 (rw (other, find) at e)
  ]

  pub emplace-Entries {κ} :
      (P : ℕ → A → Type κ) (k : ℕ) (a : A) (m : List (ℕ × A))
      → P k a
      → Entries P m
      → Entries P (emplace k a m)
  unfolding emplace
  emplace-Entries P k a m new h = elim (Option-cases (find k m)) [
    | inl e ↦ rw (e, emplace) (new, h)
    | inr (old, e) ↦ rw (e, emplace) h
  ]

  -- No key has two entries.
  abbrev pub Distinct : List (ℕ × A) → Type ℓ
  Distinct [] = Unit
  Distinct ((k, a) ∷ m) = (find k m ≡ none) × Distinct m

  pub emplace-Distinct : (k : ℕ) (a : A) (m : List (ℕ × A)) → Distinct m → Distinct (emplace k a m)
  unfolding emplace
  emplace-Distinct k a m h = elim (Option-cases (find k m)) [
    | inl e ↦ rw (e, emplace) (e, h)
    | inr (old, e) ↦ rw (e, emplace) h
  ]

-- ===== src/Watcher/Watched.antt =====
-- Which descriptors `select` looks at: those below `_maxFd`.
use zenoh_proxy.Prelude.{
  ℕ, true, List, [], ◌∷◌, ltb, if◌then◌else◌, ◌≡◌, ◌≢◌, ◌≤◌, ◌<◌, ◌+◌, inl, inr, refl, arith, All,
  Bool-cases, ◌∙◌, ◌⊎◌, eq→==, subst, sym,
}
use zenoh_proxy.Prelude.Dict.{emplace}
use zenoh_proxy.Watcher.{Listener, Watcher, insert, erase, set_all, zeroed, add_fd, remove_fd, has}

-- The largest descriptor of a list.
pub largest : List ℕ → ℕ
largest [] = 0
largest (f ∷ fs) = if ltb (largest fs) f then f else largest fs

largest-bounds : (fds : List ℕ) (m : ℕ) → largest fds ≤ m → All (λ f. f ≤ m) fds
unfolding largest
largest-bounds [] m h = tt
largest-bounds (f ∷ fs) m h = (ground (arith, h), largest-bounds fs m (ground (arith, h)))

abbrev EndsAt : List ℕ → Watcher → Type 0
EndsAt fds w =
    let r = set_all fds w in
    (r.fds ≡ w.fds) × (r.max_fd ≡ (if ltb w.max_fd (largest fds) then largest fds else w.max_fd))

set_all-max_fd : (fds : List ℕ) (w : Watcher) → EndsAt fds w
unfolding set_all largest
set_all-max_fd [] w = (refl, ground arith)
set_all-max_fd (f ∷ fs) w =
    let (same, max) = set_all-max_fd fs (record w {
      rfds = f ∷ w.rfds;
      efds = f ∷ w.efds;
      max_fd = if ltb w.max_fd f then f else w.max_fd;
    }) in
    (same, rw max (ground arith))

has-cons : (m f : ℕ) (fs : List ℕ) → has m fs ≡ true → has m (f ∷ fs) ≡ true
unfolding has
has-cons m f fs h = rw h (ground arith)

has-largest_cons :
    (f : ℕ) (fs : List ℕ) → has (largest fs) fs ≡ true → has (largest (f ∷ fs)) (f ∷ fs) ≡ true
unfolding has largest
has-largest_cons f fs h = elim (Bool-cases (ltb (largest fs) f)) [
  | inl more ↦ rw (more, eq→== f f refl)
  | inr less ↦
      let kept : largest (f ∷ fs) ≡ largest fs = rw less in
      subst (λ m. has m (f ∷ fs) ≡ true) (sym kept) (has-cons (largest fs) f fs h)
]

has-largest : (fds : List ℕ) → fds ≢ [] → has (largest fds) fds ≡ true
unfolding has largest
has-largest [] left = absurd (left refl)
has-largest (f ∷ []) left = ground arith
has-largest (f ∷ g ∷ fs) left = has-largest_cons f (g ∷ fs) (has-largest (g ∷ fs) (λ e. cc))

All-below : (fds : List ℕ) (m : ℕ) → All (λ f. f ≤ m) fds → All (λ f. f < m + 1) fds
All-below [] m h = tt
All-below (f ∷ fs) m h = (omega (arith, h.0), All-below fs m h.1)

-- The state behind the loop, from zeroed sets.
reset-max_fd :
    (fds : List ℕ) (w : Watcher)
    → let r = set_all fds (zeroed w) in (r.fds ≡ w.fds) × (r.max_fd ≡ largest fds)
reset-max_fd fds w = let (same, max) = set_all-max_fd fds (zeroed w) in (same, max ∙ ground arith)

-- After `addFd`, select() looks at every descriptor of the set: each is below `_maxFd`.
add_fd-watched : (l : Listener) (w : Watcher) → let r = add_fd l w in All (λ f. f < r.max_fd) r.fds
unfolding add_fd
add_fd-watched l w =
    let w₁ : Watcher = record w {
      listeners = emplace l.fd l w.listeners;
      fds = insert l.fd w.fds;
    } in
    let (same, max) = reset-max_fd w₁.fds w₁ in
    rw (same, max) (All-below w₁.fds _ (largest-bounds w₁.fds _ (omega arith)))

-- After `removeFd`, `_maxFd` is the largest descriptor of the set, which select() does not look at.
remove_fd-unwatched :
    (l : Listener) (w : Watcher)
    → (remove_fd l w).fds ≢ []
    → let r = remove_fd l w in (has r.max_fd r.fds ≡ true) × All (λ f. f ≤ r.max_fd) r.fds
unfolding remove_fd
remove_fd-unwatched l w left =
    let w₁ : Watcher = record w { fds = erase l.fd (erase l.fd w.fds) } in
    let (same, max) = reset-max_fd w₁.fds w₁ in
    rw (same, max)
      (has-largest w₁.fds (λ e. left (same ∙ e)), largest-bounds w₁.fds _ (omega arith))

List-cases {ℓ} : {A : Type ℓ} (xs : List A) → (xs ≡ []) ⊎ (xs ≢ [])
List-cases [] = inl refl
List-cases (x ∷ xs) = inr (λ e. cc)

-- After `addFd`, every descriptor of the set is below `_maxFd`, so that select() looks at it. After
-- `removeFd`, the set is empty or its largest descriptor is `_maxFd` itself, so that select(), which
-- looks at those below, does not look at it.
pub changes-max_fd :
    (l : Listener) (w : Watcher)
    → let a = add_fd l w in
      let r = remove_fd l w in
      All (λ f. f < a.max_fd) a.fds
      × ((r.fds ≡ []) ⊎ ((has r.max_fd r.fds ≡ true) × All (λ f. f ≤ r.max_fd) r.fds))
changes-max_fd l w = elim (List-cases (remove_fd l w).fds) [
  | inl empty ↦ (add_fd-watched l w, inl empty)
  | inr left ↦ (add_fd-watched l w, inr (remove_fd-unwatched l w left))
]

-- ===== src/Watcher.antt =====
-- src-pico/listener.h: the class `Watcher`, which waits with select() on the descriptors of its listeners.
-- A std::set is an ordered list without duplicates, an fd_set the list of its members, a listener a
-- number with its descriptor. `select` is a parameter.
pub mod Watched
pub mod Tests
use zenoh_proxy.Prelude.{
  ℕ, Bool, true, false, Option, none, some, List, [], ◌∷◌, ◌++◌, ◌==◌, ltb, leb, if◌then◌else◌, ◌+◌,
  suc, ◌*◌, ◌/◌, ◌%◌,
}
use zenoh_proxy.Prelude.Dict.{find, emplace}

pub record Listener : Type 0 where
  pub name : ℕ
  pub fd : ℕ

pub record Watcher : Type 0 where
  pub fds : List ℕ
  pub listeners : List (ℕ × Listener)
  pub rfds : List ℕ
  pub wfds : List ℕ
  pub efds : List ℕ
  pub max_fd : ℕ

-- The constructor.
unfoldable pub construct : Watcher
construct = record { fds = []; listeners = []; rfds = []; wfds = []; efds = []; max_fd = 0 }

-- `insert` and `erase` of the set.
unfoldable pub insert : ℕ → List ℕ → List ℕ
insert fd [] = fd ∷ []
insert fd (f ∷ fs) =
    let rest = insert fd fs in
    if fd == f then f ∷ fs else (if ltb fd f then fd ∷ f ∷ fs else f ∷ rest)

unfoldable pub erase : ℕ → List ℕ → List ℕ
erase fd [] = []
erase fd (f ∷ fs) = let rest = erase fd fs in if fd == f then fs else f ∷ rest

-- The loop over the set, behind the three FD_ZERO.
unfoldable pub set_all : List ℕ → Watcher → Watcher
set_all [] w = w
set_all (fd ∷ fds) w = set_all fds (record w {
  rfds = fd ∷ w.rfds;
  efds = fd ∷ w.efds;
  max_fd = if ltb w.max_fd fd then fd else w.max_fd;
})

abbrev pub zeroed : Watcher → Watcher
zeroed w = record w { rfds = []; wfds = []; efds = []; max_fd = 0 }

unfoldable pub add_fd : Listener → Watcher → Watcher
add_fd l w =
    let w₁ : Watcher = record w {
      listeners = emplace l.fd l w.listeners;
      fds = insert l.fd w.fds;
    } in
    let w₂ : Watcher = set_all w₁.fds (zeroed w₁) in record w₂ { max_fd = w₂.max_fd + 1 }

-- `removeFd` erases twice, and leaves the listener in the map and `_maxFd` at the largest descriptor.
unfoldable pub remove_fd : Listener → Watcher → Watcher
remove_fd l w =
    let w₁ : Watcher = record w { fds = erase l.fd (erase l.fd w.fds) } in
    set_all w₁.fds (zeroed w₁)

-- What a listener is told. A descriptor of the set has a listener: the map is never erased.
pub data Event : Type 0 where
  on_rxd : Listener → Event
  on_error : Listener → Event

unfoldable pub has : ℕ → List ℕ → Bool
has fd [] = false
has fd (f ∷ fs) = let rest = has fd fs in if f == fd then true else rest

abbrev told : (Listener → Event) → Bool → Option Listener → List Event
told event false l = []
told event true none = []
told event true (some l) = event l ∷ []

-- The loop of `waitIO` over the set, with the two results of select().
unfoldable pub tell : List (ℕ × Listener) → (fds rfds efds : List ℕ) → List Event
unfolding has
tell listeners [] rfds efds = []
tell listeners (fd ∷ fds) rfds efds =
    told on_rxd (has fd rfds) (find fd listeners)
    ++ told on_error (has fd efds) (find fd listeners)
    ++ tell listeners fds rfds efds

abbrev pub etimedout : ℕ
etimedout = 110

abbrev pub eio : ℕ
eio = 5

-- What select() returns: its result, a 32-bit pattern, and the two sets.
pub record Selected : Type 0 where
  pub rc : ℕ
  pub rfds : List ℕ
  pub efds : List ℕ

-- `waitIO`: the return value, and the events in their order. select() is asked with `_maxFd`, the two
-- sets, and the seconds and microseconds of the timeout.
unfoldable pub wait_io :
    ((nfds : ℕ) (rfds efds : List ℕ) (sec usec : ℕ) → Selected) → ℕ → Watcher → ℕ × List Event
wait_io select msec w =
    let r : Selected =
      select w.max_fd w.rfds w.efds (msec / 1000) (msec * 1000 % 0x1_0000_0000 % 1000000) in
    if r.rc == 0
    then (etimedout, [])
    else (if leb 0x8000_0000 r.rc then (eio, []) else (eio, tell w.listeners w.fds r.rfds r.efds))

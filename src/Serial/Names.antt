-- ===== src/Serial/Names.antt =====
-- `shortName` of src/serial.cpp: what is shown of a port's path.
use zenoh_proxy.Prelude.Prefix.{starts_with}
use zenoh_proxy.Prelude.{
  sym, ℕ, false, Option, none, some, List, [], ◌∷◌, ◌++◌, ◌==◌, if◌then◌else◌, drop, ◌≡◌, ◌≢◌, refl,
  All, ne→==,
}

-- `_port.find("/dev/tty") == 0`
abbrev pub dev_tty : List ℕ
dev_tty = 47 ∷ 100 ∷ 101 ∷ 118 ∷ 47 ∷ 116 ∷ 116 ∷ 121 ∷ []

-- `_port.substr(_port.rfind('/') + 1)`, with `none` for `npos`.
unfoldable pub after_last_slash : List ℕ → Option (List ℕ)
after_last_slash [] = none
after_last_slash (c ∷ cs) = elim (after_last_slash cs) [
  | some rest ↦ some rest
  | none ↦ if c == 47 then some cs else none
]

-- `shortName`
unfoldable pub short_name : List ℕ → List ℕ
short_name port =
    if starts_with dev_tty port
    then drop 8 port
    else (elim (after_last_slash port) [ none ↦ port | some rest ↦ rest ])

-- No byte of the name is a slash.
abbrev pub NoSlash : List ℕ → Type 0
NoSlash = All (λ c. c ≢ 47)

after_last_slash-NoSlash : (name : List ℕ) → NoSlash name → after_last_slash name ≡ none
unfolding after_last_slash
after_last_slash-NoSlash [] h = refl
after_last_slash-NoSlash (c ∷ cs) h = rw (after_last_slash-NoSlash cs h.1, ne→== c 47 h.0)

after_last_slash-append :
    (dir name : List ℕ) → NoSlash name → after_last_slash (dir ++ 47 ∷ name) ≡ some name
unfolding after_last_slash
after_last_slash-append [] name h = rw (after_last_slash-NoSlash name h)
after_last_slash-append (c ∷ cs) name h = rw (after_last_slash-append cs name h)

short_name-NoSlash : (name : List ℕ) → NoSlash name → short_name name ≡ name
unfolding short_name starts_with after_last_slash
short_name-NoSlash [] h = refl
short_name-NoSlash (c ∷ cs) h =
    rw (ne→== 47 c (λ e. h.0 (sym e)), after_last_slash-NoSlash (c ∷ cs) h)

-- A port `dir/name` whose path does not start with /dev/tty, with no slash in `name`, is shown as
-- `name`; a port without any slash is shown as it is.
pub short_name-name :
    (dir name : List ℕ)
    → NoSlash name
    → starts_with dev_tty (dir ++ 47 ∷ name) ≡ false
    → (short_name (dir ++ 47 ∷ name) ≡ name) × (short_name name ≡ name)
unfolding short_name
short_name-name dir name h other =
    (rw (other, after_last_slash-append dir name h), short_name-NoSlash name h)

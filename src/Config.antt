-- ===== src/Config.antt =====
-- src/config.cpp: `loadFile`, over the C library: `fread` is a parameter, the bytes that its calls put
-- into the buffer, by their number.
pub mod Loaded
use zenoh_proxy.Prelude.{ℕ, Bool, true, false, Option, none, some, List, [], ◌∷◌, ◌++◌, zero, suc}

-- The size of the buffer.
abbrev pub buffer_size : ℕ
buffer_size = 256

-- "{}"
abbrev pub no_config : List ℕ
no_config = 123 ∷ 125 ∷ []

module _ (fread : ℕ → List ℕ) where
  -- The loop, on fuel, with the number of the next call and the text so far; a call that reads nothing
  -- ends it.
  unfoldable pub read_loop : ℕ → ℕ → List ℕ → Option (List ℕ)
  read_loop zero n str = none
  read_loop (suc fuel) n str = elim (fread n) [
    | [] ↦ some str
    | b ∷ bs ↦ read_loop fuel (suc n) (str ++ b ∷ bs)
  ]

  -- A file that cannot be opened is told, and taken for an empty configuration.
  unfoldable pub load_file : ℕ → (opens : Bool) → Option (List ℕ)
  unfolding read_loop
  load_file fuel false = some no_config
  load_file fuel true = read_loop fuel 0 []

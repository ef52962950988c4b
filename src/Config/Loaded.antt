-- ===== src/Config/Loaded.antt =====
-- What `loadFile` of src/config.cpp gives for a file that can be opened.
use zenoh_proxy.Prelude.{
  true, ℕ, ◌+◌, ◌≤◌, ◌≡◌, some, List, [], ◌∷◌, ◌++◌, zero, suc, length, arith, take, drop,
  append_assoc, append-nil, ◌∙◌, ap, take-append-drop, length-drop, ◌*◌,
}
use zenoh_proxy.Config.{buffer_size, read_loop, load_file}

-- A call of `fread` on a file gives the next bytes of its content, as many as the buffer takes.
abbrev pub reads_of : List ℕ → ℕ → List ℕ
reads_of content zero = take buffer_size content
reads_of content (suc n) = reads_of (drop buffer_size content) n

read_loop-content :
    (fread : ℕ → List ℕ) (fuel n : ℕ) (str content : List ℕ)
    → ((k : ℕ) → fread (n + k) ≡ reads_of content k)
    → length content + buffer_size ≤ fuel * buffer_size
    → read_loop fread fuel n str ≡ some (str ++ content)
unfolding read_loop
read_loop-content fread zero n str content h enough = absurd (omega arith)
read_loop-content fread (suc fuel) n str [] h enough =
    let none_left : fread n ≡ [] = ap fread (omega arith) ∙ h 0 in
    rw (none_left, append-nil str, read_loop)
read_loop-content fread (suc fuel) n str (c ∷ cs) h enough =
    let first : List ℕ = take buffer_size (c ∷ cs) in
    let rest : List ℕ = drop buffer_size (c ∷ cs) in
    let next : fread n ≡ first = ap fread (omega arith) ∙ h 0 in
    let later : (k : ℕ) → fread (suc n + k) ≡ reads_of rest k =
      λ k. ap fread (omega arith) ∙ h (suc k) in
    let ends =
      read_loop-content fread fuel (suc n) (str ++ first) rest later
        (omega (arith, length-drop buffer_size (c ∷ cs))) in
    rw (next, read_loop)
      (ends
        ∙ ap some (
            append_assoc str first rest
            ∙ ap (λ q. str ++ q) (take-append-drop buffer_size (c ∷ cs))))

-- For a file that can be opened, with fuel for a call for each 256 bytes that have begun and one more,
-- `loadFile` ends and gives the whole content.
pub load_file-content :
    (content : List ℕ) (fuel : ℕ)
    → length content + buffer_size ≤ fuel * buffer_size
    → load_file (reads_of content) fuel true ≡ some content
unfolding load_file
load_file-content content fuel enough =
    read_loop-content (reads_of content) fuel 0 [] content
      (λ k. let e : 0 + k ≡ k = omega arith in ap (reads_of content) e) enough

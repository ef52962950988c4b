-- ===== src/Hello/Found.antt =====
-- What `scout` of src/BrokerZenoh.cpp tells of the processes that zenoh has found.
use mathlib.Core.List.{flatten}
use zenoh_proxy.Prelude.{ℕ, ◌≡◌, refl, List, [], ◌∷◌, ◌++◌, map, append-nil, ◌∙◌, ap, ap₂}
use zenoh_proxy.Hello.{
  Hello, Event, config_default, insert_listener, zn_scout, hello_info, locator_info,
  hello_array_free, none_warn, locators_loop, hellos_loop, report, scout,
}

-- The locators that are told, and how many processes are.
abbrev pub told : List Event → List (List ℕ)
told [] = []
told (locator_info l ∷ es) = l ∷ told es
told (e ∷ es) = told es

told-append : (es fs : List Event) → told (es ++ fs) ≡ told es ++ told fs
told-append [] fs = refl
told-append (locator_info l ∷ es) fs = ap (λ ls. l ∷ ls) (told-append es fs)
told-append (config_default ∷ es) fs = told-append es fs
told-append (insert_listener t ∷ es) fs = told-append es fs
told-append (zn_scout m d ∷ es) fs = told-append es fs
told-append (hello_info k p ∷ es) fs = told-append es fs
told-append (hello_array_free ∷ es) fs = told-append es fs
told-append (none_warn ∷ es) fs = told-append es fs

told-locators_loop : (ls : List (List ℕ)) → told (locators_loop ls) ≡ ls
unfolding locators_loop
told-locators_loop [] = refl
told-locators_loop (l ∷ ls) = ap (λ q. l ∷ q) (told-locators_loop ls)

module _ (zn_router zn_peer : ℕ) (size_text : List ℕ → List ℕ) where
  told-hellos_loop :
      (hs : List Hello)
      → told (hellos_loop zn_router zn_peer size_text hs) ≡ flatten (map (λ h. h.locators) hs)
  unfolding hellos_loop flatten
  told-hellos_loop [] = refl
  told-hellos_loop (h ∷ hs) =
      told-append (locators_loop h.locators) (hellos_loop zn_router zn_peer size_text hs)
      ∙ ap₂ (λ xs ys. xs ++ ys) (told-locators_loop h.locators) (told-hellos_loop hs)

  -- Exactly the locators of the processes are told, in order.
  pub scout-told :
      (hs : List Hello)
      → told (scout zn_router zn_peer size_text hs).0 ≡ flatten (map (λ h. h.locators) hs)
  unfolding scout report flatten
  scout-told [] = refl
  scout-told (h ∷ hs) =
      told-append (hellos_loop zn_router zn_peer size_text (h ∷ hs)) (hello_array_free ∷ [])
      ∙ append-nil (told (hellos_loop zn_router zn_peer size_text (h ∷ hs)))
      ∙ told-hellos_loop (h ∷ hs)

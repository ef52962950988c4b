-- ===== src/Sample/Tests.antt =====
-- Runs against a zenoh-pico that answers every call by the number of calls so far.
use zenoh_proxy.Prelude.{map, arith, none, ℕ, suc, ◌≡◌, ◌≢◌, refl, List, [], ◌∷◌, length}
use zenoh_proxy.Cbor.Deserializer.{c_string}
use zenoh_proxy.Sample.Decimal.{decimal, digits_of}
use zenoh_proxy.Sample.Written.{writes, sleeps, numbers, entry, main-writes}
use zenoh_proxy.Sample.{
  zn_config_default, zn_open, znp_start_read_task, znp_start_lease_task, zn_declare_resource,
  zn_declare_publisher, sys_sleep, zn_write, Call, in_loop, undefined, main, argument, write_loop,
  spaces, peer_config, declare_uri, looping, text_of, padded,
}

abbrev counting : List Call → Call → ℕ
counting cs c = suc (length cs)

-- The name of the program, a resource and the value "hi".
abbrev two_words : List (List ℕ)
two_words = (112 ∷ []) ∷ (47 ∷ 97 ∷ []) ∷ (104 ∷ 105 ∷ []) ∷ []

main-writes_example :
    (cs : List Call) × (main counting 2 two_words ≡ in_loop cs)
    × (writes cs ≡ map (entry 2 5 (104 ∷ 105 ∷ [])) (numbers 0 2))
    × (sleeps cs ≡ 2)
unfolding argument main peer_config declare_uri
main-writes_example =
    main-writes counting 2 two_words (λ e. cc) (λ e. cc) (omega arith, (omega arith, tt))
      (omega arith) (omega arith)

two_turns :
    main counting 2 two_words
    ≡ in_loop (
        zn_write 2 5 (text_of 1 (104 ∷ 105 ∷ []))
        ∷ sys_sleep 1
        ∷ zn_write 2 5 (text_of 0 (104 ∷ 105 ∷ []))
        ∷ sys_sleep 1
        ∷ zn_declare_publisher 2 5
        ∷ zn_declare_resource 2 (47 ∷ 97 ∷ [])
        ∷ znp_start_lease_task 2
        ∷ znp_start_read_task 2
        ∷ zn_open 1
        ∷ zn_config_default
        ∷ [])
unfolding main argument write_loop spaces peer_config declare_uri looping text_of padded decimal
    digits_of c_string
two_turns = refl

-- A value of 249 bytes is too long for the buffer of 256, at the first turn.
overrun : main counting 1 ([] ∷ [] ∷ spaces 249 ∷ []) ≡ undefined
unfolding main argument write_loop spaces peer_config declare_uri looping text_of padded decimal
    digits_of
overrun = refl

fits_still : write_loop 1 0 2 5 (spaces 248) [] ≢ none
unfolding write_loop spaces text_of padded decimal digits_of
fits_still = λ e. cc

-- "[  42] h" and "[12345] h"
short_number : text_of 42 (104 ∷ []) ≡ 91 ∷ 32 ∷ 32 ∷ 52 ∷ 50 ∷ 93 ∷ 32 ∷ 104 ∷ []
unfolding text_of padded decimal digits_of spaces
short_number = refl

long_number : text_of 12345 (104 ∷ []) ≡ 91 ∷ 49 ∷ 50 ∷ 51 ∷ 52 ∷ 53 ∷ 93 ∷ 32 ∷ 104 ∷ []
unfolding text_of padded decimal digits_of spaces
long_number = refl

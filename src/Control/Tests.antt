-- ===== src/Control/Tests.antt =====
-- Runs of pack_control and unpack_control, and an instance of their theorem.
use l2tpns.Prelude.{ℕ, ◌≤◌, ◌≡◌, refl, List, [], ◌∷◌, ◌++◌, some, map, length, replicate, arith}
use l2tpns.Control.{pack_control, unpack_control, known_type, parsed, failed, long, short}
use l2tpns.Control.RoundTrip.{string_at, unpack_control-pack_control}

-- "load" with one argument "ab" and an empty one.
abbrev load_args : List (List ℕ)
load_args = (97 ∷ 98 ∷ []) ∷ [] ∷ []

packed :
    pack_control [] 20 0x11 load_args ≡ some (0x90 ∷ 0x13 ∷ 0x11 ∷ 2 ∷ 2 ∷ 97 ∷ 98 ∷ 0 ∷ 255 ∷ [])
unfolding pack_control
packed = refl

trailing : unpack_control (0x90 ∷ 0x13 ∷ 0x11 ∷ 0 ∷ 255 ∷ 1 ∷ []) 6 ≡ failed long
unfolding unpack_control
trailing = refl

cut_short : unpack_control (0x90 ∷ 0x13 ∷ 0x11 ∷ 1 ∷ 4 ∷ 1 ∷ []) 6 ≡ failed short
unfolding unpack_control
cut_short = refl

-- The length byte of an argument of 300 characters is 44.
long_argument :
    pack_control (replicate 511 7) 400 0x14 (replicate 300 97 ∷ [])
    ≡ some (0x90 ∷ 0x13 ∷ 0x14 ∷ 1 ∷ 44 ∷ replicate 44 97 ++ replicate 256 7 ++ 255 ∷ [])
unfolding pack_control
long_argument = refl

unpack_control-pack_control_example :
    (bytes : List ℕ) × (pack_control [] 20 0x11 load_args ≡ some bytes)
    × length bytes ≤ 20
    × ((pkt argv : List ℕ) × (unpack_control bytes (length bytes) ≡ parsed 0x11 pkt argv)
        × (map (string_at pkt) argv ≡ load_args))
unfolding known_type
unpack_control-pack_control_example =
    unpack_control-pack_control [] 20 0x11 load_args
      (omega arith, (λ e. ground arith, (λ e. ground arith, tt)), (omega arith, tt, tt))
      (omega arith) refl (omega arith) (omega arith)

-- ===== src/Rle/Tests.antt =====
-- Runs of the run-length code on small inputs, and instances of its theorems.
use l2tpns.Prelude.{ℕ, ◌≤◌, ◌≡◌, refl, List, [], ◌∷◌, ◌++◌, some, arith, length}
use l2tpns.Rle.{Coded, rle_compress, rle_decompress}
use l2tpns.Rle.RoundTrip.{rle_decompress-rle_compress}
use l2tpns.Rle.Room.{rle_compress_returns}
use l2tpns.Rle.Blocks.{compressed, plain, hb_add_type, read_block, read_block-hb_add_type}

abbrev entry : List ℕ
entry = 7 ∷ 0 ∷ 0 ∷ 0 ∷ 0 ∷ 5 ∷ 6 ∷ 0 ∷ []

abbrev coded_entry : Coded
coded_entry = record { dst = 1 ∷ 7 ∷ 132 ∷ 2 ∷ 5 ∷ 6 ∷ 129 ∷ 0 ∷ []; rest = []; size = 8 }

entry_compressed : rle_compress entry 16 ≡ some coded_entry
unfolding rle_compress
entry_compressed = refl

-- A buffer of 5 bytes stops the compressor early.
rle_compress_short :
    rle_compress entry 5
    ≡ some (record { dst = 1 ∷ 7 ∷ 132 ∷ 0 ∷ []; rest = 5 ∷ 6 ∷ 0 ∷ []; size = 4 })
unfolding rle_compress
rle_compress_short = refl

hb_add_type_plain : hb_add_type entry ≡ plain entry
unfolding hb_add_type
hb_add_type_plain = refl

hb_add_type_zeros : hb_add_type (0 ∷ 0 ∷ 0 ∷ 0 ∷ 9 ∷ []) ≡ compressed (132 ∷ 1 ∷ 9 ∷ 0 ∷ [])
unfolding hb_add_type
hb_add_type_zeros = refl

rle_decompress-rle_compress_example :
    (used : List ℕ) × (entry ≡ used ++ [])
    × (rle_decompress (coded_entry.dst ++ 9 ∷ []) 10
        ≡ some (record { dst = used; rest = 9 ∷ []; size = length used }))
rle_decompress-rle_compress_example =
    rle_decompress-rle_compress entry (9 ∷ []) 16 10 coded_entry entry_compressed (omega arith)

rle_compress_returns_example :
    (c : Coded) × (rle_compress entry 16 ≡ some c)
    × (c.rest ≡ [])
    × (length c.dst ≤ 16)
    × (c.size ≡ length c.dst)
rle_compress_returns_example = rle_compress_returns entry 16 (omega arith) (omega arith)

read_block-hb_add_type_example :
    read_block 5 (hb_add_type (0 ∷ 0 ∷ 0 ∷ 0 ∷ 9 ∷ [])) (1 ∷ [])
    ≡ some (0 ∷ 0 ∷ 0 ∷ 0 ∷ 9 ∷ [], 1 ∷ [])
read_block-hb_add_type_example = read_block-hb_add_type (0 ∷ 0 ∷ 0 ∷ 0 ∷ 9 ∷ []) (1 ∷ [])

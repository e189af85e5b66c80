-- ===== src/Rle/Blocks.antt =====
-- hb_add_type of cluster.c, which chooses between the compressed and the plain form of a table
-- entry, and the branches of cluster_process_heartbeat that read an entry back (same version).
use l2tpns.Prelude.{
  ℕ, ◌+◌, ◌-◌, ◌*◌, ◌≡◌, refl, sym, ap, ◌∙◌, List, [], ◌∷◌, ◌++◌, Option, none, some, ◌&&◌, arith,
  length, length-append, take, drop, ltb, ◌==◌, if◌then◌else◌, Bool-cases, Option-cases, inl, inr,
}
use mathlib.Core.List.{append-nil}
use l2tpns.Rle.{Coded, rle_compress, rle_decompress}
use l2tpns.Rle.RoundTrip.{rle_decompress-rle_compress}

-- C_CSESSION, C_CBUNDLE, C_CTUNNEL; or C_SESSION, C_BUNDLE, C_TUNNEL.
pub data Block : Type 0 where
  compressed : List ℕ → Block
  plain : List ℕ → Block

-- The buffer has twice the size of the structure; `d - orig` is how much of it was taken.
pub choose_block : List ℕ → Option Coded → Block
choose_block entry none = plain entry
choose_block entry (some c) =
    if (length entry - length c.rest == length entry) && ltb c.size (length entry)
    then compressed c.dst
    else plain entry

unfoldable pub hb_add_type : List ℕ → Block
unfolding choose_block rle_compress
hb_add_type entry = choose_block entry (rle_compress entry (2 * length entry))

-- The entry that a block holds and the bytes behind it, `size` being the structure's: the
-- decompression buffer has 2 bytes more, and any other length is refused.
pub check_size : ℕ → Option Coded → Option (List ℕ × List ℕ)
check_size size none = none
check_size size (some c) = if c.size == size then some (c.dst, c.rest) else none

pub read_block : ℕ → Block → List ℕ → Option (List ℕ × List ℕ)
unfolding check_size rle_decompress
read_block size (compressed bytes) more =
    check_size size (rle_decompress (bytes ++ more) (size + 2))
read_block size (plain bytes) more =
    let packet = bytes ++ more in
    if ltb (length packet) size then none else some (take size packet, drop size packet)

take-length-append : (xs ys : List ℕ) → take (length xs) (xs ++ ys) ≡ xs
take-length-append [] ys = refl
take-length-append (x ∷ xs) ys = ap (λ l. x ∷ l) (take-length-append xs ys)

drop-length-append : (xs ys : List ℕ) → drop (length xs) (xs ++ ys) ≡ ys
drop-length-append [] ys = refl
drop-length-append (x ∷ xs) ys = drop-length-append xs ys

read_plain :
    (entry more : List ℕ) → read_block (length entry) (plain entry) more ≡ some (entry, more)
unfolding read_block
read_plain entry more =
    ground (
      arith,
      length-append entry more,
      take-length-append entry more,
      drop-length-append entry more,
    )

all_used :
    (entry used rest : List ℕ)
    → entry ≡ used ++ rest
    → length entry - length rest ≡ length entry
    → used ≡ entry
all_used entry used [] split h = sym (split ∙ append-nil used)
all_used entry used (r ∷ rest) split h =
    absurd (omega (arith, ap length split, length-append used (r ∷ rest)))

read_decoded :
    (entry more : List ℕ) (bytes : List ℕ) (used : List ℕ)
    → rle_decompress (bytes ++ more) (length entry + 2)
      ≡ some (record { dst = used; rest = more; size = length used })
    → used ≡ entry
    → read_block (length entry) (compressed bytes) more ≡ some (entry, more)
unfolding read_block
read_decoded entry more bytes used e u =
    let l : length used ≡ length entry = ap length u in rw e (ground arith)

read_compressed :
    (entry more : List ℕ) (c : Coded)
    → rle_compress entry (2 * length entry) ≡ some c
    → length entry - length c.rest ≡ length entry
    → read_block (length entry) (compressed c.dst) more ≡ some (entry, more)
read_compressed entry more c e full =
    let (used, split, decoded) =
      rle_decompress-rle_compress entry more (2 * length entry) (length entry + 2) c e
        (omega arith) in
    read_decoded entry more c.dst used decoded (all_used entry used c.rest split full)

-- An entry that hb_add_type packs is read back whole, with the pointer left on what follows it,
-- whichever form was chosen.
pub read_block-hb_add_type :
    (entry more : List ℕ) → read_block (length entry) (hb_add_type entry) more ≡ some (entry, more)
unfolding hb_add_type
read_block-hb_add_type entry more = elim (Option-cases (rle_compress entry (2 * length entry))) [
  | inl e ↦ rw e (read_plain entry more)
  | inr (c, e) ↦
      let full = length entry - length c.rest == length entry in
      elim (Bool-cases (full && ltb c.size (length entry))) [
        | inr refused ↦ rw (e, choose_block, refused) (read_plain entry more)
        | inl taken ↦ rw (e, choose_block, taken) (read_compressed entry more c e (ground arith))
      ]
]

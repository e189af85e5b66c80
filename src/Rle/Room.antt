-- ===== src/Rle/Room.antt =====
-- rle_compress of cluster.c into a buffer of twice the source's size, as hb_add_type calls it.
use l2tpns.Prelude.{
  ℕ, zero, suc, ◌+◌, ◌-◌, ◌*◌, ◌≤◌, ◌≡◌, ap, ◌∙◌, List, [], ◌∷◌, ◌++◌, some, true, false, arith,
  length, lt→ltb, ◌==◌, Bool-cases, inl, inr,
}
use l2tpns.Rle.{Coded, prepend, copy_run, zero_run, compress_from, rle_compress}
use l2tpns.Rle.Runs.{Zeros-length, Copied-length, copy_run-Copied, zero_run-Zeros, zero_run_head}
use l2tpns.Rle.RoundTrip.{compress_zeros, compress_copy}
use l2tpns.Rle.Bounds.{compress_from-Ends, size-rle_compress}

copy_two :
    (b b' dsize : ℕ) (src : List ℕ)
    → (b == 0) ≡ false
    → (b' == 0) ≡ false
    → 3 ≤ dsize
    → 2 ≤ length (copy_run (b ∷ b' ∷ src) 0 dsize).bytes
unfolding copy_run
copy_two b b' dsize src e e' h = ground arith

copy_one :
    (b b' dsize : ℕ) (src : List ℕ)
    → (b == 0) ≡ false
    → (b' == 0) ≡ true
    → 3 ≤ dsize
    → let run = copy_run (b ∷ b' ∷ src) 0 dsize in (run.rest ≡ b' ∷ src) × (run.room ≡ dsize - 1)
unfolding copy_run
copy_one b b' dsize src e e' h = (ground arith, ground arith)

-- The compressor takes the whole source.
abbrev pub Complete : ℕ → ℕ → List ℕ → ℕ → Type 0
Complete fuel orig src dsize =
    (c : Coded) × (compress_from fuel orig src dsize ≡ some c) × (c.rest ≡ [])

zeros-Complete :
    (fuel orig b dsize : ℕ) (src : List ℕ)
    → (b == 0) ≡ true
    → length src ≤ fuel
    → 2 * length (b ∷ src) ≤ dsize
    → 3 ≤ dsize
    → Complete (suc fuel) orig (b ∷ src) dsize
zeros-Complete fuel orig b dsize src is_zero f h big =
    let run = zero_run (b ∷ src) 0 (dsize - 1) in
    let z = zero_run-Zeros (b ∷ src) 0 (dsize - 1) (omega arith) in
    let head = zero_run_head b src (dsize - 1) is_zero in
    let split = Zeros-length z in
    let bs = (run.count + 128) ∷ [] in
    let ends = compress_from-Ends fuel orig run.rest run.room (omega (arith, z.counted)) in
    (
      record ends.code { dst = (run.count + 128) ∷ ends.code.dst },
      compress_zeros fuel orig b dsize src (lt→ltb 2 dsize (omega arith)) is_zero
          ∙ ap (prepend bs) ends.made,
      ends.done (omega (arith, z.counted, z.roomed)),
    )

copy-Complete :
    (fuel orig b b' dsize : ℕ) (src : List ℕ)
    → (b == 0) ≡ false
    → (b' == 0) ≡ false
    → length (b' ∷ src) ≤ fuel
    → 2 * length (b ∷ b' ∷ src) ≤ dsize
    → Complete (suc fuel) orig (b ∷ b' ∷ src) dsize
copy-Complete fuel orig b b' dsize src nonzero nonzero' f h =
    let run = copy_run (b ∷ b' ∷ src) 0 (dsize - 1) in
    let r = copy_run-Copied (b ∷ b' ∷ src) 0 (dsize - 1) (omega arith) (omega arith) in
    let two = copy_two b b' (dsize - 1) src nonzero nonzero' (omega arith) in
    let split = Copied-length r in
    let bs = run.count ∷ run.bytes in
    let ends = compress_from-Ends fuel orig run.rest run.room (omega arith) in
    (
      record ends.code { dst = run.count ∷ (run.bytes ++ ends.code.dst) },
      compress_copy fuel orig b dsize (b' ∷ src) (lt→ltb 2 dsize (omega arith)) nonzero
          ∙ ap (prepend bs) ends.made,
      ends.done (omega (arith, r.roomed)),
    )

after_single :
    (fuel orig b b' dsize : ℕ) (src : List ℕ) (c : Coded)
    → (b == 0) ≡ false
    → (b' == 0) ≡ true
    → 4 ≤ dsize
    → compress_from fuel orig (b' ∷ src) (dsize - 2) ≡ some c
    → c.rest ≡ []
    → Complete (suc fuel) orig (b ∷ b' ∷ src) dsize
after_single fuel orig b b' dsize src c nonzero is_zero h made done =
    let run = copy_run (b ∷ b' ∷ src) 0 (dsize - 1) in
    let (rest, room) = copy_one b b' (dsize - 1) src nonzero is_zero (omega arith) in
    let room' : run.room ≡ dsize - 2 = omega (arith, room) in
    let inner : compress_from fuel orig run.rest run.room ≡ some c = rw (rest, room') made in
    (
      record c { dst = run.count ∷ (run.bytes ++ c.dst) },
      compress_copy fuel orig b dsize (b' ∷ src) (lt→ltb 2 dsize (omega arith)) nonzero
          ∙ ap (prepend (run.count ∷ run.bytes)) inner,
      done,
    )

single-Complete :
    (fuel orig b b' dsize : ℕ) (src : List ℕ)
    → (b == 0) ≡ false
    → (b' == 0) ≡ true
    → 1 ≤ length src
    → length (b' ∷ src) ≤ fuel
    → 2 * length (b ∷ b' ∷ src) ≤ dsize
    → Complete (suc fuel) orig (b ∷ b' ∷ src) dsize
single-Complete zero orig b b' dsize src nonzero is_zero one f h = absurd (omega arith)
single-Complete (suc fuel) orig b b' dsize src nonzero is_zero one f h =
    let (c, made, done) =
      zeros-Complete fuel orig b' (dsize - 2) src is_zero (omega arith) (omega arith)
        (omega arith) in
    after_single (suc fuel) orig b b' dsize src c nonzero is_zero (omega arith) made done

rle_compress_complete :
    (src : List ℕ) (dsize : ℕ)
    → 3 ≤ length src
    → 2 * length src ≤ dsize
    → (c : Coded) × (rle_compress src dsize ≡ some c) × (c.rest ≡ [])
unfolding rle_compress
rle_compress_complete [] dsize l h = absurd (omega arith)
rle_compress_complete (b ∷ []) dsize l h = absurd (omega arith)
rle_compress_complete (b ∷ b' ∷ src) dsize l h = elim (Bool-cases (b == 0)) [
  | inl is_zero ↦
      zeros-Complete (suc (length src)) dsize b dsize (b' ∷ src) is_zero (omega arith) h
        (omega arith)
  | inr nonzero ↦ elim (Bool-cases (b' == 0)) [
    | inl is_zero ↦
        single-Complete (suc (length src)) dsize b b' dsize src nonzero is_zero (omega arith)
          (omega arith) h
    | inr nonzero' ↦
        copy-Complete (suc (length src)) dsize b b' dsize src nonzero nonzero' (omega arith) h
  ]
]

-- A buffer of twice the source's length is enough for rle_compress to return with the whole of any
-- source of 3 bytes or more taken; it writes no more than the bytes of the buffer, and returns how
-- many it wrote.
pub rle_compress_returns :
    (src : List ℕ) (dsize : ℕ)
    → 3 ≤ length src
    → 2 * length src ≤ dsize
    → (c : Coded) × (rle_compress src dsize ≡ some c)
      × (c.rest ≡ [])
      × (length c.dst ≤ dsize)
      × (c.size ≡ length c.dst)
rle_compress_returns src dsize long room =
    let (c, made, whole) = rle_compress_complete src dsize long room in
    let (within, counted) = size-rle_compress src dsize c (omega arith) made in
    (c, made, whole, within, counted)

-- ===== src/Rle/Runs.antt =====
-- The inner loops of rle_compress and rle_decompress: what one run takes and gives back.
use l2tpns.Prelude.{
  ◌∙◌, length-append, length-replicate, ℕ, zero, suc, ◌+◌, ◌-◌, ◌≤◌, ◌<◌, ◌≡◌, refl, ap, List, [],
  ◌∷◌, ◌++◌, arith, length, replicate, true, false, not, ◌&&◌, ltb, ◌==◌, Bool-cases, inl, inr,
}
use l2tpns.Rle.{Run, copy_run, zero_run, put_zeros, put_copy}

pub record Copied (src : List ℕ) (count dsize : ℕ) (r : Run) : Type 0 where
  pub split : src ≡ r.bytes ++ r.rest
  pub counted : r.count ≡ count + length r.bytes
  pub roomed : r.room + length r.bytes ≡ dsize
  pub small : r.count ≤ 127
  pub spare : 1 ≤ r.room

pub copy_run-Copied :
    (src : List ℕ) (count dsize : ℕ)
    → count ≤ 127
    → 1 ≤ dsize
    → Copied src count dsize (copy_run src count dsize)
unfolding copy_run
copy_run-Copied [] count dsize c d = record {
  split = refl;
  counted = omega arith;
  roomed = omega arith;
  small = c;
  spare = d;
}
copy_run-Copied (b ∷ src) count dsize c d =
    elim (Bool-cases (not (b == 0) && ltb count 127 && ltb 1 dsize)) [
      | inl e ↦
          let ih = copy_run-Copied src (count + 1) (dsize - 1) (ground arith) (ground arith) in
          rw e (record {
            split = ap (λ l. b ∷ l) ih.split;
            counted = omega (arith, ih.counted);
            roomed = ground (arith, ih.roomed);
            small = ih.small;
            spare = ih.spare;
          })
      | inr e ↦ rw e (record {
        split = refl;
        counted = omega arith;
        roomed = omega arith;
        small = c;
        spare = d;
      })
    ]

pub record Zeros (src : List ℕ) (count dsize : ℕ) (r : Run) : Type 0 where
  pub more : ℕ
  pub split : src ≡ replicate more 0 ++ r.rest
  pub counted : r.count ≡ count + more
  pub roomed : r.room ≡ dsize
  pub small : r.count ≤ 127

pub zero_run-Zeros :
    (src : List ℕ) (count dsize : ℕ)
    → count ≤ 127
    → Zeros src count dsize (zero_run src count dsize)
unfolding zero_run
zero_run-Zeros [] count dsize c = record {
  more = 0;
  split = refl;
  counted = omega arith;
  roomed = refl;
  small = c;
}
zero_run-Zeros (b ∷ src) count dsize c = elim (Bool-cases (b == 0 && ltb count 127)) [
  | inl e ↦
      let ih = zero_run-Zeros src (count + 1) dsize (ground arith) in
      let b0 : b ≡ 0 = ground arith in
      rw e (record {
        more = suc ih.more;
        split = rw b0 (ap (λ l. 0 ∷ l) ih.split);
        counted = omega (arith, ih.counted);
        roomed = ih.roomed;
        small = ih.small;
      })
  | inr e ↦
      rw e (record { more = 0; split = refl; counted = omega arith; roomed = refl; small = c })
]

-- The source lengths that a run leaves.
pub Copied-length :
    {src : List ℕ} {count dsize : ℕ} {r : Run}
    → Copied src count dsize r
    → length src ≡ length r.bytes + length r.rest
Copied-length {r} c = ap length c.split ∙ length-append r.bytes r.rest

pub Zeros-length :
    {src : List ℕ} {count dsize : ℕ} {r : Run}
    → Zeros src count dsize r
    → length src + count ≡ r.count + length r.rest
Zeros-length {r} z =
    let l = ap length z.split ∙ length-append (replicate z.more 0) r.rest in
    omega (arith, l, length-replicate {A = ℕ} z.more 0, z.counted)

-- A run that begins with a byte of its kind takes at least that byte.
pub copy_run_head :
    (b : ℕ) (src : List ℕ) (dsize : ℕ)
    → (b == 0) ≡ false
    → 1 < dsize
    → 1 ≤ length (copy_run (b ∷ src) 0 dsize).bytes
unfolding copy_run
copy_run_head b src dsize e h = ground arith

pub zero_run_head :
    (b : ℕ) (src : List ℕ) (dsize : ℕ) → (b == 0) ≡ true → 1 ≤ (zero_run (b ∷ src) 0 dsize).count
unfolding zero_run
zero_run_head b src dsize e =
    let z = zero_run-Zeros src 1 dsize (omega arith) in ground (arith, z.counted)

pub put_zeros-replicate : (k room : ℕ) → k ≤ room → put_zeros k room ≡ replicate k 0
unfolding put_zeros
put_zeros-replicate zero room h = refl
put_zeros-replicate (suc k) zero h = absurd (omega arith)
put_zeros-replicate (suc k) (suc room) h =
    ap (λ l. 0 ∷ l) (put_zeros-replicate k room (omega arith))

pub put_copy-append :
    (bs rest : List ℕ) (room : ℕ)
    → length bs ≤ room
    → put_copy (length bs) (bs ++ rest) room ≡ (bs, rest)
unfolding put_copy
put_copy-append [] rest room h = refl
put_copy-append (b ∷ bs) rest zero h = absurd (omega arith)
put_copy-append (b ∷ bs) rest (suc room) h = rw (put_copy-append bs rest room (omega arith))

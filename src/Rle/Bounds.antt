-- ===== src/Rle/Bounds.antt =====
-- rle_compress of cluster.c: the size of its output, and the buffer that lets it finish.
use l2tpns.Prelude.{
  ℕ, zero, suc, ◌+◌, ◌-◌, ◌*◌, ◌≤◌, ◌≡◌, refl, sym, ap, ◌∙◌, List, [], ◌∷◌, ◌++◌, some, arith,
  length, length-append, ltb, ◌==◌, Bool-cases, some_inj, inl, inr,
}
use mathlib.Core.Path.{subst}
use l2tpns.Rle.{Coded, prepend, copy_run, zero_run, compress_from, rle_compress}
use l2tpns.Rle.Runs.{
  Copied-length, Zeros-length, copy_run-Copied, copy_run_head, zero_run-Zeros, zero_run_head,
}
use l2tpns.Rle.RoundTrip.{compress_zeros, compress_copy, prepend-some}

record Fits (orig dsize : ℕ) (c : Coded) : Type 0 where
  within : length c.dst ≤ dsize
  counted : c.size + dsize ≡ orig + length c.dst

Fits-prepend :
    (orig dsize room : ℕ) (bs : List ℕ) (c : Coded)
    → room + length bs ≡ dsize
    → Fits orig room c
    → Fits orig dsize (record c { dst = bs ++ c.dst })
Fits-prepend orig dsize room bs c h f = omega (arith, length-append bs c.dst, f.within, f.counted)

compress_from-Fits :
    (fuel orig : ℕ) (src : List ℕ) (dsize : ℕ) (c : Coded)
    → 1 ≤ dsize
    → dsize ≤ orig
    → compress_from fuel orig src dsize ≡ some c
    → Fits orig dsize c
unfolding compress_from
compress_from-Fits fuel orig [] dsize c h o e = subst (Fits orig dsize) (some_inj e) (omega arith)
compress_from-Fits zero orig (b ∷ src) dsize c h o e = absurd (cc)
compress_from-Fits (suc fuel) orig (b ∷ src) dsize c h o e = elim (Bool-cases (ltb 2 dsize)) [
  | inr full ↦ subst (Fits orig dsize) (some_inj (rw full at e)) (omega arith)
  | inl big ↦ elim (Bool-cases (b == 0)) [
    | inl is_zero ↦
        let run = zero_run (b ∷ src) 0 (dsize - 1) in
        let z = zero_run-Zeros (b ∷ src) 0 (dsize - 1) (omega arith) in
        let bs = (run.count + 128) ∷ [] in
        let (c', p, q) =
          prepend-some bs (compress_from fuel orig run.rest run.room) c
            (sym (compress_zeros fuel orig b dsize src big is_zero) ∙ e) in
        let room : 1 ≤ run.room = ground (arith, z.roomed) in
        let less : run.room + 1 ≡ dsize = ground (arith, z.roomed) in
        subst (Fits orig dsize) (sym q) (
          Fits-prepend orig dsize run.room bs c' less
            (compress_from-Fits fuel orig run.rest run.room c' room (omega arith) p))
    | inr nonzero ↦
        let run = copy_run (b ∷ src) 0 (dsize - 1) in
        let r = copy_run-Copied (b ∷ src) 0 (dsize - 1) (omega arith) (ground arith) in
        let bs = run.count ∷ run.bytes in
        let (c', p, q) =
          prepend-some bs (compress_from fuel orig run.rest run.room) c
            (sym (compress_copy fuel orig b dsize src big nonzero) ∙ e) in
        let less : run.room + length bs ≡ dsize = omega (arith, r.roomed) in
        subst (Fits orig dsize) (sym q) (
          Fits-prepend orig dsize run.room bs c' less
            (compress_from-Fits fuel orig run.rest run.room c' r.spare (omega arith) p))
  ]
]

-- rle_compress writes no more than the `dsize` bytes of its buffer, and returns how many it wrote.
pub size-rle_compress :
    (src : List ℕ) (dsize : ℕ) (c : Coded)
    → 1 ≤ dsize
    → rle_compress src dsize ≡ some c
    → (length c.dst ≤ dsize) × (c.size ≡ length c.dst)
unfolding rle_compress
size-rle_compress src dsize c h e =
    let f = compress_from-Fits (length src) dsize src dsize c h (omega arith) e in
    (f.within, omega (arith, f.counted))

pub record Ends (fuel orig : ℕ) (src : List ℕ) (dsize : ℕ) : Type 0 where
  pub code : Coded
  pub made : compress_from fuel orig src dsize ≡ some code
  pub done : 2 * length src + 1 ≤ dsize → code.rest ≡ []

pub compress_from-Ends :
    (fuel orig : ℕ) (src : List ℕ) (dsize : ℕ) → length src ≤ fuel → Ends fuel orig src dsize
unfolding compress_from
compress_from-Ends fuel orig [] dsize h = record {
  code = record { dst = 0 ∷ []; rest = []; size = orig + 1 - dsize };
  made = refl;
  done = λ _. refl;
}
compress_from-Ends zero orig (b ∷ src) dsize h = absurd (omega arith)
compress_from-Ends (suc fuel) orig (b ∷ src) dsize h = elim (Bool-cases (ltb 2 dsize)) [
  | inr full ↦ record {
    code = record { dst = 0 ∷ []; rest = b ∷ src; size = orig + 1 - dsize };
    made = rw full;
    done = λ room. absurd (ground arith);
  }
  | inl big ↦ elim (Bool-cases (b == 0)) [
    | inl is_zero ↦
        let run = zero_run (b ∷ src) 0 (dsize - 1) in
        let z = zero_run-Zeros (b ∷ src) 0 (dsize - 1) (omega arith) in
        let head = zero_run_head b src (dsize - 1) is_zero in
        let split = Zeros-length z in
        let bs = (run.count + 128) ∷ [] in
        let ih = compress_from-Ends fuel orig run.rest run.room (omega (arith, z.counted)) in
        record {
          code = record ih.code { dst = (run.count + 128) ∷ ih.code.dst };
          made = compress_zeros fuel orig b dsize src big is_zero ∙ ap (prepend bs) ih.made;
          done = λ room. ih.done (omega (arith, z.counted, z.roomed));
        }
    | inr nonzero ↦
        let run = copy_run (b ∷ src) 0 (dsize - 1) in
        let r = copy_run-Copied (b ∷ src) 0 (dsize - 1) (omega arith) (ground arith) in
        let head = copy_run_head b src (dsize - 1) nonzero (ground arith) in
        let split = Copied-length r in
        let bs = run.count ∷ run.bytes in
        let ih = compress_from-Ends fuel orig run.rest run.room (omega arith) in
        record {
          code = record ih.code { dst = run.count ∷ (run.bytes ++ ih.code.dst) };
          made = compress_copy fuel orig b dsize src big nonzero ∙ ap (prepend bs) ih.made;
          done = λ room. ih.done (omega (arith, r.roomed));
        }
  ]
]

-- ===== src/Rle/RoundTrip.antt =====
-- rle_decompress of cluster.c undoes rle_compress, whatever the sizes of the two buffers.
use l2tpns.Prelude.{
  ℕ, zero, suc, ◌+◌, ◌-◌, ◌%◌, ◌≤◌, ◌<◌, ◌≡◌, refl, sym, ap, ◌∙◌, List, [], ◌∷◌, ◌++◌, Option, none,
  some, true, false, arith, length, length-append, length-replicate, replicate, ltb, ◌==◌,
  Bool-cases, some_inj, inl, inr,
}
use mathlib.Core.Path.{subst, subst₂}
use mathlib.Core.List.{append_assoc}
use l2tpns.Rle.{
  Coded, prepend, copy_run, zero_run, compress_from, decompress_from, rle_compress, rle_decompress,
}
use l2tpns.Rle.Runs.{
  copy_run-Copied, copy_run_head, zero_run-Zeros, zero_run_head, put_zeros-replicate,
  put_copy-append,
}

-- One round of the decompressor on a run of zeros, and on a run of other bytes.
decompress_zeros :
    (fuel orig k room : ℕ) (src : List ℕ)
    → 1 ≤ k
    → k ≤ 127
    → k < room
    → decompress_from (suc fuel) orig ((k + 128) ∷ src) room
      ≡ prepend (replicate k 0) (decompress_from fuel orig src (room - k))
unfolding decompress_from
decompress_zeros fuel orig k room src h1 h2 h3 =
    let e : (k + 128) % 128 ≡ k = omega arith in
    let z = put_zeros-replicate k room (omega arith) in
    rw (e, z, length-replicate {A = ℕ} k 0) (ground arith)

decompress_copy :
    (fuel orig room : ℕ) (bs src : List ℕ)
    → 1 ≤ length bs
    → length bs ≤ 127
    → length bs < room
    → decompress_from (suc fuel) orig (length bs ∷ (bs ++ src)) room
      ≡ prepend bs (decompress_from fuel orig src (room - length bs))
unfolding decompress_from
decompress_copy fuel orig room bs src h1 h2 h3 =
    rw (put_copy-append bs src room (omega arith)) (ground arith)

-- The source bytes that a compressed block stands for.
pub record Decodes (src : List ℕ) (c : Coded) : Type 0 where
  pub used : List ℕ
  pub split : src ≡ used ++ c.rest
  pub decoded :
      (fuel orig room : ℕ) (tail : List ℕ)
      → length c.dst ≤ fuel
      → length used < room
      → room ≤ orig
      → decompress_from fuel orig (c.dst ++ tail) room
        ≡ some (record { dst = used; rest = tail; size = orig - room + length used })

stop_byte :
    (fuel orig room : ℕ) (tail : List ℕ)
    → 1 ≤ fuel
    → 0 < room
    → decompress_from fuel orig (0 ∷ tail) room
      ≡ some (record { dst = []; rest = tail; size = orig - room })
unfolding decompress_from
stop_byte zero orig room tail h r = absurd (omega arith)
stop_byte (suc fuel) orig room tail h r = ground arith

Decodes-stop :
    (src : List ℕ) (size : ℕ) → Decodes src (record { dst = 0 ∷ []; rest = src; size = size })
Decodes-stop src size = record {
  used = [];
  split = refl;
  decoded = λ fuel orig room tail f r o.
      stop_byte fuel orig room tail f r
      ∙ ap (λ n. some (record { dst = []; rest = tail; size = n })) (omega arith);
}

abbrev coded : List ℕ → List ℕ → ℕ → Coded
coded dst rest size = record { dst = dst; rest = rest; size = size }

Decodes-copy :
    (bs rest : List ℕ) (c : Coded)
    → 1 ≤ length bs
    → length bs ≤ 127
    → Decodes rest c
    → Decodes (bs ++ rest) (record c { dst = length bs ∷ (bs ++ c.dst) })
Decodes-copy bs rest c h1 h2 d = record {
  used = bs ++ d.used;
  split = ap (λ l. bs ++ l) d.split ∙ sym (append_assoc bs d.used c.rest);
  decoded = run;
}
  where
    run :
        (fuel orig room : ℕ) (tail : List ℕ)
        → suc (length (bs ++ c.dst)) ≤ fuel
        → length (bs ++ d.used) < room
        → room ≤ orig
        → decompress_from fuel orig (length bs ∷ ((bs ++ c.dst) ++ tail)) room
          ≡ some (coded (bs ++ d.used) tail (orig - room + length (bs ++ d.used)))
    run zero orig room tail f r o = absurd (omega arith)
    run (suc fuel) orig room tail f r o =
        let lu = length-append bs d.used in
        let lc = length-append bs c.dst in
        rw
          (
            append_assoc bs c.dst tail,
            decompress_copy fuel orig room bs (c.dst ++ tail) h1 h2 (omega (arith, lu)),
            d.decoded fuel orig (room - length bs) tail (omega (arith, lc)) (omega (arith, lu))
                (omega arith),
          )
          (ap (λ n. some (coded (bs ++ d.used) tail n)) (omega (arith, lu)))

Decodes-zeros :
    (k : ℕ) (rest : List ℕ) (c : Coded)
    → 1 ≤ k
    → k ≤ 127
    → Decodes rest c
    → Decodes (replicate k 0 ++ rest) (record c { dst = (k + 128) ∷ c.dst })
Decodes-zeros k rest c h1 h2 d = record {
  used = replicate k 0 ++ d.used;
  split = ap (λ l. replicate k 0 ++ l) d.split ∙ sym (append_assoc (replicate k 0) d.used c.rest);
  decoded = run;
}
  where
    run :
        (fuel orig room : ℕ) (tail : List ℕ)
        → suc (length c.dst) ≤ fuel
        → length (replicate k 0 ++ d.used) < room
        → room ≤ orig
        → decompress_from fuel orig ((k + 128) ∷ (c.dst ++ tail)) room
          ≡ some (
              coded (replicate k 0 ++ d.used) tail (orig - room + length (replicate k 0 ++ d.used)))
    run zero orig room tail f r o = absurd (omega arith)
    run (suc fuel) orig room tail f r o =
        let lu = length-append (replicate k 0) d.used in
        let lk = length-replicate {A = ℕ} k 0 in
        rw
          (
            decompress_zeros fuel orig k room (c.dst ++ tail) h1 h2 (omega (arith, lu, lk)),
            d.decoded fuel orig (room - k) tail (omega arith) (omega (arith, lu, lk)) (omega arith),
          )
          (ap (λ n. some (coded (replicate k 0 ++ d.used) tail n)) (omega (arith, lu, lk)))

pub prepend-some :
    (bs : List ℕ) (o : Option Coded) (c : Coded)
    → prepend bs o ≡ some c
    → (c' : Coded) × (o ≡ some c') × (c ≡ record c' { dst = bs ++ c'.dst })
prepend-some bs none c e = absurd (cc)
prepend-some bs (some c') c e = (c', refl, cc)

abbrev after_zeros : ℕ → ℕ → List ℕ → ℕ → Option Coded
after_zeros fuel orig src dsize =
    let zeros = zero_run src 0 (dsize - 1) in compress_from fuel orig zeros.rest zeros.room

abbrev after_copy : ℕ → ℕ → List ℕ → ℕ → Option Coded
after_copy fuel orig src dsize =
    let copied = copy_run src 0 (dsize - 1) in compress_from fuel orig copied.rest copied.room

-- One round of the compressor on either kind of byte.
pub compress_zeros :
    (fuel orig b dsize : ℕ) (src : List ℕ)
    → ltb 2 dsize ≡ true
    → (b == 0) ≡ true
    → compress_from (suc fuel) orig (b ∷ src) dsize
      ≡ prepend
          (((zero_run (b ∷ src) 0 (dsize - 1)).count + 128) ∷ [])
          (after_zeros fuel orig (b ∷ src) dsize)
unfolding compress_from
compress_zeros fuel orig b dsize src big is_zero = rw (big, is_zero)

pub compress_copy :
    (fuel orig b dsize : ℕ) (src : List ℕ)
    → ltb 2 dsize ≡ true
    → (b == 0) ≡ false
    → let copied = copy_run (b ∷ src) 0 (dsize - 1) in
      compress_from (suc fuel) orig (b ∷ src) dsize
      ≡ prepend (copied.count ∷ copied.bytes) (after_copy fuel orig (b ∷ src) dsize)
unfolding compress_from
compress_copy fuel orig b dsize src big nonzero = rw (big, nonzero)

compress_from-Decodes :
    (fuel orig : ℕ) (src : List ℕ) (dsize : ℕ) (c : Coded)
    → compress_from fuel orig src dsize ≡ some c
    → Decodes src c
unfolding compress_from
compress_from-Decodes fuel orig [] dsize c e =
    subst (Decodes []) (some_inj e) (Decodes-stop [] (orig + 1 - dsize))
compress_from-Decodes zero orig (b ∷ src) dsize c e = absurd (cc)
compress_from-Decodes (suc fuel) orig (b ∷ src) dsize c e = elim (Bool-cases (ltb 2 dsize)) [
  | inr full ↦
      subst (Decodes (b ∷ src)) (some_inj (rw full at e))
        (Decodes-stop (b ∷ src) (orig + 1 - dsize))
  | inl big ↦ elim (Bool-cases (b == 0)) [
    | inl is_zero ↦
        let run = zero_run (b ∷ src) 0 (dsize - 1) in
        let z = zero_run-Zeros (b ∷ src) 0 (dsize - 1) (omega arith) in
        let (c', p, q) =
          prepend-some ((run.count + 128) ∷ []) (compress_from fuel orig run.rest run.room) c
            (sym (compress_zeros fuel orig b dsize src big is_zero) ∙ e) in
        let d = compress_from-Decodes fuel orig run.rest run.room c' p in
        let head = zero_run_head b src (dsize - 1) is_zero in
        let counted : z.more ≡ run.count = omega (arith, z.counted) in
        let dst : record c' { dst = (z.more + 128) ∷ c'.dst } ≡ c =
          ap (λ n. record c' { dst = (n + 128) ∷ c'.dst }) counted ∙ sym q in
        subst₂ Decodes (sym z.split) dst
          (Decodes-zeros z.more run.rest c' (omega (arith, head)) (omega (arith, z.small)) d)
    | inr nonzero ↦
        let run = copy_run (b ∷ src) 0 (dsize - 1) in
        let r = copy_run-Copied (b ∷ src) 0 (dsize - 1) (omega arith) (ground arith) in
        let (c', p, q) =
          prepend-some (run.count ∷ run.bytes) (compress_from fuel orig run.rest run.room) c
            (sym (compress_copy fuel orig b dsize src big nonzero) ∙ e) in
        let d = compress_from-Decodes fuel orig run.rest run.room c' p in
        let head = copy_run_head b src (dsize - 1) nonzero (ground arith) in
        let counted : length run.bytes ≡ run.count = omega (arith, r.counted) in
        let dst : record c' { dst = length run.bytes ∷ (run.bytes ++ c'.dst) } ≡ c =
          ap (λ n. record c' { dst = n ∷ (run.bytes ++ c'.dst) }) counted ∙ sym q in
        subst₂ Decodes (sym r.split) dst
          (Decodes-copy run.bytes run.rest c' head (omega (arith, r.small)) d)
  ]
]

-- What rle_decompress makes of the output of rle_compress, any `tail` behind it, is exactly the
-- part of the source that the compressor took (all but what it reports as left), its length is
-- returned, and the pointer is left on `tail`; this for every pair of buffer sizes where the
-- receiver has room for one byte more than the source.
pub rle_decompress-rle_compress :
    (src tail : List ℕ) (dsize room : ℕ) (c : Coded)
    → rle_compress src dsize ≡ some c
    → length src < room
    → (used : List ℕ) × (src ≡ used ++ c.rest)
      × (rle_decompress (c.dst ++ tail) room
          ≡ some (record { dst = used; rest = tail; size = length used }))
unfolding rle_compress rle_decompress
rle_decompress-rle_compress src tail dsize room c e h =
    let d = compress_from-Decodes (length src) dsize src dsize c e in
    let fits = ap length d.split ∙ length-append d.used c.rest in
    (
      d.used,
      d.split,
      d.decoded (length (c.dst ++ tail)) room room tail (omega (arith, length-append c.dst tail))
            (omega (arith, fits)) (omega arith)
          ∙ ap (λ n. some (coded d.used tail n)) (omega arith),
    )

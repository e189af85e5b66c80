-- ===== src/Rle.antt =====
-- rle_compress and rle_decompress of cluster.c: the run-length code of heartbeat packets.
-- The source list holds the `ssize` bytes at `*src_p`. A buffer size is a number; where the C code
-- takes it below 0 (the stop byte at `dsize` 0), the value returned is written without it.
pub mod Runs
pub mod RoundTrip
pub mod Bounds
pub mod Room
pub mod Blocks
mod Tests
use l2tpns.Prelude.{
  ℕ, zero, suc, ◌+◌, ◌-◌, ◌/◌, ◌%◌, List, [], ◌∷◌, ◌++◌, Option, none, some, not, ◌&&◌, ltb, leb,
  ◌==◌, if◌then◌else◌, length,
}

-- What a run of either kind leaves: bytes copied, source left, `count`, and `dsize`.
pub record Run : Type 0 where
  pub bytes : List ℕ
  pub rest : List ℕ
  pub count : ℕ
  pub room : ℕ

-- `while (*src && count < 127 && ssize > 0 && dsize > 1)`
pub copy_run : List ℕ → ℕ → ℕ → Run
copy_run [] count dsize = record { bytes = []; rest = []; count = count; room = dsize }
copy_run (b ∷ src) count dsize =
    let run = copy_run src (count + 1) (dsize - 1) in
    if not (b == 0) && ltb count 127 && ltb 1 dsize
    then record run { bytes = b ∷ run.bytes }
    else record { bytes = []; rest = b ∷ src; count = count; room = dsize }

-- `while (*src == 0 && count < 127 && ssize > 0)`
pub zero_run : List ℕ → ℕ → ℕ → Run
zero_run [] count dsize = record { bytes = []; rest = []; count = count; room = dsize }
zero_run (b ∷ src) count dsize =
    let run = zero_run src (count + 1) dsize in
    if b == 0 && ltb count 127
    then run
    else record { bytes = []; rest = b ∷ src; count = count; room = dsize }

-- The bytes written, the source left and the value returned.
pub record Coded : Type 0 where
  pub dst : List ℕ
  pub rest : List ℕ
  pub size : ℕ

abbrev pub prepend : List ℕ → Option Coded → Option Coded
prepend bs none = none
prepend bs (some c) = some (record c { dst = bs ++ c.dst })

-- The outer loop on fuel; `orig` is `orig_dsize`. `count | 0x80` adds 128, as `count` is below 128.
pub compress_from : ℕ → ℕ → List ℕ → ℕ → Option Coded
compress_from fuel orig [] dsize =
    some (record { dst = 0 ∷ []; rest = []; size = orig + 1 - dsize })
compress_from zero orig (b ∷ src) dsize = none
compress_from (suc fuel) orig (b ∷ src) dsize =
    let copied = copy_run (b ∷ src) 0 (dsize - 1) in
    let zeros = zero_run (b ∷ src) 0 (dsize - 1) in
    let after_copy = compress_from fuel orig copied.rest copied.room in
    let after_zeros = compress_from fuel orig zeros.rest zeros.room in
    let on_zero = prepend ((zeros.count + 128) ∷ []) after_zeros in
    let on_copy = prepend (copied.count ∷ copied.bytes) after_copy in
    let stop = some (record { dst = 0 ∷ []; rest = b ∷ src; size = orig + 1 - dsize }) in
    if ltb 2 dsize then if b == 0 then on_zero else on_copy else stop

-- Each round takes a byte of the source, so its length is fuel enough.
pub rle_compress : List ℕ → ℕ → Option Coded
unfolding compress_from copy_run zero_run
rle_compress src dsize = compress_from (length src) dsize src dsize

-- `for (count &= 0x7f; count > 0 && dsize > 0; --count)`: how many zeros are written.
pub put_zeros : ℕ → ℕ → List ℕ
put_zeros zero dsize = []
put_zeros (suc count) zero = []
put_zeros (suc count) (suc dsize) = 0 ∷ put_zeros count dsize

-- `for ( ; count > 0 && ssize && dsize; --count)`: the bytes copied and the source left.
pub put_copy : ℕ → List ℕ → ℕ → List ℕ × List ℕ
put_copy zero src dsize = ([], src)
put_copy (suc count) [] dsize = ([], [])
put_copy (suc count) (b ∷ src) zero = ([], b ∷ src)
put_copy (suc count) (b ∷ src) (suc dsize) =
    let (bs, rest) = put_copy count src dsize in (b ∷ bs, rest)

-- The outer loop on fuel, which the count byte of each round pays for.
pub decompress_from : ℕ → ℕ → List ℕ → ℕ → Option Coded
decompress_from fuel orig [] dsize = some (record { dst = []; rest = []; size = orig - dsize })
decompress_from zero orig (c ∷ src) dsize = none
decompress_from (suc fuel) orig (c ∷ src) dsize =
    let zeros = put_zeros (c % 128) dsize in
    let copied = put_copy c src dsize in
    let on_zeros = prepend zeros (decompress_from fuel orig src (dsize - length zeros)) in
    let on_copy = prepend copied.0 (decompress_from fuel orig copied.1 (dsize - length copied.0)) in
    let full = some (record { dst = []; rest = c ∷ src; size = orig - dsize }) in
    let stop = some (record { dst = []; rest = src; size = orig - dsize }) in
    if ltb 0 dsize
    then if c == 0 then stop else if leb 1 (c / 128 % 2) then on_zeros else on_copy
    else full

pub rle_decompress : List ℕ → ℕ → Option Coded
unfolding decompress_from put_zeros put_copy
rle_decompress src dsize = decompress_from (length src) dsize src dsize

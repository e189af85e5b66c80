-- ===== src/L2tp/Acks.antt =====
-- Which messages of the queue an acknowledgement clears.
use l2tpns.Prelude.{
  ℕ, zero, suc, ◌+◌, ◌-◌, ◌%◌, ◌^◌, ◌≤◌, ◌<◌, ◌≡◌, inl, inr, refl, ◌∙◌, List, [], ◌∷◌, true, false,
  ◌&&◌, ltb, length, drop, arith, Bool-cases,
}
use l2tpns.L2tp.{Control, is_acked, Acked, clear_acked}

pub same_acked :
    (q : List Control) {n m g h : ℕ}
    → n ≡ m
    → g ≡ h
    → let a : Acked = record { controls = q; controlc = n; gone = g } in
      a ≡ record { controls = q; controlc = m; gone = h }
same_acked q p r = ground arith

-- Of a queue whose messages are numbered from `b` on, modulo 2 ^ 16, and a number that acknowledges
-- the first `k`, exactly these go.
pub clear_acked_lem :
    (q : List Control) (b k ns nr gone : ℕ)
    → ns ≡ (b + length q) % 2 ^ 16
    → nr ≡ (b + k) % 2 ^ 16
    → k ≤ length q
    → length q < 2 ^ 15
    → clear_acked q ns nr (length q) gone
      ≡ record { controls = drop k q; controlc = length q - k; gone = gone + k }
unfolding clear_acked
clear_acked_lem [] b zero ns nr gone e f le small = ground arith
clear_acked_lem [] b (suc k) ns nr gone e f le small = absurd (omega arith)
clear_acked_lem (c ∷ q) b zero ns nr gone e f le small =
    let stop : (ltb 0 (suc (length q)) && is_acked ns (suc (length q)) nr) ≡ false = ground arith in
    rw stop (same_acked (c ∷ q) (omega arith) (omega arith))
clear_acked_lem (c ∷ q) b (suc k) ns nr gone e f le small =
    let go : (ltb 0 (suc (length q)) && is_acked ns (suc (length q)) nr) ≡ true = ground arith in
    let ih =
      clear_acked_lem q (b + 1) k ns nr (gone + 1) (omega arith) (omega arith) (omega arith)
        (omega arith) in
    let one : suc (length q) - 1 ≡ length q = omega arith in
    rw (go, one) (ih ∙ same_acked (drop k q) (omega arith) (omega arith))

-- Where the numbers do not wrap, an acknowledgement of any number up to the next clears what is
-- below it.
pub clear_acked_small :
    (q : List Control) (b ns nr gone : ℕ)
    → ns ≡ b + length q
    → ns < 2 ^ 15
    → nr ≤ ns
    → clear_acked q ns nr (length q) gone ≡ record {
      controls = drop (nr - b) q;
      controlc = length q - (nr - b);
      gone = gone + (nr - b);
    }
unfolding clear_acked
clear_acked_small [] b ns nr gone e small le =
    let z : nr - b ≡ 0 = omega arith in rw z (same_acked [] refl (omega arith))
clear_acked_small (c ∷ q) b ns nr gone e small le = elim (Bool-cases (ltb b nr)) [
  | inl below ↦
      let go : (ltb 0 (suc (length q)) && is_acked ns (suc (length q)) nr) ≡ true = ground arith in
      let one : suc (length q) - 1 ≡ length q = omega arith in
      let k : nr - b ≡ suc (nr - (b + 1)) = ground arith in
      let ih = clear_acked_small q (b + 1) ns nr (gone + 1) (omega arith) small le in
      rw (go, one, k) (ih ∙ same_acked (drop (nr - (b + 1)) q) (omega arith) (omega arith))
  | inr from ↦
      let stop : (ltb 0 (suc (length q)) && is_acked ns (suc (length q)) nr) ≡ false =
        ground arith in
      let k : nr - b ≡ 0 = ground arith in
      rw (stop, k) (same_acked (c ∷ q) (omega arith) (omega arith))
]

-- ===== src/Pool/Choice.antt =====
-- Which entry of the pool assign_ip_address chooses.
use l2tpns.Prelude.{
  ℕ, zero, suc, ◌+◌, ◌-◌, ◌≤◌, ◌<◌, ◌≡◌, ◌≢◌, inl, inr, refl, sym, ◌∙◌, Option, none, some, true,
  false, ltb, ◌==◌, arith, dec_lt, Bool-cases,
}
use mathlib.Core.Path.{subst}
use l2tpns.Pool.{PoolEntry, PoolSession, is_taken, is_sticky, choose}

module _ (x : PoolSession) (pool : ℕ → PoolEntry) (now : ℕ) where
  -- The free entries below `n` are not the user's own and were not used before `time`.
  abbrev pub Passed : ℕ → ℕ → Type 0
  Passed n time =
      (j : ℕ)
      → 0 < j
      → j < n
      → is_taken (pool j) ≡ false
      → (is_sticky x (pool j) ≡ false) × time ≤ (pool j).last

  -- The free entries below `b` are not the user's own, and all were used once.
  abbrev pub UsedBefore : ℕ → Type 0
  UsedBefore b =
      (j : ℕ)
      → 0 < j
      → j < b
      → is_taken (pool j) ≡ false
      → (is_sticky x (pool j) ≡ false) × (0 < (pool j).last)

  -- A choice among the entries from 1 to `n - 1`: the first free one that was the user's, unless
  -- one that was never used is before it; or that one, the first that was never used; or, of
  -- entries that were all used and not by the user, the one used longest ago, before now; or none.
  pub data Choice (n : ℕ) : Option ℕ → Type 0 where
    sticky :
        (b : ℕ)
        → 0 < b
        → b < n
        → is_taken (pool b) ≡ false
        → is_sticky x (pool b) ≡ true
        → UsedBefore b
        → Choice n (some b)
    never :
        (b : ℕ)
        → 0 < b
        → b < n
        → is_taken (pool b) ≡ false
        → is_sticky x (pool b) ≡ false
        → (pool b).last ≡ 0
        → UsedBefore b
        → Choice n (some b)
    oldest :
        (b : ℕ)
        → 0 < b
        → b < n
        → is_taken (pool b) ≡ false
        → is_sticky x (pool b) ≡ false
        → (pool b).last < now
        → (pool b).last ≢ 0
        → Passed n (pool b).last
        → Choice n (some b)
    exhausted : Passed n now → Choice n none

  abbrev pub Best : ℕ → Option ℕ → ℕ → Type 0
  Best i none time = time ≡ now
  Best i (some b) time =
      (0 < b)
      × (b < i)
      × (is_taken (pool b) ≡ false)
      × (is_sticky x (pool b) ≡ false)
      × ((pool b).last ≡ time)
      × (time ≢ 0)
      × time < now

  Best-up : (i : ℕ) (best : Option ℕ) (time : ℕ) → Best i best time → Best (i + 1) best time
  Best-up i none time h = h
  Best-up i (some b) time (p, q, t, s, l, z, n) = (p, omega arith, t, s, l, z, n)

  Best-now : (i : ℕ) (best : Option ℕ) (time : ℕ) → Best i best time → time ≤ now
  Best-now i none time h = omega arith
  Best-now i (some b) time (p, q, t, s, l, z, n) = omega arith

  Passed-up :
      (i time time' : ℕ)
      → Passed i time
      → time' ≤ time
      → (is_taken (pool i) ≡ false → (is_sticky x (pool i) ≡ false) × time' ≤ (pool i).last)
      → Passed (i + 1) time'
  Passed-up i time time' h le here j p q free = elim (dec_lt j i) [
    | yes lt ↦ let (s, l) = h j p lt free in (s, omega arith)
    | no ge ↦
        let e : i ≡ j = omega arith in
        subst
          (λ k. is_taken (pool k) ≡ false → (is_sticky x (pool k) ≡ false) × time' ≤ (pool k).last)
          e here free
  ]

  Choice-end :
      (n : ℕ) (best : Option ℕ) (time : ℕ) → Best n best time → Passed n time → Choice n best
  Choice-end n none time h k = exhausted (subst (λ t. Passed n t) h k)
  Choice-end n (some b) time (p, q, t, s, l, z, lt) k =
      oldest b p q t s (omega arith) (λ e. z (sym l ∙ e)) (subst (λ t. Passed n t) (sym l) k)

  Passed-UsedBefore : (b time : ℕ) → 0 < time → Passed b time → UsedBefore b
  Passed-UsedBefore b time pos k j p q free = let (s, l) = k j p q free in (s, omega arith)

  before_now :
      (i : ℕ) (best : Option ℕ) (time : ℕ)
      → Best i best time
      → ltb (pool i).last time ≡ true
      → (pool i).last < now
  before_now i best time b early = let h = Best-now i best time b in ground arith

  true≢false : ¬ (true ≡ false)
  true≢false h = ground arith

  choose_from :
      (left i n : ℕ) (best : Option ℕ) (time : ℕ)
      → n ≡ i + left
      → 0 < i
      → 0 < time
      → Best i best time
      → Passed i time
      → Choice n (choose left i x pool best time)
  unfolding choose
  choose_from zero i n best time e pos some_time b k =
      let d : i ≡ n = omega arith in subst (λ m. Choice m best) d (Choice-end i best time b k)
  choose_from (suc left) i n best time e pos some_time b k = elim (Bool-cases (is_taken (pool i))) [
    | inl taken ↦ rw taken (
        choose_from left (i + 1) n best time (omega arith) (omega arith) some_time
          (Best-up i best time b)
          (Passed-up i time time k (omega arith) (λ f. absurd (true≢false (sym taken ∙ f)))))
    | inr free ↦ elim (Bool-cases (is_sticky x (pool i))) [
      | inl own ↦
          rw (free, own)
            (sticky i pos (omega arith) free own (Passed-UsedBefore i time some_time k))
      | inr foreign ↦ elim (Bool-cases (ltb (pool i).last time)) [
        | inr late ↦
            rw (free, foreign, late)
              (choose_from left (i + 1) n best time (omega arith) (omega arith) some_time
                (Best-up i best time b)
                (Passed-up i time time k (omega arith) (λ f. (foreign, ground arith))))
        | inl early ↦ elim (Bool-cases ((pool i).last == 0)) [
          | inl fresh ↦
              rw (free, foreign, early, fresh)
                (never i pos (omega arith) free foreign (ground arith)
                  (Passed-UsedBefore i time some_time k))
          | inr used ↦
              rw (free, foreign, early, used)
                (choose_from left (i + 1) n (some i) (pool i).last (omega arith) (omega arith)
                  (ground arith)
                  (
                    pos,
                    omega arith,
                    free,
                    foreign,
                    refl,
                    λ z. ground arith,
                    before_now i best time b early,
                  )
                  (Passed-up i time (pool i).last k (ground arith) (λ f. (foreign, omega arith))))
        ]
      ]
    ]
  ]

  -- The loop of assign_ip_address, over a pool of `n` entries.
  pub choose_lem : (n : ℕ) → 0 < n → 0 < now → Choice n (choose (n - 1) 1 x pool none now)
  choose_lem n h some_time =
      choose_from (n - 1) 1 n none now (omega arith) (omega arith) some_time refl
        (λ j p q f. absurd (omega arith))

-- ===== src/Tbf/Alloc.antt =====
-- new_tbf of tbf.c: which filter it hands out.
use native.Mathlib.Nat.{mod-add-mod, mod-eq_of_lt, add-zero, add-mod_right}
use l2tpns.Prelude.{
  ℕ, zero, suc, ◌+◌, ◌-◌, ◌%◌, ◌<◌, ◌≡◌, ◌≢◌, ◌⊎◌, inl, inr, refl, ap, ◌∙◌, Option, none, some,
  Bool, true, arith, ◌==◌, if◌then◌else◌, Bool-cases, some_inj, ltb,
}
use l2tpns.Tbf.{Tbf, Tbfs, put, fresh_filter, find_free, new_tbf}

-- A filter that is found is unused and lies in the table.
find_free-some :
    (k : ℕ) (t : ℕ → Tbf) (size p i : ℕ)
    → p < size
    → (find_free k t size p).0 ≡ some i
    → ((t i).sid ≡ 0) × (i < size)
unfolding find_free
find_free-some zero t size p i h e = absurd (cc)
find_free-some (suc k) t size p i h e = elim (Bool-cases ((t p).sid == 0)) [
  | inl hit ↦ let q : p ≡ i = some_inj (rw hit at e) in rw (← q) (ground arith)
  | inr miss ↦ find_free-some k t size ((p + 1) % size) i (omega arith) (rw miss at e)
]

find_free-none :
    (k : ℕ) (t : ℕ → Tbf) (size p : ℕ)
    → p < size
    → (find_free k t size p).0 ≡ none
    → (j : ℕ) → j < k
    → (t ((p + j) % size)).sid ≢ 0
unfolding find_free
find_free-none zero t size p h e j l = absurd (omega arith)
find_free-none (suc k) t size p h e zero l = elim (Bool-cases ((t p).sid == 0)) [
  | inl hit ↦ absurd (ground arith)
  | inr miss ↦ rw (add-zero, mod-eq_of_lt h) (ground arith)
]
find_free-none (suc k) t size p h e (suc j) l = elim (Bool-cases ((t p).sid == 0)) [
  | inl hit ↦ absurd (ground arith)
  | inr miss ↦
      let shift : ((p + 1) % size + j) % size ≡ (p + suc j) % size =
        mod-add-mod (p + 1) size j ∙ ap (λ n. n % size) (omega arith) in
      rw (← shift)
        (find_free-none k t size ((p + 1) % size) (omega arith) (rw miss at e) j (omega arith))
]

-- The offset from `p` at which the cyclic search meets `i`.
abbrev offset : ℕ → ℕ → ℕ → ℕ
offset p i size = if ltb i p then i + size - p else i - p

offset-lt : (p i size : ℕ) → p < size → i < size → offset p i size < size
offset-lt p i size hp hi = ground arith

offset_lem : (p i size : ℕ) → p < size → i < size → (p + offset p i size) % size ≡ i
offset_lem p i size hp hi = elim (Bool-cases (ltb i p)) [
  | inl before ↦
      let wrap : p + (i + size - p) ≡ i + size = omega arith in
      rw (before, wrap) (add-mod_right i size ∙ mod-eq_of_lt hi)
  | inr after ↦ let plain : p + (i - p) ≡ i = ground arith in rw (after, plain) (mod-eq_of_lt hi)
]

found_cases :
    (r : Option ℕ × ℕ) → ((i : ℕ) × (p : ℕ) × (r ≡ (some i, p))) ⊎ ((p : ℕ) × (r ≡ (none, p)))
found_cases (none, p) = inr (p, refl)
found_cases (some i, p) = inl (i, p, refl)

-- What new_tbf returns: an unused filter of the table, which it has cleared and filled in, every
-- other filter being as before; or 0, with every filter as before, and then all of the table is
-- in use.
pub new_tbf_lem :
    (s : Tbfs) (sid max_credit rate : ℕ) (send : Bool)
    → s.allocated ≡ true
    → s.cursor < s.size
    → let (s', i) = new_tbf s sid max_credit rate send in
      (((s.filters i).sid ≡ 0)
        × (i < s.size)
        × (s'.filters ≡ put s.filters i (fresh_filter sid max_credit rate send)))
      ⊎ ((i ≡ 0) × (s'.filters ≡ s.filters) × ((j : ℕ) → j < s.size → (s.filters j).sid ≢ 0))
unfolding new_tbf
new_tbf_lem s sid max_credit rate send live h =
    elim (found_cases (find_free s.size s.filters s.size s.cursor)) [
      | inl (i, p, e) ↦
          let (free, low) = find_free-some s.size s.filters s.size s.cursor i h (ap (λ r. r.0) e) in
          simp (live, e) (inl (free, low, refl))
      | inr (p, e) ↦
          let used = find_free-none s.size s.filters s.size s.cursor h (ap (λ r. r.0) e) in
          simp (live, e)
            (inr (
              refl,
              refl,
              λ j l.
                  let k = offset s.cursor j s.size in
                  rw (← offset_lem s.cursor j s.size h l)
                    (used k (offset-lt s.cursor j s.size h l)),
            ))
    ]

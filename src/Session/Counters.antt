-- ===== src/Session/Counters.antt =====
-- What the byte counters of a session come to: increment_counter and cluster_handle_bytes.
use native.Mathlib.Nat.{mod-add-mod}
use mathlib.Core.Path.{subst}
use l2tpns.Prelude.{
  ℕ, ◌+◌, ◌*◌, ◌%◌, ◌^◌, ◌<◌, ◌≡◌, inl, inr, refl, sym, ap, ◌∙◌, List, [], ◌∷◌, true, false, ltb,
  ◌==◌, if◌then◌else◌, arith, ℕ_discrete, Bool-cases,
}
use l2tpns.IpMap.{put_at}
use l2tpns.IpMap.Lookup.{at_same, at_other}
use l2tpns.Session.{
  Counter, Session, Bytes, increment_counter, add_bytes, count_bytes, done, cluster_handle_bytes,
}

-- What a counter with its wraps stands for.
abbrev pub total : Counter → ℕ
total c = c.wrap * 2 ^ 32 + c.count

abbrev pub IsWord : ℕ → Type 0
IsWord n = n < 2 ^ 32

abbrev pub InRange : Counter → Type 0
InRange c = IsWord c.count × IsWord c.wrap

pub total-increment_counter :
    (c : Counter) (d : ℕ)
    → InRange c
    → IsWord d
    → InRange (increment_counter c d) × (total (increment_counter c d) ≡ (total c + d) % 2 ^ 64)
unfolding increment_counter
total-increment_counter c d (h, k) l = ground arith

pub total-add_bytes :
    (c : Counter) (d : ℕ)
    → InRange c
    → IsWord d
    → InRange (add_bytes c d) × (total (add_bytes c d) ≡ (total c + d) % 2 ^ 64)
unfolding add_bytes
total-add_bytes c d h l = total-increment_counter c d h l

-- What the records of session `i` carry of one field.
abbrev pub carried : (Bytes → ℕ) → ℕ → List Bytes → ℕ
carried field i [] = 0
carried field i (b ∷ packet) = (if b.sid == i then field b else 0) + carried field i packet

-- The records name sessions of the table, and their byte counts are words.
abbrev pub Sound : ℕ → List Bytes → Type 0
Sound max_session [] = Unit {0}
Sound max_session (b ∷ packet) =
    (b.sid < max_session) × IsWord b.cin × IsWord b.cout × Sound max_session packet

abbrev pub WordCounters : Session → Type 0
WordCounters x = InRange x.cin × InRange x.cout × IsWord x.pin × IsWord x.pout

-- What the packet makes of session `i`.
abbrev pub counted : ℕ → ℕ → Session → List Bytes → Session
counted time_now i x [] = x
counted time_now i x (b ∷ packet) =
    counted time_now i (if b.sid == i then count_bytes time_now x b else x) packet

put_counted :
    (time_now i : ℕ) (t : ℕ → Session) (b : Bytes)
    → put_at t b.sid (count_bytes time_now (t b.sid) b) i
      ≡ (if b.sid == i then count_bytes time_now (t i) b else t i)
put_counted time_now i t b = elim (ℕ_discrete b.sid i) [
  | yes e ↦
      let test : (b.sid == i) ≡ true = ground arith in
      rw test (
        at_same t b.sid i (count_bytes time_now (t b.sid) b) (sym e)
        ∙ ap (λ j. count_bytes time_now (t j) b) e)
  | no ne ↦
      let test : (b.sid == i) ≡ false = ground arith in
      rw test (at_other t b.sid i (count_bytes time_now (t b.sid) b) (λ e. ne (sym e)))
]

each_counted :
    (max_session time_now : ℕ) (packet : List Bytes) (junk : ℕ) (t : ℕ → Session) (i : ℕ)
    → Sound max_session packet
    → let (t', r) = cluster_handle_bytes max_session time_now packet junk t in
      (r ≡ done junk) × (t' i ≡ counted time_now i (t i) packet)
unfolding cluster_handle_bytes
each_counted max_session time_now [] junk t i h = (refl, refl)
each_counted max_session time_now (b ∷ packet) junk t i (small, cin, cout, h) =
    let inside : ltb max_session b.sid ≡ false = ground arith in
    let other : (b.sid == max_session) ≡ false = ground arith in
    let (r, e) =
      each_counted max_session time_now packet junk
        (put_at t b.sid (count_bytes time_now (t b.sid) b)) i h in
    rw (inside, other) (r, e ∙ ap (λ x. counted time_now i x packet) (put_counted time_now i t b))

-- The four counters of a session after the packet, against what they were.
pub record Counted (i : ℕ) (x y : Session) (packet : List Bytes) : Type 0 where
  pub cin : total y.cin ≡ (total x.cin + carried (λ b. b.cin) i packet) % 2 ^ 64
  pub cout : total y.cout ≡ (total x.cout + carried (λ b. b.cout) i packet) % 2 ^ 64
  pub pin : y.pin ≡ (x.pin + carried (λ b. b.pin) i packet) % 2 ^ 32
  pub pout : y.pout ≡ (x.pout + carried (λ b. b.pout) i packet) % 2 ^ 32

carried_hit :
    (field : Bytes → ℕ) (i : ℕ) (b : Bytes) (packet : List Bytes)
    → (b.sid == i) ≡ true
    → field b + carried field i packet ≡ carried field i (b ∷ packet)
carried_hit field i b packet mine = rw mine refl

carried_miss :
    (field : Bytes → ℕ) (i : ℕ) (b : Bytes) (packet : List Bytes)
    → (b.sid == i) ≡ false
    → carried field i packet ≡ carried field i (b ∷ packet)
carried_miss field i b packet other = rw other (sym (omega arith))

-- One record of the session, and then the rest.
carry_on : (m a b c r s : ℕ) → r ≡ ((a + b) % m + c) % m → b + c ≡ s → r ≡ (a + s) % m
carry_on m a b c r s e f =
    e ∙ mod-add-mod (a + b) m c ∙ ap (λ n. n % m) (sym (assoc a b c) ∙ ap (λ n. a + n) f)
  where
    assoc : (a b c : ℕ) → a + (b + c) ≡ a + b + c
    assoc a b c = omega arith

after_hit :
    (time_now i : ℕ) (b : Bytes) (packet : List Bytes) (x y : Session)
    → (b.sid == i) ≡ true
    → WordCounters x
    → IsWord b.cin
    → IsWord b.cout
    → Counted i (count_bytes time_now x b) y packet
    → Counted i x y (b ∷ packet)
after_hit time_now i b packet x y mine (ci, co, pi, po) wi wo c =
    let ti = (total-add_bytes x.cin b.cin ci wi).1 in
    let to = (total-add_bytes x.cout b.cout co wo).1 in
    record {
      cin =
          carry_on (2 ^ 64) (total x.cin) b.cin _ _ _
            (c.cin ∙ ap (λ n. (n + carried (λ b. b.cin) i packet) % 2 ^ 64) ti)
            (carried_hit (λ b. b.cin) i b packet mine);
      cout =
          carry_on (2 ^ 64) (total x.cout) b.cout _ _ _
            (c.cout ∙ ap (λ n. (n + carried (λ b. b.cout) i packet) % 2 ^ 64) to)
            (carried_hit (λ b. b.cout) i b packet mine);
      pin = carry_on (2 ^ 32) x.pin b.pin _ _ _ c.pin (carried_hit (λ b. b.pin) i b packet mine);
      pout =
          carry_on (2 ^ 32) x.pout b.pout _ _ _ c.pout (carried_hit (λ b. b.pout) i b packet mine);
    }

after_miss :
    (i : ℕ) (b : Bytes) (packet : List Bytes) (x y : Session)
    → (b.sid == i) ≡ false
    → Counted i x y packet
    → Counted i x y (b ∷ packet)
after_miss i b packet x y other c = record {
  cin = c.cin ∙ ap (λ n. (total x.cin + n) % 2 ^ 64) (carried_miss (λ b. b.cin) i b packet other);
  cout =
      c.cout ∙ ap (λ n. (total x.cout + n) % 2 ^ 64) (carried_miss (λ b. b.cout) i b packet other);
  pin = c.pin ∙ ap (λ n. (x.pin + n) % 2 ^ 32) (carried_miss (λ b. b.pin) i b packet other);
  pout = c.pout ∙ ap (λ n. (x.pout + n) % 2 ^ 32) (carried_miss (λ b. b.pout) i b packet other);
}

counted-total :
    (time_now i : ℕ) (packet : List Bytes) (x : Session) (max_session : ℕ)
    → Sound max_session packet
    → WordCounters x
    → Counted i x (counted time_now i x packet) packet
counted-total time_now i [] x m h (ci, co, pi, po) = record {
  cin = ground arith;
  cout = ground arith;
  pin = ground arith;
  pout = ground arith;
}
counted-total time_now i (b ∷ packet) x m (small, wi, wo, h) (ci, co, pi, po) =
    elim (Bool-cases (b.sid == i)) [
      | inl mine ↦
          let ri = (total-add_bytes x.cin b.cin ci wi).0 in
          let ro = (total-add_bytes x.cout b.cout co wo).0 in
          let x' = count_bytes time_now x b in
          let same : counted time_now i x' packet ≡ counted time_now i x (b ∷ packet) =
            rw mine refl in
          subst (λ y. Counted i x y (b ∷ packet)) same
            (after_hit time_now i b packet x (counted time_now i x' packet) mine (ci, co, pi, po) wi
              wo (counted-total time_now i packet x' m h (ri, ro, omega arith, omega arith)))
      | inr other ↦
          let same : counted time_now i x packet ≡ counted time_now i x (b ∷ packet) =
            rw other refl in
          subst (λ y. Counted i x y (b ∷ packet)) same
            (after_miss i b packet x (counted time_now i x packet) other
              (counted-total time_now i packet x m h (ci, co, pi, po)))
    ]

-- A packet of byte counts whose records name sessions of the table: it is read to its end, what is
-- left over is returned, and to every session exactly what the records of its number carry is
-- added: bytes modulo 2 ^ 64, the wraps being counted, and packets modulo 2 ^ 32.
pub cluster_handle_bytes_lem :
    (max_session time_now : ℕ) (packet : List Bytes) (junk : ℕ) (t : ℕ → Session) (i : ℕ)
    → Sound max_session packet
    → WordCounters (t i)
    → let (t', r) = cluster_handle_bytes max_session time_now packet junk t in
      (r ≡ done junk) × Counted i (t i) (t' i) packet
cluster_handle_bytes_lem max_session time_now packet junk t i h w =
    let (r, e) = each_counted max_session time_now packet junk t i h in
    (r, rw e (counted-total time_now i packet (t i) max_session h w))

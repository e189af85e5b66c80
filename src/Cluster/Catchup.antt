-- ===== src/Cluster/Catchup.antt =====
-- cluster_catchup_slave of cluster.c: the master sends again the heartbeats that a slave missed.
-- `past_hearts` is a function of the index. A sequence number is not negative and below
-- HB_MAX_SEQ, as cluster_heartbeat leaves it.
use mathlib.Core.Path.{subst}
use l2tpns.Prelude.{
  ℕ, zero, suc, ◌+◌, ◌-◌, ◌%◌, ◌^◌, ◌≤◌, ◌<◌, ◌≡◌, ◌≢◌, refl, ap, inl, inr, Bool-cases, tests, List,
  [], ◌∷◌, Option, none, some, Bool, true, false, not, ltb, leb, ◌==◌, if◌then◌else◌, arith,
}

abbrev pub hb_max_seq : ℕ
hb_max_seq = 2 ^ 30

abbrev pub hb_history_size : ℕ
hb_history_size = 64

-- An entry of `past_hearts`, `size` being the length of the bytes.
pub record Heart : Type 0 where
  pub seq : ℕ
  pub bytes : List ℕ

-- What the slave is sent: C_MASTER, C_KILL, or packets; the Boolean tells a return of 0 from -1.
pub data Answer : Type 0 where
  not_master : Answer
  kill : Answer
  resent : List (List ℕ) → Bool → Answer

abbrev pub sending : List ℕ → Option (List (List ℕ) × Bool) → Option (List (List ℕ) × Bool)
sending packet none = none
sending packet (some (packets, done)) = some (packet ∷ packets, done)

-- The loop on fuel, up to `seq_number`.
pub resend_from : ℕ → ℕ → (ℕ → Heart) → ℕ → Option (List (List ℕ) × Bool)
resend_from zero seq_number past seq = if seq == seq_number then some ([], true) else none
resend_from (suc fuel) seq_number past seq =
    let heart = past (seq % hb_history_size) in
    let rest = resend_from fuel seq_number past ((seq + 1) % hb_max_seq) in
    if seq == seq_number
    then some ([], true)
    else if not (seq == heart.seq)
    then some ([], false)
    else sending heart.bytes rest

abbrev pub distance : ℕ → ℕ → ℕ
distance seq_number seq =
    if ltb seq_number seq then seq_number + hb_max_seq - seq else seq_number - seq

abbrev pub answered : Option (List (List ℕ) × Bool) → Option Answer
answered none = none
answered (some (packets, done)) = some (resent packets done)

-- `none` if the loop runs out of fuel.
unfoldable pub cluster_catchup_slave : Bool → ℕ → (ℕ → Heart) → ℕ → Option Answer
unfolding resend_from
cluster_catchup_slave iam_master seq_number past seq =
    let diff = distance seq_number seq in
    let packets = answered (resend_from hb_history_size seq_number past seq) in
    if not iam_master
    then some not_master
    else if leb hb_history_size diff
    then some kill
    else packets

-- The sequence number `d` places before another.
abbrev pub before : ℕ → ℕ → ℕ
before seq_number d = (seq_number + hb_max_seq - d) % hb_max_seq

-- The ring holds the heartbeats that were sent last, each in its place.
abbrev pub Remembers : (ℕ → Heart) → ℕ → (ℕ → List ℕ) → Type 0
Remembers past seq_number beat =
    (d : ℕ)
    → 0 < d
    → d < hb_history_size
    → let q = before seq_number d in
      ((past (q % hb_history_size)).seq ≡ q) × ((past (q % hb_history_size)).bytes ≡ beat q)

-- The last `d` heartbeats, the oldest first.
abbrev pub last_beats : (ℕ → List ℕ) → ℕ → ℕ → List (List ℕ)
last_beats beat seq_number zero = []
last_beats beat seq_number (suc d) = beat (before seq_number (suc d)) ∷ last_beats beat seq_number d

pub step_number :
    (n d : ℕ)
    → n < hb_max_seq
    → d < hb_history_size
    → (before n (suc d) + 1) % hb_max_seq ≡ before n d
step_number n d h k = omega arith

not_yet : (n d : ℕ) → n < hb_max_seq → d < hb_history_size → (before n (suc d) == n) ≡ false
not_yet n d h k = let ne : before n (suc d) ≢ n = λ e. omega arith in ground arith

pub at_number : (n : ℕ) → n < hb_max_seq → before n 0 ≡ n
at_number n h = omega arith

stop : (fuel n q : ℕ) (past : ℕ → Heart) → q ≡ n → resend_from fuel n past q ≡ some ([], true)
unfolding resend_from
stop zero n q past e = let t : (q == n) ≡ true = ground arith in rw t refl
stop (suc fuel) n q past e = let t : (q == n) ≡ true = ground arith in rw t refl

go_on :
    (fuel n q next : ℕ) (past : ℕ → Heart) (packet : List ℕ) (rest : List (List ℕ))
    → (q == n) ≡ false
    → (past (q % hb_history_size)).seq ≡ q
    → (past (q % hb_history_size)).bytes ≡ packet
    → (q + 1) % hb_max_seq ≡ next
    → resend_from fuel n past next ≡ some (rest, true)
    → resend_from (suc fuel) n past q ≡ some (packet ∷ rest, true)
unfolding resend_from
go_on fuel n q next past packet rest t here bytes e h =
    let same : (q == (past (q % hb_history_size)).seq) ≡ true = ground arith in
    simp (t, same, e, h) (ap (λ b. some (b ∷ rest, true)) bytes)

resend_from_lem :
    (fuel n d : ℕ) (past : ℕ → Heart) (beat : ℕ → List ℕ)
    → n < hb_max_seq
    → d < hb_history_size
    → d ≤ fuel
    → Remembers past n beat
    → resend_from fuel n past (before n d) ≡ some (last_beats beat n d, true)
resend_from_lem fuel n zero past beat h k f r = stop fuel n (before n 0) past (at_number n h)
resend_from_lem zero n (suc d) past beat h k f r = absurd (omega arith)
resend_from_lem (suc fuel) n (suc d) past beat h k f r =
    let (here, bytes) = r (suc d) (omega arith) k in
    go_on fuel n (before n (suc d)) (before n d) past (beat (before n (suc d)))
      (last_beats beat n d) (not_yet n d h (omega arith)) here bytes
      (step_number n d h (omega arith))
      (resend_from_lem fuel n d past beat h (omega arith) (omega arith) r)

before-distance : (n q : ℕ) → n < hb_max_seq → q < hb_max_seq → before n (distance n q) ≡ q
before-distance n q h k = elim (Bool-cases (ltb n q)) [
  | inl wrapped ↦ rw wrapped (omega (tests, wrapped))
  | inr plain ↦ rw plain (let le : q ≤ n = ground arith in omega (arith, le))
]

-- A master whose ring holds the last heartbeats sends a slave that has missed fewer than 64 of them
-- exactly those, the oldest first, up to its own sequence number, also where the numbers wrap; a
-- slave that has missed more it kills. Either way it comes to an end.
pub cluster_catchup_slave_lem :
    (n q : ℕ) (past : ℕ → Heart) (beat : ℕ → List ℕ)
    → n < hb_max_seq
    → q < hb_max_seq
    → Remembers past n beat
    → (distance n q < hb_history_size
        → cluster_catchup_slave true n past q
          ≡ some (resent (last_beats beat n (distance n q)) true))
      × (hb_history_size ≤ distance n q → cluster_catchup_slave true n past q ≡ some kill)
unfolding cluster_catchup_slave
cluster_catchup_slave_lem n q past beat h k r = (
  λ near.
      let t : leb hb_history_size (distance n q) ≡ false = ground arith in
      let sent =
        resend_from_lem hb_history_size n (distance n q) past beat h near (omega arith) r in
      rw t (
        ap answered (
          subst
            (λ x.
              resend_from hb_history_size n past x ≡ some (last_beats beat n (distance n q), true))
            (before-distance n q h k) sent)),
  λ far. let t : leb hb_history_size (distance n q) ≡ true = ground arith in rw t refl,
)

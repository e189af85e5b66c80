-- ===== src/Cluster/Sync/Check.antt =====
-- cluster_check_sessions: the slave counts again what it lacks.
use mathlib.Core.Path.{subst}
use l2tpns.Prelude.{
  ℕ, ◌+◌, ◌-◌, ◌<◌, ◌≡◌, ◌≢◌, ◌↔◌, refl, sym, ap, ◌∙◌, Bool, true, false, ◌&&◌, ltb, if◌then◌else◌,
  arith,
}
use l2tpns.Cluster.Sync.{
  Kind, session, bundle, tunnel, table_size, Sync, entries, lacking, with_entries, with_lacking,
  cluster_uptodate, settle, settle_table, recounted, check_from, cluster_check_sessions,
}
use l2tpns.Cluster.Sync.Count.{count}
use l2tpns.Cluster.Sync.Copy.{Exact, Complete, undefined_in, within'}
use l2tpns.Cluster.Sync.Uptodate.{uptodate-Exact, uptodate-Complete, uptodate-entries}
use l2tpns.Cluster.Sync.Settle.{settled, settle_inside, settle_count, highest}

-- The master has more entries in use, of every kind, than the slave has counted as lacking.
abbrev pub AllAbove : ℕ → ℕ → ℕ → Sync → Type 0
AllAbove highsession highbundle hightunnel s =
    (s.undefined_sessions < highsession)
    × (s.undefined_bundles < highbundle)
    × (s.undefined_tunnels < hightunnel)

check_goes_on :
    (kept all : Sync) (above : Bool)
    → kept.iam_uptodate ≡ false
    → above ≡ false
    → check_from kept above all ≡ cluster_uptodate all
unfolding check_from
check_goes_on kept all above late test = simp (late, test)

check_skips : (kept all : Sync) (above : Bool) → above ≡ true → check_from kept above all ≡ kept
unfolding check_from
check_skips kept all above test = simp (test) (either kept.iam_uptodate kept)
  where
    either : (b : Bool) (x : Sync) → (if b then x else x) ≡ x
    either true x = refl
    either false x = refl

-- One table with its number is replaced.
abbrev pub replaced : Sync → Kind → (ℕ → ℕ) → ℕ → Sync
replaced s k t n = with_lacking (with_entries s k t) k n

replaced-entries : (s : Sync) (k : Kind) (t : ℕ → ℕ) (n : ℕ) → entries (replaced s k t n) k ≡ t
replaced-entries s session t n = refl
replaced-entries s bundle t n = refl
replaced-entries s tunnel t n = refl

replaced-lacking : (s : Sync) (k : Kind) (t : ℕ → ℕ) (n : ℕ) → lacking (replaced s k t n) k ≡ n
replaced-lacking s session t n = refl
replaced-lacking s bundle t n = refl
replaced-lacking s tunnel t n = refl

replaced_other :
    (s : Sync) (k k' : Kind) (t : ℕ → ℕ) (n : ℕ)
    → k' ≢ k
    → (entries (replaced s k t n) k' ≡ entries s k')
      × (lacking (replaced s k t n) k' ≡ lacking s k')
replaced_other s session session t n ne = absurd (ne refl)
replaced_other s session bundle t n ne = (refl, refl)
replaced_other s session tunnel t n ne = (refl, refl)
replaced_other s bundle session t n ne = (refl, refl)
replaced_other s bundle bundle t n ne = absurd (ne refl)
replaced_other s bundle tunnel t n ne = (refl, refl)
replaced_other s tunnel session t n ne = (refl, refl)
replaced_other s tunnel bundle t n ne = (refl, refl)
replaced_other s tunnel tunnel t n ne = absurd (ne refl)

replaced_late :
    (s : Sync) (k : Kind) (t : ℕ → ℕ) (n : ℕ) → (replaced s k t n).iam_uptodate ≡ s.iam_uptodate
replaced_late s session t n = refl
replaced_late s bundle t n = refl
replaced_late s tunnel t n = refl

abbrev pub ExactAt : Sync → Kind → Type 0
ExactAt s k = lacking s k ≡ undefined_in s k

from_zero : (n : ℕ) → 0 + n ≡ n
from_zero n = omega arith

table-Exact : (k : Kind) (high : ℕ) (s : Sync) → ExactAt (settle_table k high s) k
unfolding settle_table
table-Exact k high s =
    let r = settle k high (table_size k - 1) 1 (entries s k) 0 in
    replaced-lacking s k r.0 r.1
    ∙ settle_count k high (table_size k - 1) 1 (entries s k) 0
    ∙ from_zero (count k (table_size k - 1) 1 r.0)
    ∙ ap (count k (table_size k - 1) 1) (sym (replaced-entries s k r.0 r.1))

table-entries :
    (k : Kind) (high : ℕ) (s : Sync) (i : ℕ)
    → 0 < i
    → i < 1 + (table_size k - 1)
    → entries (settle_table k high s) k i ≡ settled k high i (entries s k i)
unfolding settle_table
table-entries k high s i p q =
    let r = settle k high (table_size k - 1) 1 (entries s k) 0 in
    ap (λ t. t i) (replaced-entries s k r.0 r.1)
    ∙ settle_inside k high (table_size k - 1) 1 (entries s k) 0 i p q

table_other :
    (k k' : Kind) (high : ℕ) (s : Sync)
    → k' ≢ k
    → let s' = settle_table k high s in
      (entries s' k' ≡ entries s k') × (lacking s' k' ≡ lacking s k')
unfolding settle_table
table_other k k' high s ne =
    let r = settle k high (table_size k - 1) 1 (entries s k) 0 in replaced_other s k k' r.0 r.1 ne

table_late :
    (k : Kind) (high : ℕ) (s : Sync) → (settle_table k high s).iam_uptodate ≡ s.iam_uptodate
unfolding settle_table
table_late k high s =
    let r = settle k high (table_size k - 1) 1 (entries s k) 0 in replaced_late s k r.0 r.1

-- A loop over another table leaves what is right.
table-Exact_other :
    (k k' : Kind) (high : ℕ) (s : Sync) → k' ≢ k → ExactAt s k' → ExactAt (settle_table k high s) k'
table-Exact_other k k' high s ne h =
    let (e, n) = table_other k k' high s ne in n ∙ h ∙ ap (count k' (table_size k' - 1) 1) (sym e)

table-entries_other :
    (k k' : Kind) (high : ℕ) (s : Sync) (i : ℕ)
    → k' ≢ k
    → entries (settle_table k high s) k' i ≡ entries s k' i
table-entries_other k k' high s i ne = ap (λ t. t i) (table_other k k' high s ne).0

recounted_late :
    (hs hb ht : ℕ) (s : Sync) → s.iam_uptodate ≡ false → (recounted hs hb ht s).iam_uptodate ≡ false
unfolding recounted
recounted_late hs hb ht s h =
    table_late tunnel ht (settle_table bundle hb (settle_table session hs s))
    ∙ table_late bundle hb (settle_table session hs s)
    ∙ table_late session hs s
    ∙ h

recounted-Exact : (hs hb ht : ℕ) (s : Sync) → Exact (recounted hs hb ht s)
unfolding recounted
recounted-Exact hs hb ht s session =
    let s1 = settle_table session hs s in
    table-Exact_other tunnel session ht (settle_table bundle hb s1) (λ e. cc)
      (table-Exact_other bundle session hb s1 (λ e. cc) (table-Exact session hs s))
recounted-Exact hs hb ht s bundle =
    let s1 = settle_table session hs s in
    table-Exact_other tunnel bundle ht (settle_table bundle hb s1) (λ e. cc)
      (table-Exact bundle hb s1)
recounted-Exact hs hb ht s tunnel =
    table-Exact tunnel ht (settle_table bundle hb (settle_table session hs s))

recounted-entries :
    (hs hb ht : ℕ) (s : Sync) (k : Kind) (i : ℕ)
    → 0 < i
    → i < 1 + (table_size k - 1)
    → entries (recounted hs hb ht s) k i ≡ settled k (highest hs hb ht k) i (entries s k i)
unfolding recounted
recounted-entries hs hb ht s session i p q =
    let s1 = settle_table session hs s in
    table-entries_other tunnel session ht (settle_table bundle hb s1) i (λ e. cc)
    ∙ table-entries_other bundle session hb s1 i (λ e. cc)
    ∙ table-entries session hs s i p q
recounted-entries hs hb ht s bundle i p q =
    let s1 = settle_table session hs s in
    table-entries_other tunnel bundle ht (settle_table bundle hb s1) i (λ e. cc)
    ∙ table-entries bundle hb s1 i p q
    ∙ ap (settled bundle hb i) (table-entries_other session bundle hs s i (λ e. cc))
recounted-entries hs hb ht s tunnel i p q =
    let s1 = settle_table session hs s in
    table-entries tunnel ht (settle_table bundle hb s1) i p q
    ∙ ap (settled tunnel ht i) (
        table-entries_other bundle tunnel hb s1 i (λ e. cc)
        ∙ table-entries_other session tunnel hs s i (λ e. cc))

kept-entries :
    (s : Sync) (fp : ℕ) (k : Kind) (i : ℕ)
    → entries (record s { sessionfree = fp }) k i ≡ entries s k i
kept-entries s fp session i = refl
kept-entries s fp bundle i = refl
kept-entries s fp tunnel i = refl

-- cluster_check_sessions on a slave that is not up to date, unless it returns early: undefined
-- entries above the highest that the master uses become free, and no others change; the numbers
-- count what is undefined; and the slave is up to date now exactly if no entry is undefined.
-- If the master uses more entries of every kind than the slave counts as lacking, it returns early
-- and keeps all but the free session.
pub cluster_check_sessions_lem :
    (highsession freesession_ptr highbundle hightunnel : ℕ) (s : Sync)
    → s.iam_uptodate ≡ false
    → let s' = cluster_check_sessions highsession freesession_ptr highbundle hightunnel s in
      (¬ AllAbove highsession highbundle hightunnel s
        → Exact s'
          × ((s'.iam_uptodate ≡ true) ↔ Complete s')
          × ((k : Kind) (i : ℕ)
              → 0 < i
              → i < table_size k
              → entries s' k i
                ≡ settled k (highest highsession highbundle hightunnel k) i (entries s k i)))
      × (AllAbove highsession highbundle hightunnel s
          → s' ≡ record s { sessionfree = freesession_ptr })
unfolding cluster_check_sessions
cluster_check_sessions_lem hs fp hb ht s late =
    let kept : Sync = record s { sessionfree = fp } in
    let all = recounted hs hb ht kept in
    let test : Bool =
      ltb s.undefined_sessions hs && ltb s.undefined_bundles hb && ltb s.undefined_tunnels ht in
    (
      λ below.
          let e = check_goes_on kept all test late (ground arith) in
          let exact = recounted-Exact hs hb ht kept in
          subst
            (λ s'.
              Exact s'
              × ((s'.iam_uptodate ≡ true) ↔ Complete s')
              × ((k : Kind) (i : ℕ)
                  → 0 < i
                  → i < table_size k
                  → entries s' k i ≡ settled k (highest hs hb ht k) i (entries s k i)))
            (sym e)
            (
              uptodate-Exact all exact,
              uptodate-Complete all (recounted_late hs hb ht kept late) exact,
              λ k i p q.
                  ap (λ t. t i) (uptodate-entries all k)
                  ∙ recounted-entries hs hb ht kept k i p (within' k i q)
                  ∙ ap (settled k (highest hs hb ht k) i) (kept-entries s fp k i),
            ),
      λ above. check_skips kept all test (ground arith),
    )

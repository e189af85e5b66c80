-- ===== src/IpFilter/Find.antt =====
-- find_filter of l2tpns.c: the entry of a name in the table of filters. The table is the list of
-- the names it holds, a name the list of its characters, and a free entry has the empty name.
use mathlib.Core.Path.{subst}
use mathlib.Core.List.{append_assoc, append-nil}
use l2tpns.Prelude.{
  ℕ, ◌+◌, ◌≡◌, ◌≢◌, inl, inr, refl, sym, ap, ◌∙◌, List, [], ◌∷◌, ◌++◌, length, length-append,
  Option, none, some, Bool, true, false, ◌&&◌, ◌==◌, if◌then◌else◌, arith, Bool-cases,
}

-- The tests of the two lengths and of the characters.
pub same_name : List ℕ → List ℕ → Bool
same_name [] [] = true
same_name [] (y ∷ ys) = false
same_name (x ∷ xs) [] = false
same_name (x ∷ xs) (y ∷ ys) = x == y && same_name xs ys

abbrev pub first_free : Option ℕ → ℕ → Option ℕ
first_free none i = some i
first_free (some f) i = some f

-- The loop from entry `i` on; -1 is `none`.
pub find_from : List (List ℕ) → ℕ → Option ℕ → List ℕ → Option ℕ
find_from [] i free name = free
find_from ([] ∷ filters) i free name = find_from filters (i + 1) (first_free free i) name
find_from ((c ∷ cs) ∷ filters) i free name =
    let rest = find_from filters (i + 1) free name in
    if same_name (c ∷ cs) name then some i else rest

unfoldable pub find_filter : List (List ℕ) → List ℕ → Option ℕ
unfolding find_from same_name
find_filter filters name = find_from filters 0 none name

and_true : (a b : Bool) → (a && b) ≡ true → (a ≡ true) × (b ≡ true)
and_true true b h = (refl, h)
and_true false b h = absurd (ground arith)

cons_cong : {x y : ℕ} {xs ys : List ℕ} → x ≡ y → xs ≡ ys → ◌≡◌ {A = List ℕ} (x ∷ xs) (y ∷ ys)
cons_cong p q = cc

cons_inj : {x y : ℕ} {xs ys : List ℕ} → ◌≡◌ {A = List ℕ} (x ∷ xs) (y ∷ ys) → (x ≡ y) × (xs ≡ ys)
cons_inj p = (cc, cc)

same_name→≡ : (xs ys : List ℕ) → same_name xs ys ≡ true → xs ≡ ys
unfolding same_name
same_name→≡ [] [] h = refl
same_name→≡ [] (y ∷ ys) h = absurd (ground arith)
same_name→≡ (x ∷ xs) [] h = absurd (ground arith)
same_name→≡ (x ∷ xs) (y ∷ ys) h =
    let (p, q) = and_true (x == y) (same_name xs ys) h in
    cons_cong (ground arith) (same_name→≡ xs ys q)

same_name_refl : (xs : List ℕ) → same_name xs xs ≡ true
unfolding same_name
same_name_refl [] = refl
same_name_refl (x ∷ xs) = ground (arith, same_name_refl xs)

-- No entry of a list has a given name.
abbrev pub Absent : List ℕ → List (List ℕ) → Type 0
Absent name [] = Unit {0}
Absent name (f ∷ filters) = (f ≢ name) × Absent name filters

-- The result of a search for a name: the first entry of that name, else the first free one.
pub data Found (filters : List (List ℕ)) (name : List ℕ) : Option ℕ → Type 0 where
  named :
      (before after : List (List ℕ))
      → filters ≡ before ++ name ∷ after
      → Absent name before
      → Found filters name (some (length before))
  free :
      (before after : List (List ℕ))
      → filters ≡ before ++ [] ∷ after
      → Absent [] before
      → Absent name filters
      → Found filters name (some (length before))
  full : Absent [] filters → Absent name filters → Found filters name none

differs :
    (c : ℕ) (cs name : List ℕ) → same_name (c ∷ cs) name ≡ false → ◌≢◌ {A = List ℕ} (c ∷ cs) name
differs c cs name h e =
    let same = ap (λ x. same_name (c ∷ cs) x) e in
    let self = same_name_refl (c ∷ cs) in ground arith

-- `free` is the first free entry of those that the loop has passed.
abbrev pub Seen : List (List ℕ) → Option ℕ → Type 0
Seen before none = Absent [] before
Seen before (some i) = (b a : List (List ℕ)) × (before ≡ b ++ [] ∷ a) × Absent [] b × (i ≡ length b)

Absent-append :
    (name : List ℕ) (xs ys : List (List ℕ))
    → Absent name xs
    → Absent name ys
    → Absent name (xs ++ ys)
Absent-append name [] ys h k = k
Absent-append name (x ∷ xs) ys (n, h) k = (n, Absent-append name xs ys h k)

Seen-named :
    (before : List (List ℕ)) (f : Option ℕ) (x : List ℕ)
    → x ≢ []
    → Seen before f
    → Seen (before ++ x ∷ []) f
Seen-named before none x n h = Absent-append [] before (x ∷ []) h (n, tt)
Seen-named before (some i) x n (b, a, e, h, l) =
    (b, a ++ x ∷ [], ap (λ q. q ++ x ∷ []) e ∙ append_assoc b ([] ∷ a) (x ∷ []), h, l)

Seen-free :
    (before : List (List ℕ)) (f : Option ℕ)
    → Seen before f
    → Seen (before ++ [] ∷ []) (first_free f (length before))
Seen-free before none h = (before, [], refl, h, refl)
Seen-free before (some i) (b, a, e, h, l) =
    (b, a ++ [] ∷ [], ap (λ q. q ++ [] ∷ []) e ∙ append_assoc b ([] ∷ a) ([] ∷ []), h, l)

Found-end :
    (before : List (List ℕ)) (f : Option ℕ) (name : List ℕ)
    → Absent name before
    → Seen before f
    → Found before name f
Found-end before none name a h = full h a
Found-end before (some i) name a (b, c, e, h, l) =
    subst (λ j. Found before name (some j)) (sym l) (free b c e h a)

-- One step of the loop moves an entry to those that are passed.
Found-step :
    (o : ℕ → Option ℕ) (before : List (List ℕ)) (x : List ℕ) (filters : List (List ℕ))
    (name : List ℕ)
    → Found ((before ++ x ∷ []) ++ filters) name (o (length (before ++ x ∷ [])))
    → Found (before ++ x ∷ filters) name (o (length before + 1))
Found-step o before x filters name k =
    subst (λ i. Found (before ++ x ∷ filters) name (o i)) (length-append before (x ∷ []))
      (subst (λ q. Found q name (o (length (before ++ x ∷ []))))
        (append_assoc before (x ∷ []) filters) k)

from_lem :
    (before filters : List (List ℕ)) (f : Option ℕ) (name : List ℕ)
    → name ≢ []
    → Absent name before
    → Seen before f
    → Found (before ++ filters) name (find_from filters (length before) f name)
unfolding find_from
from_lem before [] f name n a h =
    subst (λ q. Found q name f) (sym (append-nil before)) (Found-end before f name a h)
from_lem before ([] ∷ filters) f name n a h =
    Found-step (λ i. find_from filters i (first_free f (length before)) name) before [] filters name
      (from_lem (before ++ [] ∷ []) filters (first_free f (length before)) name n
        (Absent-append name before ([] ∷ []) a (λ e. n (sym e), tt)) (Seen-free before f h))
from_lem before ((c ∷ cs) ∷ filters) f name n a h = elim (Bool-cases (same_name (c ∷ cs) name)) [
  | inl same ↦
      rw same
        (named before filters (ap (λ x. before ++ x ∷ filters) (same_name→≡ (c ∷ cs) name same)) a)
  | inr other ↦ rw other (
      Found-step (λ i. find_from filters i f name) before (c ∷ cs) filters name
        (from_lem (before ++ (c ∷ cs) ∷ []) filters f name n
          (Absent-append name before ((c ∷ cs) ∷ []) a (differs c cs name other, tt))
          (Seen-named before f (c ∷ cs) (λ e. cc) h)))
]

-- find_filter of a name that is not empty returns the first filter of that name; if there is none,
-- the first free entry; and -1 (`none`) if there is neither.
pub find_filter-Found :
    (filters : List (List ℕ)) (name : List ℕ)
    → name ≢ []
    → Found filters name (find_filter filters name)
unfolding find_filter
find_filter-Found filters name n = from_lem [] filters none name n tt tt

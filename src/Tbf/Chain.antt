-- ===== src/Tbf/Chain.antt =====
-- Circular doubly linked lists by two functions `next` and `prev`, read as plain lists: the lemmas
-- on which the timer chain of tbf.c rests.
use mathlib.Core.List.{append-nil}
use l2tpns.Prelude.{ℕ, ◌≡◌, ◌≢◌, sym, List, [], ◌∷◌, ◌++◌, arith, ◌==◌, if◌then◌else◌}

abbrev pub NotIn : ℕ → List ℕ → Type 0
NotIn a [] = Unit {0}
NotIn a (x ∷ xs) = (a ≢ x) × NotIn a xs

abbrev pub Distinct : List ℕ → Type 0
Distinct [] = Unit {0}
Distinct (x ∷ xs) = NotIn x xs × Distinct xs

abbrev pub upd : (ℕ → ℕ) → ℕ → ℕ → ℕ → ℕ
upd f i v j = if j == i then v else f j

-- From `x` through `ys` to `z`, every link of both directions.
abbrev pub Linked : (ℕ → ℕ) → (ℕ → ℕ) → ℕ → List ℕ → ℕ → Type 0
Linked nx pv x [] z = (nx x ≡ z) × (pv z ≡ x)
Linked nx pv x (y ∷ ys) z = (nx x ≡ y) × (pv y ≡ x) × Linked nx pv y ys z

abbrev pub last : ℕ → List ℕ → ℕ
last x [] = x
last x (y ∷ ys) = last y ys

abbrev pub first : List ℕ → ℕ → ℕ
first [] z = z
first (y ∷ ys) z = y

pub NotIn-append_left : (a : ℕ) (xs ys : List ℕ) → NotIn a (xs ++ ys) → NotIn a xs
NotIn-append_left a [] ys h = tt
NotIn-append_left a (x ∷ xs) ys h = (h.0, NotIn-append_left a xs ys h.1)

pub NotIn-append_right : (a : ℕ) (xs ys : List ℕ) → NotIn a (xs ++ ys) → NotIn a ys
NotIn-append_right a [] ys h = h
NotIn-append_right a (x ∷ xs) ys h = NotIn-append_right a xs ys h.1

pub NotIn-remove : (a i : ℕ) (xs ys : List ℕ) → NotIn a (xs ++ i ∷ ys) → NotIn a (xs ++ ys)
NotIn-remove a i [] ys h = h.1
NotIn-remove a i (x ∷ xs) ys h = (h.0, NotIn-remove a i xs ys h.1)

pub NotIn-insert : (a i : ℕ) (xs ys : List ℕ) → NotIn a (xs ++ ys) → a ≢ i → NotIn a (xs ++ i ∷ ys)
NotIn-insert a i [] ys h e = (e, h)
NotIn-insert a i (x ∷ xs) ys h e = (h.0, NotIn-insert a i xs ys h.1 e)

pub NotIn-append : (a : ℕ) (xs ys : List ℕ) → NotIn a xs → NotIn a ys → NotIn a (xs ++ ys)
NotIn-append a [] ys h k = k
NotIn-append a (x ∷ xs) ys h k = (h.0, NotIn-append a xs ys h.1 k)

pub ne-first : (a : ℕ) (zs : List ℕ) (z : ℕ) → NotIn a zs → a ≢ z → a ≢ first zs z
ne-first a [] z n e = e
ne-first a (y ∷ zs) z n e = n.0

pub Distinct-remove : (i : ℕ) (xs ys : List ℕ) → Distinct (xs ++ i ∷ ys) → Distinct (xs ++ ys)
Distinct-remove i [] ys h = h.1
Distinct-remove i (x ∷ xs) ys h = (NotIn-remove x i xs ys h.0, Distinct-remove i xs ys h.1)

-- The last element of a list is none that the list lacks.
pub ne-last : (a x : ℕ) (ys : List ℕ) → NotIn a (x ∷ ys) → a ≢ last x ys
ne-last a x [] h = h.0
ne-last a x (y ∷ ys) h = ne-last a y ys h.1

module _ (nx pv : ℕ → ℕ) where
  pub prev_end : (x : ℕ) (ys : List ℕ) (z : ℕ) → Linked nx pv x ys z → pv z ≡ last x ys
  prev_end x [] z l = l.1
  prev_end x (y ∷ ys) z l = prev_end y ys z l.2

  pub next_start : (x : ℕ) (ys : List ℕ) (z : ℕ) → Linked nx pv x ys z → nx x ≡ first ys z
  next_start x [] z l = l.0
  next_start x (y ∷ ys) z l = l.0

  -- Writes elsewhere keep the links.
  pub frame_next :
      (i v x : ℕ) (ys : List ℕ) (z : ℕ)
      → NotIn i (x ∷ ys)
      → Linked nx pv x ys z
      → Linked (upd nx i v) pv x ys z
  frame_next i v x [] z n l = ground arith
  frame_next i v x (y ∷ ys) z n l = (ground arith, l.1, frame_next i v y ys z n.1 l.2)

  pub frame_prev :
      (i v x : ℕ) (ys : List ℕ) (z : ℕ)
      → NotIn i ys
      → i ≢ z
      → Linked nx pv x ys z
      → Linked nx (upd pv i v) x ys z
  frame_prev i v x [] z n e l = ground arith
  frame_prev i v x (y ∷ ys) z n e l = (l.0, ground arith, frame_prev i v y ys z n.1 e l.2)

  pub split_links :
      (x : ℕ) (ys : List ℕ) (i : ℕ) (zs : List ℕ) (z : ℕ)
      → Linked nx pv x (ys ++ i ∷ zs) z
      → Linked nx pv x ys i × Linked nx pv i zs z
  split_links x [] i zs z l = ((l.0, l.1), l.2)
  split_links x (y ∷ ys) i zs z l =
      let (left, right) = split_links y ys i zs z l.2 in ((l.0, l.1, left), right)

  pub join_links :
      (x : ℕ) (ys : List ℕ) (i : ℕ) (zs : List ℕ) (z : ℕ)
      → Linked nx pv x ys i
      → Linked nx pv i zs z
      → Linked nx pv x (ys ++ i ∷ zs) z
  join_links x [] i zs z l r = (l.0, l.1, r)
  join_links x (y ∷ ys) i zs z l r = (l.0, l.1, join_links y ys i zs z l.2 r)

-- The last link bent from `z` to `w`.
pub relink_end :
    (nx pv : ℕ → ℕ) (x : ℕ) (ys : List ℕ) (z w : ℕ)
    → Distinct (x ∷ ys)
    → NotIn w ys
    → Linked nx pv x ys z
    → Linked (upd nx (last x ys) w) (upd pv w (last x ys)) x ys w
relink_end nx pv x [] z w d n l = (ground arith, ground arith)
relink_end nx pv x (y ∷ ys) z w d n l =
    let apart = ne-last x y ys d.0 in
    (ground arith, ground arith, relink_end nx pv y ys z w d.1 n.1 l.2)

pub last-NotIn : (x : ℕ) (ys zs : List ℕ) → Distinct (x ∷ (ys ++ zs)) → NotIn (last x ys) zs
last-NotIn x [] zs d = d.0
last-NotIn x (y ∷ ys) zs d = last-NotIn y ys zs d.1

pub middle-NotIn : (ys : List ℕ) (w : ℕ) (ws : List ℕ) → Distinct (ys ++ w ∷ ws) → NotIn w ys
middle-NotIn [] w ws d = tt
middle-NotIn (y ∷ ys) w ws d =
    let apart = NotIn-append_right y ys (w ∷ ws) d.0 in
    (λ e. apart.0 (sym e), middle-NotIn ys w ws d.1)

pub Distinct-append_left : (xs ys : List ℕ) → Distinct (xs ++ ys) → Distinct xs
Distinct-append_left [] ys d = tt
Distinct-append_left (x ∷ xs) ys d = (NotIn-append_left x xs ys d.0, Distinct-append_left xs ys d.1)

pub Distinct-append_right : (xs ys : List ℕ) → Distinct (xs ++ ys) → Distinct ys
Distinct-append_right [] ys d = d
Distinct-append_right (x ∷ xs) ys d = Distinct-append_right xs ys d.1

-- A circular list with `i` taken out of its middle.
pub unlink_links :
    (nx pv : ℕ → ℕ) (x : ℕ) (ys : List ℕ) (i : ℕ) (zs : List ℕ)
    → Distinct (x ∷ (ys ++ i ∷ zs))
    → Linked nx pv x (ys ++ i ∷ zs) x
    → Linked (upd nx (last x ys) (first zs x)) (upd pv (first zs x) (last x ys)) x (ys ++ zs) x
unlink_links nx pv x ys i [] d l =
    let (left, right) = split_links nx pv x ys i [] x l in
    let d' = Distinct-append_left (x ∷ ys) (i ∷ []) d in
    rw append-nil (relink_end nx pv x ys i x d' d'.0 left)
unlink_links nx pv x ys i (w ∷ ws) d l =
    let (left, right) = split_links nx pv x ys i (w ∷ ws) x l in
    let p = last x ys in
    let d' = Distinct-remove i (x ∷ ys) (w ∷ ws) d in
    let x_apart = NotIn-append_right x ys (w ∷ ws) d'.0 in
    let nx' = upd nx p w in
    join_links nx' (upd pv w p) x ys w ws x
      (relink_end nx pv x ys i w (Distinct-append_left (x ∷ ys) (w ∷ ws) d')
        (middle-NotIn ys w ws d'.1) left)
      (frame_prev nx' pv w p w ws x (Distinct-append_right ys (w ∷ ws) d'.1).0
        (λ e. x_apart.0 (sym e))
        (frame_next nx pv p w w ws x (last-NotIn x ys (w ∷ ws) d') right.2))

-- A circular list with `i` put in behind its last element.
pub append_link :
    (nx pv : ℕ → ℕ) (x : ℕ) (ys : List ℕ) (i : ℕ)
    → Distinct (x ∷ ys)
    → NotIn i (x ∷ ys)
    → Linked nx pv x ys x
    → let p = last x ys in Linked (upd (upd nx i x) p i) (upd (upd pv i p) x i) x (ys ++ i ∷ []) x
append_link nx pv x ys i d n l =
    let p = last x ys in
    let nx' = upd nx i x in
    let bent = relink_end nx' pv x ys x i d n.1 (frame_next nx pv i x x ys x n l) in
    let apart = ne-last i x ys n in
    join_links (upd nx' p i) (upd (upd pv i p) x i) x ys i [] x
      (frame_prev (upd nx' p i) (upd pv i p) x i x ys i d.0 (λ e. n.0 (sym e)) bent)
      (ground arith, ground arith)

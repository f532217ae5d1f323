-- ===== src/Database/Sorted.antt =====
-- The specification of the database: a list of entries that is sorted by name, with the reference
-- operations, and what they do at a split of the list.
use Prim.Native.Nat.Ordering.{lt, eq, gt}
use c_course_projects.Common.{
  ◌≡◌, refl, Option, none, some, List, [], ◌∷◌, ◌++◌, arith, All, All-imp, All-append_left,
  All-append_right, if◌then◌else◌, inl, inr,
}
use c_course_projects.Common.Bytes.{
  Bytes, strcmp, is_eq, ◌≺◌, strcmp_refl, eq_of_strcmp, gt_of_lt, lt_of_gt, ≺_trans, Ordering-cases,
}
use c_course_projects.Database.Tree.{Entry}

abbrev pub Before : Bytes → List Entry → Type 0
Before k = All (λ e. e.0 ≺ k)

abbrev pub After : Bytes → List Entry → Type 0
After k = All (λ e. k ≺ e.0)

-- Strictly increasing names.
abbrev pub IsSorted : List Entry → Type 0
IsSorted [] = Unit
IsSorted (e ∷ es) = After e.0 es × IsSorted es

unfoldable pub lookup : Bytes → List Entry → Option Bytes
lookup k [] = none
lookup k ((n, v) ∷ es) = if is_eq (strcmp k n) then some v else lookup k es

unfoldable pub insert : Bytes → Bytes → List Entry → List Entry
insert k v [] = (k, v) ∷ []
insert k v ((n, w) ∷ es) = elim (strcmp k n) [
  | lt ↦ (k, v) ∷ (n, w) ∷ es
  | eq ↦ (n, w) ∷ es
  | gt ↦ (n, w) ∷ insert k v es
]

unfoldable pub erase : Bytes → List Entry → List Entry
erase k [] = []
erase k ((n, w) ∷ es) = if is_eq (strcmp k n) then es else (n, w) ∷ erase k es

pub lookup-Before :
    (k : Bytes) (xs ys : List Entry) → Before k xs → lookup k (xs ++ ys) ≡ lookup k ys
unfolding lookup
lookup-Before k [] ys h = refl
lookup-Before k ((n, v) ∷ xs) ys h = ground (arith, gt_of_lt n k, lookup-Before k xs ys)

pub lookup-After : (k : Bytes) (ys : List Entry) → After k ys → lookup k ys ≡ none
unfolding lookup
lookup-After k [] h = refl
lookup-After k ((n, v) ∷ ys) h = ground (arith, lookup-After k ys)

pub lookup_here :
    (k v : Bytes) (xs ys : List Entry) → Before k xs → lookup k (xs ++ ((k, v) ∷ ys)) ≡ some v
unfolding lookup
lookup_here k v xs ys h = ground (arith, lookup-Before k xs ((k, v) ∷ ys), strcmp_refl k)

pub insert_here :
    (k v : Bytes) (xs ys : List Entry)
    → Before k xs
    → After k ys
    → insert k v (xs ++ ys) ≡ xs ++ ((k, v) ∷ ys)
unfolding insert
insert_here k v [] [] h a = refl
insert_here k v [] ((n, w) ∷ ys) h a = ground arith
insert_here k v ((n, w) ∷ xs) ys h a = ground (arith, gt_of_lt n k, insert_here k v xs ys)

pub erase_here :
    (k v : Bytes) (xs ys : List Entry) → Before k xs → erase k (xs ++ ((k, v) ∷ ys)) ≡ xs ++ ys
unfolding erase
erase_here k v [] ys h = ground (arith, strcmp_refl k)
erase_here k v ((n, w) ∷ xs) ys h = ground (arith, gt_of_lt n k, erase_here k v xs ys)

-- A sorted list splits at any entry.
pub IsSorted-split :
    (k v : Bytes) (xs ys : List Entry)
    → IsSorted (xs ++ ((k, v) ∷ ys))
    → Before k xs × After k ys × IsSorted xs × IsSorted ys
IsSorted-split k v [] ys s = (tt, s.0, tt, s.1)
IsSorted-split k v ((n, w) ∷ xs) ys s =
    let (before, after, left, right) = IsSorted-split k v xs ys s.1 in
    (
      ((All-append_right (λ e. n ≺ e.0) xs ((k, v) ∷ ys) s.0).0, before),
      after,
      (All-append_left (λ e. n ≺ e.0) xs ((k, v) ∷ ys) s.0, left),
      right,
    )

pub After-trans : (k n : Bytes) (es : List Entry) → k ≺ n → After n es → After k es
After-trans k n es h = All-imp (λ e. ≺_trans k n e.0 h) es

pub Before-trans : (k n : Bytes) (es : List Entry) → n ≺ k → Before n es → Before k es
Before-trans k n es h = All-imp (λ e b. ≺_trans e.0 n k b h) es

pub insert-After : (m k v : Bytes) (es : List Entry) → m ≺ k → After m es → After m (insert k v es)
unfolding insert
insert-After m k v [] h a = (h, tt)
insert-After m k v ((n, w) ∷ es) h a = ground (arith, insert-After m k v es)

pub insert-IsSorted : (k v : Bytes) (es : List Entry) → IsSorted es → IsSorted (insert k v es)
unfolding insert
insert-IsSorted k v [] s = (tt, tt)
insert-IsSorted k v ((n, w) ∷ es) s = elim (Ordering-cases (strcmp k n)) [
  | inl l ↦ rw (l, insert, IsSorted) ((l, After-trans k n es l s.0), s)
  | inr (inl e) ↦ rw (e, insert, IsSorted) s
  | inr (inr g) ↦
      rw (g, insert, IsSorted)
        (insert-After n k v es (lt_of_gt k n g) s.0, insert-IsSorted k v es s.1)
]

pub erase-After : (m k : Bytes) (es : List Entry) → After m es → After m (erase k es)
unfolding erase
erase-After m k [] a = tt
erase-After m k ((n, w) ∷ es) a = ground (arith, erase-After m k es)

pub erase-IsSorted : (k : Bytes) (es : List Entry) → IsSorted es → IsSorted (erase k es)
unfolding erase
erase-IsSorted k [] s = tt
erase-IsSorted k ((n, w) ∷ es) s = ground (arith, erase-After n k es, erase-IsSorted k es)

-- A name that is there is not inserted again.
pub insert_known :
    (k v w : Bytes) (es : List Entry) → lookup k es ≡ some w → IsSorted es → insert k v es ≡ es
unfolding lookup insert
insert_known k v w [] h s = cc
insert_known k v w ((n, u) ∷ es) h s =
    ground (arith, insert_known k v w es, lookup-After k es, After-trans k n es)

-- Reading after an insertion: a name that was there keeps its value.
pub lookup-insert :
    (k j v : Bytes) (es : List Entry)
    → IsSorted es
    → lookup j (insert k v es) ≡ (
        if is_eq (strcmp j k)
        then (elim (lookup k es) [ some w ↦ some w | none ↦ some v ])
        else lookup j es)
unfolding lookup insert
lookup-insert k j v [] s = refl
lookup-insert k j v ((n, w) ∷ es) s = ground (
  arith,
  lookup-insert k j v es,
  eq_of_strcmp k n,
  eq_of_strcmp j k,
  strcmp_refl k,
  lookup-After k es,
  After-trans k n es,
)

pub lookup-erase :
    (k j : Bytes) (es : List Entry)
    → IsSorted es
    → lookup j (erase k es) ≡ (if is_eq (strcmp j k) then none else lookup j es)
unfolding lookup erase
lookup-erase k j [] s = ground arith
lookup-erase k j ((n, w) ∷ es) s = ground (
  arith,
  lookup-erase k j es,
  eq_of_strcmp k n,
  eq_of_strcmp j n,
  eq_of_strcmp j k,
  strcmp_refl k,
  lookup-After k es,
)

pub erase_unknown : (k : Bytes) (es : List Entry) → lookup k es ≡ none → erase k es ≡ es
unfolding lookup erase
erase_unknown k [] h = refl
erase_unknown k ((n, w) ∷ es) h = ground (arith, erase_unknown k es)

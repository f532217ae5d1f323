-- ===== src/Common/Bytes.antt =====
-- C strings as the bytes before their terminator, and `strcmp` on them.
use Prim.Native.Nat.{ℕ, compare, Ordering}
use Prim.Native.Nat.Ordering.{lt, eq, gt}
use Prim.Native.Char.{code}
use Prim.Native.String.{String}
use mathlib.Core.Path.{◌≡◌, refl}
use mathlib.Core.Logic.{◌≢◌, ◌⊎◌, inl, inr}
use mathlib.Core.Bool.{Bool, true, false, ◌||◌, ◌&&◌}
use mathlib.Core.List.{List, [], ◌∷◌}
use native.Mathlib.Omega.{arith}
use c_course_projects.Common.Tests.{◌==◌, leb}

abbrev pub Bytes : Type 0
Bytes = List ℕ

abbrev pub codes : String → Bytes
codes String.[] = []
codes (String.◌∷◌ c s) = code c ∷ codes s

-- `strcmp` by its sign: it compares the first bytes that differ, as unsigned numbers.
unfoldable pub strcmp : Bytes → Bytes → Ordering
strcmp [] [] = eq
strcmp [] (y ∷ ys) = lt
strcmp (x ∷ xs) [] = gt
strcmp (x ∷ xs) (y ∷ ys) = elim (compare x y) [ lt ↦ lt | eq ↦ strcmp xs ys | gt ↦ gt ]

-- `strcmp(a, b) < 0` and `strcmp(a, b) == 0`
abbrev pub is_lt : Ordering → Bool
is_lt lt = true
is_lt _ = false

abbrev pub is_eq : Ordering → Bool
is_eq eq = true
is_eq _ = false

infix 50 ◌≺◌
abbrev pub ◌≺◌ : Bytes → Bytes → Type 0
a ≺ b = strcmp a b ≡ lt

-- `isspace` of the C locale
unfoldable pub isspace : ℕ → Bool
isspace c = (leb 9 c && leb c 13) || c == 32

pub strcmp_refl : (a : Bytes) → strcmp a a ≡ eq
unfolding strcmp
strcmp_refl [] = refl
strcmp_refl (x ∷ xs) = ground (arith, strcmp_refl xs)

pub eq_of_strcmp : (a b : Bytes) → strcmp a b ≡ eq → a ≡ b
unfolding strcmp
eq_of_strcmp [] [] h = refl
eq_of_strcmp [] (y ∷ ys) h = cc
eq_of_strcmp (x ∷ xs) [] h = cc
eq_of_strcmp (x ∷ xs) (y ∷ ys) h = ground (arith, eq_of_strcmp xs ys)

pub lt_of_gt : (a b : Bytes) → strcmp a b ≡ gt → b ≺ a
unfolding strcmp
lt_of_gt [] [] h = cc
lt_of_gt [] (y ∷ ys) h = cc
lt_of_gt (x ∷ xs) [] h = refl
lt_of_gt (x ∷ xs) (y ∷ ys) h = ground (arith, lt_of_gt xs ys)

pub gt_of_lt : (a b : Bytes) → a ≺ b → strcmp b a ≡ gt
unfolding strcmp
gt_of_lt [] [] h = cc
gt_of_lt [] (y ∷ ys) h = refl
gt_of_lt (x ∷ xs) [] h = cc
gt_of_lt (x ∷ xs) (y ∷ ys) h = ground (arith, gt_of_lt xs ys)

pub ≺_trans : (a b c : Bytes) → a ≺ b → b ≺ c → a ≺ c
unfolding strcmp
≺_trans [] [] c h k = cc
≺_trans [] (y ∷ ys) [] h k = cc
≺_trans [] (y ∷ ys) (z ∷ zs) h k = refl
≺_trans (x ∷ xs) [] c h k = cc
≺_trans (x ∷ xs) (y ∷ ys) [] h k = cc
≺_trans (x ∷ xs) (y ∷ ys) (z ∷ zs) h k = ground (arith, ≺_trans xs ys zs)

pub nil-≺ : (a : Bytes) → a ≢ [] → [] ≺ a
unfolding strcmp
nil-≺ [] h = absurd (h refl)
nil-≺ (x ∷ xs) h = refl

pub Ordering-cases : (o : Ordering) → (o ≡ lt) ⊎ (o ≡ eq) ⊎ (o ≡ gt)
Ordering-cases lt = inl refl
Ordering-cases eq = inr (inl refl)
Ordering-cases gt = inr (inr refl)

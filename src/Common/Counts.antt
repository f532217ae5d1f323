-- ===== src/Common/Counts.antt =====
-- How often a number occurs in a list.
use Prim.Native.Nat.{ℕ, ◌+◌, ◌<◌}
use mathlib.Core.Path.{◌≡◌, ap}
use mathlib.Core.Logic.{inl, inr}
use mathlib.Core.List.{List, [], ◌∷◌, ◌++◌}
use native.Mathlib.Omega.{arith}
use c_course_projects.Common.Tests.{◌==◌, if◌then◌else◌, Bool-cases}

abbrev pub count : ℕ → List ℕ → ℕ
count x [] = 0
count x (y ∷ ys) = (if y == x then 1 else 0) + count x ys

pub count-append : (x : ℕ) (us vs : List ℕ) → count x (us ++ vs) ≡ count x us + count x vs
count-append x [] vs = omega arith
count-append x (u ∷ us) vs = omega (arith, count-append x us vs)

-- A list with an element is cut at it.
pub take_out :
    (b : ℕ) (fl : List ℕ) → 0 < count b fl → (us : List ℕ) × (zs : List ℕ) × (fl ≡ us ++ b ∷ zs)
take_out b [] h = absurd (omega arith)
take_out b (y ∷ ys) h = elim (Bool-cases (y == b)) [
  | inl e ↦ let same : y ≡ b = ground arith in ([], ys, ap (λ t. t ∷ ys) same)
  | inr n ↦
      let rest : 0 < count b ys = ground arith in
      let (us, zs, e) = take_out b ys rest in (y ∷ us, zs, ap (λ t. y ∷ t) e)
]

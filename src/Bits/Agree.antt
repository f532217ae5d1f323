-- ===== src/Bits/Agree.antt =====
-- Functions of data/bits.c agree with their tests on every `int`.
use c_course_projects.Common.{ℕ, ◌^◌, ◌<◌, ◌≤◌, ◌≡◌, ◌∙◌, ap, ap₂, inl, inr, ◌⊎◌, arith}
use Prim.Native.Nat.{bit_and as and_bits}
use c_course_projects.Common.Int.{◌+ℤ◌}
use c_course_projects.Bits.{
  ones, complement, sum, is_zero_bits, shift_right, negate, is_equal, add_ok, test_negate,
  test_is_equal, test_add_ok,
}

-- `negate` and `is_equal` agree with their tests on every `int`.
pub negate-is_equal :
    (x y : ℕ)
    → x < 2 ^ 32
    → y < 2 ^ 32
    → (negate x ≡ test_negate x) × (is_equal x y ≡ test_is_equal x y)
unfolding negate test_negate is_equal test_is_equal
negate-is_equal x y hx hy = (ground arith, ground arith)

-- The sign of an `int`: all bits 0, or all bits 1.
sign-cases :
    (x : ℕ)
    → x < 2 ^ 32
    → ((x < 2147483648) × (shift_right x 31 ≡ 0)) ⊎ ((2147483648 ≤ x) × (shift_right x 31 ≡ ones))
sign-cases x h = ground arith

-- What `add_ok` computes from the three signs.
abbrev verdict : ℕ → ℕ → ℕ → ℕ
verdict signx signy signa =
    is_zero_bits
      (and_bits (sum (sum signa (complement signy)) 1) (sum (sum signa (complement signx)) 1))

add_ok-verdict :
    (x y p q r : ℕ)
    → shift_right x 31 ≡ p
    → shift_right y 31 ≡ q
    → shift_right (sum x y) 31 ≡ r
    → add_ok x y ≡ verdict p q r
unfolding add_ok
add_ok-verdict x y p q r hp hq hr =
    ap₂ (λ a b. verdict a b (shift_right (sum x y) 31)) hp hq ∙ ap (verdict p q) hr

-- `add_ok` tells whether the exact sum of two `int` values is an `int`.
pub add_ok-test_add_ok : (x y : ℕ) → x < 2 ^ 32 → y < 2 ^ 32 → add_ok x y ≡ test_add_ok x y
unfolding test_add_ok ◌+ℤ◌
add_ok-test_add_ok x y hx hy = elim (sign-cases x hx) [
  | inl (xs, xe) ↦ elim (sign-cases y hy) [
    | inl (ys, ye) ↦ elim (sign-cases (sum x y) (omega arith)) [
      | inl (s, e) ↦ add_ok-verdict x y 0 0 0 xe ye e ∙ ground arith
      | inr (s, e) ↦ add_ok-verdict x y 0 0 ones xe ye e ∙ ground arith
    ]
    | inr (ys, ye) ↦ elim (sign-cases (sum x y) (omega arith)) [
      | inl (s, e) ↦ add_ok-verdict x y 0 ones 0 xe ye e ∙ ground arith
      | inr (s, e) ↦ add_ok-verdict x y 0 ones ones xe ye e ∙ ground arith
    ]
  ]
  | inr (xs, xe) ↦ elim (sign-cases y hy) [
    | inl (ys, ye) ↦ elim (sign-cases (sum x y) (omega arith)) [
      | inl (s, e) ↦ add_ok-verdict x y ones 0 0 xe ye e ∙ ground arith
      | inr (s, e) ↦ add_ok-verdict x y ones 0 ones xe ye e ∙ ground arith
    ]
    | inr (ys, ye) ↦ elim (sign-cases (sum x y) (omega arith)) [
      | inl (s, e) ↦ add_ok-verdict x y ones ones 0 xe ye e ∙ ground arith
      | inr (s, e) ↦ add_ok-verdict x y ones ones ones xe ye e ∙ ground arith
    ]
  ]
]

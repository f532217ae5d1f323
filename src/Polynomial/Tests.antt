-- ===== src/Polynomial/Tests.antt =====
-- A concrete run of the two evaluations, with integers.
use mathlib.Core.Nat
use mathlib.Core.Int.{
  ℤ, pos, negsuc, ◌+ℤ◌, ◌*ℤ◌, ◌-ℤ◌, neg_ℤ, suc_ℤ, pred_ℤ, +ℤ_assoc, +ℤ_comm, *ℤ_comm, suc_ℤ-*ℤ,
  pred_ℤ-*ℤ, *ℤ-negsuc, neg_ℤ-neg_ℤ,
}
use c_course_projects.Common.{ℕ, zero, suc, ◌≡◌, refl, sym, ap, ◌∙◌, some, arith}
use c_course_projects.Polynomial.{Arithmetic, poly, poly_naive}
use c_course_projects.Polynomial.Exact.{IsExact, poly-poly_naive}

*ℤ-suc_ℤ : (m k : ℤ) → m *ℤ suc_ℤ k ≡ m *ℤ k +ℤ m
*ℤ-suc_ℤ m k = *ℤ_comm m (suc_ℤ k) ∙ suc_ℤ-*ℤ k m ∙ ap (λ z. z +ℤ m) (*ℤ_comm k m)

*ℤ-pred_ℤ : (m k : ℤ) → m *ℤ pred_ℤ k ≡ m *ℤ k -ℤ m
*ℤ-pred_ℤ m k = *ℤ_comm m (pred_ℤ k) ∙ pred_ℤ-*ℤ k m ∙ ap (λ z. z -ℤ m) (*ℤ_comm k m)

*ℤ-+ℤ : (m a b : ℤ) → m *ℤ (a +ℤ b) ≡ m *ℤ a +ℤ m *ℤ b
*ℤ-+ℤ m a (pos Nat.zero) = refl
*ℤ-+ℤ m a (pos (Nat.suc n)) =
    *ℤ-suc_ℤ m (a +ℤ pos n)
    ∙ ap (λ z. z +ℤ m) (*ℤ-+ℤ m a (pos n))
    ∙ +ℤ_assoc (m *ℤ a) (m *ℤ pos n) m
*ℤ-+ℤ m a (negsuc Nat.zero) = *ℤ-pred_ℤ m a
*ℤ-+ℤ m a (negsuc (Nat.suc n)) =
    *ℤ-pred_ℤ m (a +ℤ negsuc n)
    ∙ ap (λ z. z -ℤ m) (*ℤ-+ℤ m a (negsuc n))
    ∙ +ℤ_assoc (m *ℤ a) (m *ℤ negsuc n) (neg_ℤ m)

*ℤ-neg_ℤ : (m k : ℤ) → m *ℤ neg_ℤ k ≡ neg_ℤ (m *ℤ k)
*ℤ-neg_ℤ m (pos Nat.zero) = refl
*ℤ-neg_ℤ m (pos (Nat.suc n)) = *ℤ-negsuc m n
*ℤ-neg_ℤ m (negsuc n) = sym (neg_ℤ-neg_ℤ (m *ℤ pos (Nat.suc n))) ∙ ap neg_ℤ (sym (*ℤ-negsuc m n))

*ℤ_assoc : (a b c : ℤ) → (a *ℤ b) *ℤ c ≡ a *ℤ (b *ℤ c)
*ℤ_assoc a b (pos Nat.zero) = refl
*ℤ_assoc a b (pos (Nat.suc n)) =
    ap (λ z. z +ℤ a *ℤ b) (*ℤ_assoc a b (pos n)) ∙ sym (*ℤ-+ℤ a (b *ℤ pos n) b)
*ℤ_assoc a b (negsuc Nat.zero) = sym (*ℤ-neg_ℤ a b)
*ℤ_assoc a b (negsuc (Nat.suc n)) =
    ap (λ z. z -ℤ a *ℤ b) (*ℤ_assoc a b (negsuc n))
    ∙ ap (λ z. a *ℤ (b *ℤ negsuc n) +ℤ z) (sym (*ℤ-neg_ℤ a b))
    ∙ sym (*ℤ-+ℤ a (b *ℤ negsuc n) (neg_ℤ b))

abbrev integers : Arithmetic ℤ
integers = record { add = λ m n. m +ℤ n; mul = λ m n. m *ℤ n }

integers-IsExact : IsExact integers
integers-IsExact = record {
  null = pos Nat.zero;
  add_null = λ m. refl;
  mul_null = λ m. refl;
  add_assoc = +ℤ_assoc;
  add_comm = +ℤ_comm;
  mul_assoc = *ℤ_assoc;
  mul_comm = *ℤ_comm;
  mul_add = *ℤ-+ℤ;
}

-- -1, 1, 0, -1, -2 and so on
abbrev coefficients : ℕ → ℤ
coefficients zero = negsuc Nat.zero
coefficients (suc zero) = pos (Nat.suc Nat.zero)
coefficients (suc (suc i)) = pred_ℤ (coefficients (suc i))

abbrev minus_two : ℤ
minus_two = negsuc (Nat.suc Nat.zero)

poly-poly_naive_example :
    poly integers coefficients minus_two 11 ≡ some (poly_naive integers coefficients minus_two 11)
poly-poly_naive_example =
    poly-poly_naive integers integers-IsExact coefficients minus_two 11 (omega arith) (omega arith)

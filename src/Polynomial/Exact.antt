-- ===== src/Polynomial/Exact.antt =====
-- `poly` and `poly_naive` agree in exact arithmetic, where the degree leaves 0, 1 or 2 by 5.
use native.Mathlib.Numerals.{unary_clauses}
use c_course_projects.Common.{
  ℕ, zero, suc, ◌+◌, ◌-◌, ◌%◌, ◌≤◌, ◌≡◌, refl, sym, ap, ◌∙◌, some, arith, ltb, false,
}
use c_course_projects.Polynomial.{
  Arithmetic, Results, start, step, total, poly_loop, poly, naive_loop, poly_naive,
}

-- The laws of exact arithmetic: a commutative semiring, as the integers, the rationals and the real
-- numbers are.
pub record IsExact {A : Type 0} (num : Arithmetic A) : Type 0 where
  pub null : A
  pub add_null : (a : A) → num.add a null ≡ a
  pub mul_null : (a : A) → num.mul a null ≡ null
  pub add_assoc : (a b c : A) → num.add (num.add a b) c ≡ num.add a (num.add b c)
  pub add_comm : (a b : A) → num.add a b ≡ num.add b a
  pub mul_assoc : (a b c : A) → num.mul (num.mul a b) c ≡ num.mul a (num.mul b c)
  pub mul_comm : (a b : A) → num.mul a b ≡ num.mul b a
  pub mul_add : (a b c : A) → num.mul a (num.add b c) ≡ num.add (num.mul a b) (num.mul a c)

module _ {A : Type 0} (num : Arithmetic A) (laws : IsExact num) where
  infixl 65 ◌⊕◌
  infixl 70 ◌⊗◌
  abbrev ◌⊕◌ : A → A → A
  m ⊕ n = num.add m n

  abbrev ◌⊗◌ : A → A → A
  m ⊗ n = num.mul m n

  add_left_comm : (m n k : A) → num.add m (num.add n k) ≡ num.add n (num.add m k)
  add_left_comm m n k =
      sym (laws.add_assoc m n k) ∙ ap (λ z. num.add z k) (laws.add_comm m n) ∙ laws.add_assoc n m k

  mul_left_comm : (m n k : A) → num.mul m (num.mul n k) ≡ num.mul n (num.mul m k)
  mul_left_comm m n k =
      sym (laws.mul_assoc m n k) ∙ ap (λ z. num.mul z k) (laws.mul_comm m n) ∙ laws.mul_assoc n m k

  add_assoc : (m n k : A) → num.add (num.add m n) k ≡ num.add m (num.add n k)
  add_assoc = laws.add_assoc

  add_comm : (m n : A) → num.add m n ≡ num.add n m
  add_comm = laws.add_comm

  mul_assoc : (m n k : A) → num.mul (num.mul m n) k ≡ num.mul m (num.mul n k)
  mul_assoc = laws.mul_assoc

  mul_comm : (m n : A) → num.mul m n ≡ num.mul n m
  mul_comm = laws.mul_comm

  mul_add : (m n k : A) → num.mul m (num.add n k) ≡ num.add (num.mul m n) (num.mul m k)
  mul_add = laws.mul_add

  ruleset ring = (add_assoc, add_comm, add_left_comm, mul_assoc, mul_comm, mul_left_comm, mul_add)

  module _ (a : ℕ → A) (x : A) where
    -- The polynomial whose coefficients up to `i` are those of `a`, and whose rest has the value `t`.
    abbrev upto : ℕ → A → A
    upto zero t = a 0 ⊕ x ⊗ t
    upto (suc i) t = upto i (a (suc i) ⊕ x ⊗ t)

    abbrev value : Results A → A
    value r = r.result5 ⊕ x ⊗ (r.result4 ⊕ x ⊗ (r.result3 ⊕ x ⊗ (r.result2 ⊕ x ⊗ r.result1)))

    -- The five coefficients after `i`, and the rest.
    abbrev block : ℕ → A → A
    block i t =
        a (i + 1) ⊕ x ⊗ (a (i + 2) ⊕ x ⊗ (a (i + 3) ⊕ x ⊗ (a (i + 4) ⊕ x ⊗ (a (i + 5) ⊕ x ⊗ t))))

    five : (i : ℕ) (t : A) → upto (suc (suc (suc (suc (suc i))))) t ≡ upto i (block i t)
    five i t = simp unary_clauses

    value-step : (i : ℕ) (r : Results A) → value (step num a x i r) ≡ block i (value r)
    value-step i r = simp ring

    naive-upto :
        (i : ℕ) (t : A) → upto i t ≡ (naive_loop num a x i).0 ⊕ (naive_loop num a x i).1 ⊗ t
    unfolding naive_loop
    naive-upto zero t = refl
    naive-upto (suc i) t = naive-upto i (a (suc i) ⊕ x ⊗ t) ∙ simp ring

    loop-upto :
        (i : ℕ) (r : Results A)
        → i % 5 ≤ 2
        → total num a x (poly_loop num a x i r) ≡ upto i (value r)
    unfolding poly_loop
    loop-upto zero r h = simp ring
    loop-upto (suc zero) r h = simp ring
    loop-upto (suc (suc zero)) r h = simp ring
    loop-upto (suc (suc (suc zero))) r h = absurd (omega arith)
    loop-upto (suc (suc (suc (suc zero)))) r h = absurd (omega arith)
    loop-upto (suc (suc (suc (suc (suc i))))) r h =
        loop-upto i (step num a x i r) (omega arith)
        ∙ ap (upto i) (value-step i r)
        ∙ sym (five i (value r))

    value-start : (i : ℕ) → value (start num a x i) ≡ block i laws.null
    value-start i = simp (laws.mul_null, laws.add_null)

    total-naive :
        (i : ℕ)
        → i % 5 ≤ 2
        → total num a x (poly_loop num a x i (start num a x i)) ≡ poly_naive num a x (i + 5)
    unfolding poly_naive
    total-naive i h =
        loop-upto i (start num a x i) h
        ∙ ap (upto i) (value-start i)
        ∙ sym (five i laws.null)
        ∙ naive-upto (suc (suc (suc (suc (suc i))))) laws.null
        ∙ (simp (unary_clauses, laws.mul_null, laws.add_null))

    -- For numbers whose addition and multiplication are those of a commutative semiring, such as
    -- the integers, the rationals or the reals, so without rounding: for a degree of at least 5
    -- that leaves 0, 1 or 2 when it is divided by 5, `poly` returns what `poly_naive` returns.
    pub poly-poly_naive :
        (degree : ℕ)
        → 5 ≤ degree
        → degree % 5 ≤ 2
        → poly num a x degree ≡ some (poly_naive num a x degree)
    unfolding poly
    poly-poly_naive degree h k =
        let four : ltb degree 4 ≡ false = ground arith in
        let five_ : ltb degree 5 ≡ false = ground arith in
        let size : degree - 5 + 5 ≡ degree = omega arith in
        rw (four, five_)
          (ap some (total-naive (degree - 5) (omega arith) ∙ ap (poly_naive num a x) size))

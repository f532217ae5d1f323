-- ===== src/Polynomial.antt =====
-- stringsperf/performance/poly.c and poly_naive.c: evaluation of a polynomial, five coefficients at
-- a time and one at a time.
--
-- `double` and its rounding are a parameter: the numbers with their addition and multiplication. An
-- array is a function of the index; a read before its start is ruled out by `none`.
pub mod Exact
mod Tests
use c_course_projects.Common.{ℕ, zero, suc, ◌+◌, ◌-◌, Bool, Option, none, some, if◌then◌else◌, ltb}

-- `+` and `*` of `double`.
pub record Arithmetic (A : Type 0) : Type 0 where
  pub add : A → A → A
  pub mul : A → A → A

-- `result1` to `result5`
pub record Results (A : Type 0) : Type 0 where
  pub result1 : A
  pub result2 : A
  pub result3 : A
  pub result4 : A
  pub result5 : A

module _ {A : Type 0} (num : Arithmetic A) (a : ℕ → A) (x : A) where
  abbrev pub x2 : A
  x2 = num.mul x x

  abbrev pub x3 : A
  x3 = num.mul x x2

  abbrev pub x4 : A
  x4 = num.mul x x3

  abbrev pub x5 : A
  x5 = num.mul x x4

  -- `x5 * result + coefficient`
  abbrev next : A → A → A
  next result coefficient = num.add (num.mul x5 result) coefficient

  -- The first results, for a degree `i + 5`.
  abbrev pub start : ℕ → Results A
  start i = record {
    result1 = a (i + 5);
    result2 = a (i + 4);
    result3 = a (i + 3);
    result4 = a (i + 2);
    result5 = a (i + 1);
  }

  -- The body of the loop at index `i + 5`.
  abbrev pub step : ℕ → Results A → Results A
  step i r = record {
    result1 = next r.result1 (a (i + 5));
    result2 = next r.result2 (a (i + 4));
    result3 = next r.result3 (a (i + 3));
    result4 = next r.result4 (a (i + 2));
    result5 = next r.result5 (a (i + 1));
  }

  -- The cases of the `switch` after the loop.
  abbrev pub case0 : Results A → Results A
  case0 r = record {
    result1 = num.mul r.result1 x5;
    result2 = num.mul r.result2 x4;
    result3 = num.mul r.result3 x3;
    result4 = num.mul r.result4 x2;
    result5 = num.mul r.result5 x;
  }

  abbrev pub case1 : Results A → Results A
  case1 r = record {
    result1 = num.mul (next r.result1 (a 1)) x;
    result2 = num.mul r.result2 x5;
    result3 = num.mul r.result3 x4;
    result4 = num.mul r.result4 x3;
    result5 = num.mul r.result5 x2;
  }

  abbrev pub case2 : Results A → Results A
  case2 r = record {
    result1 = num.mul (next r.result1 (a 2)) x2;
    result2 = num.mul (next r.result2 (a 1)) x;
    result3 = num.mul r.result3 x5;
    result4 = num.mul r.result4 x4;
    result5 = num.mul r.result5 x3;
  }

  abbrev pub case3 : Results A → Results A
  case3 r = record {
    result1 = num.mul (next r.result1 (a 3)) x3;
    result2 = num.mul (next r.result2 (a 2)) x2;
    result3 = num.mul (next r.result3 (a 1)) x;
    result4 = num.mul r.result4 x4;
    result5 = num.mul r.result5 x5;
  }

  -- `result4 *= x5 * result4 + a[1]` is a product.
  abbrev pub case4 : Results A → Results A
  case4 r = record {
    result1 = num.mul (next r.result1 (a 4)) x4;
    result2 = num.mul (next r.result2 (a 3)) x3;
    result3 = num.mul (next r.result3 (a 2)) x2;
    result4 = num.mul (num.mul r.result4 (next r.result4 (a 1))) x;
    result5 = num.mul r.result5 x5;
  }

  -- The sum that `poly` returns.
  abbrev pub total : Results A → A
  total r =
      num.add (num.add (num.add (num.add (num.add (a 0) r.result1) r.result2) r.result3) r.result4)
        r.result5

  -- The loop from index `i`, with the `switch` at its end.
  unfoldable pub poly_loop : ℕ → Results A → Results A
  poly_loop zero r = case0 r
  poly_loop (suc zero) r = case1 r
  poly_loop (suc (suc zero)) r = case2 r
  poly_loop (suc (suc (suc zero))) r = case3 r
  poly_loop (suc (suc (suc (suc zero)))) r = case4 r
  poly_loop (suc (suc (suc (suc (suc i))))) r = poly_loop i (step i r)

  -- A degree below 4 reads before the start of the array. Degree 4 leaves the loop and the `switch`
  -- at once, with index -1, so that no result gets its power.
  unfoldable pub poly : ℕ → Option A
  unfolding poly_loop
  poly degree =
      if ltb degree 4
      then none
      else if ltb degree 5
      then some (
          total
            (record { result1 = a 4; result2 = a 3; result3 = a 2; result4 = a 1; result5 = a 0 }))
      else some (total (poly_loop (degree - 5) (start (degree - 5))))

  -- `result` and `xpwr` of `poly_naive` after the iteration with `i` equal to the number.
  unfoldable pub naive_loop : ℕ → A × A
  naive_loop zero = (a 0, x)
  naive_loop (suc i) =
      let (result, xpwr) = naive_loop i in
      (num.add result (num.mul (a (suc i)) xpwr), num.mul x xpwr)

  unfoldable pub poly_naive : ℕ → A
  unfolding naive_loop
  poly_naive degree = (naive_loop degree).0

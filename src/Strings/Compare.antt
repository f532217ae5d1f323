-- ===== src/Strings/Compare.antt =====
-- `strncmp` against the first difference of two strings.
use c_course_projects.Common.{
  ℕ, zero, suc, ◌<◌, ◌≡◌, ◌≢◌, refl, ap, subst, ◌↔◌, inl, inr, true, [], ◌∷◌, arith, All, take,
  get_or, Bool-cases,
}
use c_course_projects.Common.Bytes.{Bytes}
use c_course_projects.Common.Int.{ℤ, pos, ◌-ℤ◌}
use c_course_projects.Strings.{strncmp, char, is_zero}

-- The bytes of a string: none is the terminator.
abbrev pub IsText : Bytes → Type 0
IsText = All (λ c. (0 < c) × (c < 256))

char_zero : (a b : ℕ) → a < 256 → b < 256 → is_zero (char a -ℤ char b) ≡ true → a ≡ b
unfolding ◌-ℤ◌
char_zero a b ha hb h = ground arith

char_self : (a : ℕ) → is_zero (char a -ℤ char a) ≡ true
unfolding ◌-ℤ◌
char_self a = ground arith

eq_zero : (z : ℤ) → is_zero z ≡ true → z ≡ pos 0
eq_zero z h = ground arith

pub is_zero_iff : (z : ℤ) → (is_zero z ≡ true) ↔ (z ≡ pos 0)
is_zero_iff z = (eq_zero z, λ e. rw e)

-- What `strncmp(s1, s2, n)` returns: 0 and the first `n` bytes agree, or the difference of the first
-- two bytes that differ, the terminator included, as signed characters.
pub data Compares (s1 s2 : Bytes) (n : ℕ) (v : ℤ) : Type 0 where
  same : v ≡ pos 0 → take n s1 ≡ take n s2 → Compares s1 s2 n v
  differ :
      (i : ℕ)
      → i < n
      → take i s1 ≡ take i s2
      → get_or s1 i 0 ≢ get_or s2 i 0
      → v ≡ char (get_or s1 i 0) -ℤ char (get_or s2 i 0)
      → v ≢ pos 0
      → Compares s1 s2 n v

Compares-cons :
    (c : ℕ) (s1 s2 : Bytes) (n : ℕ) (v : ℤ)
    → Compares s1 s2 n v
    → Compares (c ∷ s1) (c ∷ s2) (suc n) v
Compares-cons c s1 s2 n v (same z e) = same z (ap (λ t. c ∷ t) e)
Compares-cons c s1 s2 n v (differ i lt e ne d nz) =
    differ (suc i) (omega arith) (ap (λ t. c ∷ t) e) ne d nz

-- On strings `strncmp` returns 0 and the first `n` bytes agree, or it returns the difference, as
-- signed characters, of the first two bytes that differ, which are among the first `n`.
pub strncmp-Compares :
    (s1 s2 : Bytes) (n : ℕ) → IsText s1 → IsText s2 → Compares s1 s2 n (strncmp s1 s2 n)
unfolding strncmp
strncmp-Compares [] s2 zero h k = same refl refl
strncmp-Compares [] [] (suc n) h k = same (eq_zero _ (char_self 0)) refl
strncmp-Compares [] (d ∷ s2) (suc n) h k =
    differ 0 (omega arith) refl (omega arith) refl
      (λ e. absurd (omega (arith, char_zero 0 d (omega arith) (omega arith) ((is_zero_iff _).1 e))))
strncmp-Compares (c ∷ s1) s2 zero h k = same refl refl
strncmp-Compares (c ∷ s1) [] (suc n) h k = elim (Bool-cases (is_zero (char c -ℤ char 0))) [
  | inl z ↦ absurd (omega (arith, char_zero c 0 (omega arith) (omega arith) z))
  | inr z ↦ rw (z, strncmp) (differ 0 (omega arith) refl (omega arith) refl (λ e. cc (rw e at z)))
]
strncmp-Compares (c ∷ s1) (d ∷ s2) (suc n) h k = elim (Bool-cases (is_zero (char c -ℤ char d))) [
  | inl z ↦
      rw (z, strncmp)
        (subst (λ t. Compares (c ∷ s1) (t ∷ s2) (suc n) (strncmp s1 s2 n))
          (char_zero c d (omega arith) (omega arith) z)
          (Compares-cons c s1 s2 n _ (strncmp-Compares s1 s2 n h.1 k.1)))
  | inr z ↦
      rw (z, strncmp)
        (differ 0 (omega arith) refl
          (λ e. cc (subst (λ t. is_zero (char c -ℤ char t) ≡ true) e (char_self c))) refl
          (λ e. cc (rw e at z)))
]

take-eq_get :
    (i n : ℕ) (s1 s2 : Bytes) → i < n → take n s1 ≡ take n s2 → get_or s1 i 0 ≡ get_or s2 i 0
take-eq_get i zero s1 s2 h e = absurd (omega arith)
take-eq_get i (suc n) [] [] h e = refl
take-eq_get i (suc n) [] (b ∷ s2) h e = cc
take-eq_get i (suc n) (a ∷ s1) [] h e = cc
take-eq_get zero (suc n) (a ∷ s1) (b ∷ s2) h e = cc
take-eq_get (suc i) (suc n) (a ∷ s1) (b ∷ s2) h e = take-eq_get i n s1 s2 (omega arith) (cc)

zero_of_same :
    {s1 s2 : Bytes} {n : ℕ} {v : ℤ} → Compares s1 s2 n v → take n s1 ≡ take n s2 → v ≡ pos 0
zero_of_same (same z e) h = z
zero_of_same {s1} {s2} {n} (differ i lt e ne d nz) h = absurd (ne (take-eq_get i n s1 s2 lt h))

same_of_zero :
    {s1 s2 : Bytes} {n : ℕ} {v : ℤ} → Compares s1 s2 n v → v ≡ pos 0 → take n s1 ≡ take n s2
same_of_zero (same z e) h = e
same_of_zero (differ i lt e ne d nz) h = absurd (nz h)

-- On strings `strncmp` returns 0 exactly if the first `n` bytes agree.
pub strncmp-eq-zero :
    (s1 s2 : Bytes) (n : ℕ)
    → IsText s1
    → IsText s2
    → (strncmp s1 s2 n ≡ pos 0) ↔ (take n s1 ≡ take n s2)
strncmp-eq-zero s1 s2 n h k =
    (same_of_zero (strncmp-Compares s1 s2 n h k), zero_of_same (strncmp-Compares s1 s2 n h k))

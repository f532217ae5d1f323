-- ===== src/Strings/Find.antt =====
-- `strstr` against the first occurrence.
use c_course_projects.Common.{
  ℕ, zero, suc, ◌+◌, ◌<◌, ◌≡◌, ◌≢◌, refl, ap, subst, ◌↔◌, ◌∙◌, sym, inl, inr, true, false, Option,
  none, some, [], ◌∷◌, arith, length, take, drop, take-eq_of_le, Bool-cases, ◌==◌,
}
use c_course_projects.Common.Bytes.{Bytes}
use c_course_projects.Strings.{strncmp, strstr_loop, strstr, is_zero}
use c_course_projects.Strings.Span.{strlen-length}
use c_course_projects.Strings.Compare.{IsText, is_zero_iff, strncmp-eq-zero}

-- The needle stands at index `i`.
abbrev pub OccursAt : Bytes → Bytes → ℕ → Type 0
OccursAt haystack needle i = take (length needle) (drop i haystack) ≡ needle

-- NULL, and the needle stands nowhere; or the first index at which it stands.
abbrev pub Finds : Bytes → Bytes → Option ℕ → Type 0
Finds haystack needle none = (j : ℕ) → ¬ OccursAt haystack needle j
Finds haystack needle (some i) =
    OccursAt haystack needle i × ((j : ℕ) → j < i → ¬ OccursAt haystack needle j)

matches_iff :
    (s needle : Bytes)
    → IsText s
    → IsText needle
    → (is_zero (strncmp s needle (length needle)) ≡ true) ↔ (take (length needle) s ≡ needle)
matches_iff s needle h k =
    let whole = take-eq_of_le (length needle) needle (omega arith) in
    let iff = strncmp-eq-zero s needle (length needle) h k in
    let zero_iff = is_zero_iff (strncmp s needle (length needle)) in
    (λ e. iff.0 (zero_iff.0 e) ∙ whole, λ e. zero_iff.1 (iff.1 (e ∙ sym whole)))

abbrev shift : ℕ → Option ℕ → Option ℕ
shift i none = none
shift i (some j) = some (i + j)

shift_suc : (i : ℕ) (r : Option ℕ) → shift (i + 1) r ≡ shift i (shift 1 r)
shift_suc i none = refl
shift_suc i (some j) = ap some (omega arith)

Finds-nil : (needle : Bytes) → needle ≢ [] → Finds [] needle none
Finds-nil [] ne j = absurd (ne refl)
Finds-nil (c ∷ needle) ne zero = λ e. cc
Finds-nil (c ∷ needle) ne (suc j) = λ e. cc

Finds-cons :
    (c : ℕ) (s needle : Bytes) (r : Option ℕ)
    → ¬ OccursAt (c ∷ s) needle 0
    → Finds s needle r
    → Finds (c ∷ s) needle (shift 1 r)
Finds-cons c s needle none h f = λ j. go j
  where
    go : (j : ℕ) → ¬ OccursAt (c ∷ s) needle j
    go zero = h
    go (suc j) = f j
Finds-cons c s needle (some i) h (here, earlier) =
    (subst (OccursAt (c ∷ s) needle) {x = suc i} (omega arith) (there i here), go)
  where
    there : (i : ℕ) → OccursAt s needle i → OccursAt (c ∷ s) needle (suc i)
    there i o = o

    go : (j : ℕ) → j < 1 + i → ¬ OccursAt (c ∷ s) needle j
    go zero lt = h
    go (suc j) lt = earlier j (omega arith)

-- The loop from index `i` returns the index in what is left, moved by `i`.
strstr_loop-Finds :
    (haystack needle : Bytes) (i : ℕ)
    → IsText haystack
    → IsText needle
    → needle ≢ []
    → (r : Option ℕ) × (strstr_loop haystack needle (length needle) i ≡ shift i r)
      × Finds haystack needle r
unfolding strstr_loop
strstr_loop-Finds [] needle i h k ne = (none, refl, Finds-nil needle ne)
strstr_loop-Finds (c ∷ s) needle i h k ne =
    let (hit, miss) = matches_iff (c ∷ s) needle h k in
    elim (Bool-cases (is_zero (strncmp (c ∷ s) needle (length needle)))) [
      | inl e ↦ (
        some 0,
        rw (e, strstr_loop) (ap some (omega arith)),
        (hit e, λ j lt. absurd (omega arith)),
      )
      | inr e ↦
          let (r, eq, f) = strstr_loop-Finds s needle (i + 1) h.1 k ne in
          (
            shift 1 r,
            rw (e, strstr_loop) (eq ∙ shift_suc i r),
            Finds-cons c s needle r (λ o. cc (miss o)) f,
          )
    ]

shift_zero : (r : Option ℕ) → shift 0 r ≡ r
shift_zero none = refl
shift_zero (some j) = ap some (omega arith)

-- For a non-empty needle `strstr` returns the first index at which the needle stands, and NULL only
-- if it stands nowhere.
pub strstr-Finds :
    (haystack needle : Bytes)
    → IsText haystack
    → IsText needle
    → needle ≢ []
    → Finds haystack needle (strstr haystack needle)
unfolding strstr
strstr-Finds haystack [] h k ne = absurd (ne refl)
strstr-Finds haystack (c ∷ needle) h k ne =
    let (r, eq, f) = strstr_loop-Finds haystack (c ∷ needle) 0 h k ne in
    let nonzero : (suc (length needle) == 0) ≡ false = ground arith in
    rw (strlen-length (c ∷ needle), nonzero, eq, shift_zero r) f

-- ===== src/Strings/Span.antt =====
-- `strlen`, `strspn` and `strcspn` against their descriptions.
use c_course_projects.Common.{
  ℕ, suc, ◌+◌, ◌≤◌, ◌≡◌, ◌≢◌, refl, inl, inr, ◌⊎◌, Bool, true, false, [], ◌∷◌, arith, All, length,
  take, drop, ◌==◌, Bool-cases, if◌then◌else◌, ◌||◌,
}
use c_course_projects.Common.Bytes.{Bytes}
use c_course_projects.Strings.{
  strlen_loop, strlen, scan_set, strspn_loop, strspn, strcspn_loop, strcspn, first,
}

strlen_loop-length : (s : Bytes) (n : ℕ) → strlen_loop s n ≡ n + length s
unfolding strlen_loop
strlen_loop-length [] n = omega arith
strlen_loop-length (c ∷ s) n = omega (arith, strlen_loop-length s (n + 1))

pub strlen-length : (s : Bytes) → strlen s ≡ length s
unfolding strlen
strlen-length s = omega (arith, strlen_loop-length s 0)

-- Whether a byte occurs in a set of bytes.
abbrev pub occurs : ℕ → Bytes → Bool
occurs c [] = false
occurs c (a ∷ s) = c == a || occurs c s

scan_set-occurs :
    (c : ℕ) (s : Bytes)
    → ((occurs c s ≡ false) × (scan_set c s ≡ []))
      ⊎ ((a : ℕ) × (t : Bytes) × (occurs c s ≡ true) × (scan_set c s ≡ a ∷ t))
unfolding scan_set
scan_set-occurs c [] = inl (refl, refl)
scan_set-occurs c (a ∷ s) = elim (Bool-cases (c == a)) [
  | inl e ↦ inr (a, s, rw e, rw e)
  | inr e ↦ elim (scan_set-occurs c s) [
    | inl (absent, end) ↦ inl (rw e absent, rw e end)
    | inr (b, t, present, at) ↦ inr (b, t, rw e present, rw e at)
  ]
]

-- The span of the bytes at the front for which a test gives `b`.
abbrev pub span : Bool → Bytes → Bytes → ℕ
span b set [] = 0
span b set (c ∷ s) = elim b [
  | true ↦ if occurs c set then suc (span b set s) else 0
  | false ↦ if occurs c set then 0 else suc (span b set s)
]

strspn_loop-span : (s accept : Bytes) (i : ℕ) → strspn_loop s accept i ≡ i + span true accept s
unfolding strspn_loop
strspn_loop-span [] accept i = omega arith
strspn_loop-span (c ∷ s) accept i = elim (scan_set-occurs c accept) [
  | inl (absent, end) ↦ rw (absent, end, strspn_loop) (omega arith)
  | inr (a, t, present, at) ↦
      rw (present, at, strspn_loop) (omega (arith, strspn_loop-span s accept (i + 1)))
]

strcspn_loop-span : (s reject : Bytes) (i : ℕ) → strcspn_loop s reject i ≡ i + span false reject s
unfolding strcspn_loop
strcspn_loop-span [] reject i = omega arith
strcspn_loop-span (c ∷ s) reject i = elim (scan_set-occurs c reject) [
  | inl (absent, end) ↦
      rw (absent, end, strcspn_loop) (omega (arith, strcspn_loop-span s reject (i + 1)))
  | inr (a, t, present, at) ↦ rw (present, at, strcspn_loop) (omega arith)
]

-- The first `n` bytes of the string give `b` for membership in the set, and it ends there or the
-- next byte does not.
pub record IsSpan (b : Bool) (set s : Bytes) (n : ℕ) : Type 0 where
  pub within : n ≤ length s
  pub front : All (λ c. occurs c set ≡ b) (take n s)
  pub stop : (drop n s ≡ []) ⊎ (occurs (first (drop n s)) set ≢ b)

span-IsSpan : (b : Bool) (set s : Bytes) → IsSpan b set s (span b set s)
span-IsSpan b set [] = record { within = omega arith; front = tt; stop = inl refl }
span-IsSpan true set (c ∷ s) = elim (Bool-cases (occurs c set)) [
  | inl e ↦ rw e (record {
    within = omega (arith, (span-IsSpan true set s).within);
    front = (e, (span-IsSpan true set s).front);
    stop = (span-IsSpan true set s).stop;
  })
  | inr e ↦ rw e (record { within = omega arith; front = tt; stop = inr (λ h. cc) })
]
span-IsSpan false set (c ∷ s) = elim (Bool-cases (occurs c set)) [
  | inr e ↦ rw e (record {
    within = omega (arith, (span-IsSpan false set s).within);
    front = (e, (span-IsSpan false set s).front);
    stop = (span-IsSpan false set s).stop;
  })
  | inl e ↦ rw e (record { within = omega arith; front = tt; stop = inr (λ h. cc) })
]

pub strspn-span : (s accept : Bytes) → strspn s accept ≡ span true accept s
unfolding strspn
strspn-span s accept = omega (arith, strspn_loop-span s accept 0)

pub strcspn-span : (s reject : Bytes) → strcspn s reject ≡ span false reject s
unfolding strcspn
strcspn-span s reject = omega (arith, strcspn_loop-span s reject 0)

-- `strspn` counts the longest prefix of bytes of the set, and `strcspn` the longest prefix of bytes
-- that are not in it.
pub spans-IsSpan :
    (s set : Bytes) → IsSpan true set s (strspn s set) × IsSpan false set s (strcspn s set)
spans-IsSpan s set = (
  rw (strspn-span s set) (span-IsSpan true set s),
  rw (strcspn-span s set) (span-IsSpan false set s),
)

-- ===== src/Driver/Overlap.antt =====
-- malloc/mdriver.c: which payloads `add_range` accepts.
use c_course_projects.Common.{
  ℕ, ◌+◌, ◌-◌, ◌%◌, ◌<◌, ◌≤◌, ◌≡◌, ◌≢◌, ◌⊎◌, inl, inr, refl, Bool, true, false, ◌||◌, List, [], ◌∷◌,
  arith, ltb, ◌==◌, Bool-cases,
}
use c_course_projects.Driver.{
  Range, Added, assertion_failed, not_aligned, outside, overlapping, no_memory, added, in_range,
  overlaps, add_range,
}

-- A property of all ranges of a list.
abbrev pub Each : (Range → Type 0) → List Range → Type 0
Each P [] = Unit
Each P (p ∷ ranges) = P p × Each P ranges

abbrev pub Some : (Range → Type 0) → List Range → Type 0
Some P [] = ⊥
Some P (p ∷ ranges) = P p ⊎ Some P ranges

-- The two ranges have an address in common.
abbrev pub Overlap : Range → Range → Type 0
Overlap a b = (a.lo ≤ b.hi) × (b.lo ≤ a.hi)

-- The one lies in the other and reaches neither of its ends.
abbrev pub Inside : Range → Range → Type 0
Inside a b = (b.lo < a.lo) × (a.hi < b.hi)

abbrev pub payload : (lo size : ℕ) → Range
payload lo size = record { lo = lo; hi = lo + size - 1 }

module _ (lo hi : ℕ) (le : lo ≤ hi) where
  abbrev new : Range
  new = record { lo = lo; hi = hi }

  in_range-Overlap : (p : Range) → in_range lo hi p ≡ true → Overlap p new
  unfolding in_range
  in_range-Overlap p h = (ground arith, ground arith)

  in_range-Inside :
      (p : Range) → p.lo ≤ p.hi → in_range lo hi p ≡ false → Overlap p new → Inside p new
  unfolding in_range
  in_range-Inside p v h o = (ground (arith, o.0, o.1), ground (arith, o.0, o.1))

  overlaps-Some :
      (ranges : List Range) → overlaps lo hi ranges ≡ true → Some (λ p. Overlap p new) ranges
  unfolding overlaps
  overlaps-Some [] h = cc
  overlaps-Some (p ∷ ranges) h = elim (Bool-cases (in_range lo hi p)) [
    | inl e ↦ inl (in_range-Overlap p e)
    | inr e ↦ inr (overlaps-Some ranges (rw e at h))
  ]

  overlaps-Each :
      (ranges : List Range)
      → Each (λ p. p.lo ≤ p.hi) ranges
      → overlaps lo hi ranges ≡ false
      → Each (λ p. Overlap p new → Inside p new) ranges
  unfolding overlaps
  overlaps-Each [] v h = tt
  overlaps-Each (p ∷ ranges) v h = elim (Bool-cases (in_range lo hi p)) [
    | inl e ↦ let h' : true ≡ false = rw e at h in cc
    | inr e ↦ (in_range-Inside p v.0 e, overlaps-Each ranges v.1 (rw e at h))
  ]

  -- Ranges that lie inside are not found.
  Inside-in_range : (p : Range) → p.lo ≤ p.hi → Inside p new → in_range lo hi p ≡ false
  unfolding in_range
  Inside-in_range p v i = ground (arith, i.0, i.1)

  Inside-overlaps :
      (ranges : List Range)
      → Each (λ p. p.lo ≤ p.hi) ranges
      → Each (λ p. Inside p new) ranges
      → overlaps lo hi ranges ≡ false
  unfolding overlaps
  Inside-overlaps [] v i = refl
  Inside-overlaps (p ∷ ranges) v i = rw (Inside-in_range p v.0 i.0) (Inside-overlaps ranges v.1 i.1)

module _ (heap_lo heap_hi : ℕ) (memory : Bool) (ranges : List Range) (lo size : ℕ) where
  -- The payload lies in the heap.
  abbrev pub InHeap : Type 0
  InHeap = (heap_lo ≤ lo) × (lo + size - 1 ≤ heap_hi)

  -- What each way to end means.
  abbrev pub Checked : Added → Type 0
  Checked assertion_failed = size ≡ 0
  Checked not_aligned = lo % 8 ≢ 0
  Checked outside = ¬ InHeap
  Checked overlapping = Some (λ p. Overlap p (payload lo size)) ranges
  Checked no_memory = memory ≡ false
  Checked (added ranges') =
      (0 < size)
      × (lo % 8 ≡ 0)
      × InHeap
      × Each (λ p. Overlap p (payload lo size) → Inside p (payload lo size)) ranges
      × (ranges' ≡ payload lo size ∷ ranges)

  abbrev in_heap_test : Bool
  in_heap_test =
      ltb lo heap_lo
      || (ltb heap_hi lo || (ltb (lo + size - 1) heap_lo || ltb heap_hi (lo + size - 1)))

  not_reversed : (size == 0) ≡ false → lo ≤ lo + size - 1
  not_reversed z = ground arith

  -- For ranges that start no later than they end, `add_range` ends as its checks say: the size
  -- is 0, the payload is not aligned, it does not lie in the heap, it has an address in common
  -- with one of the ranges, or there is no memory. Otherwise it is aligned and in the heap,
  -- stands before the ranges, and each range that has an address in common with it lies inside
  -- it and reaches neither of its ends.
  pub add_range-Checked :
      Each (λ p. p.lo ≤ p.hi) ranges → Checked (add_range heap_lo heap_hi memory ranges lo size)
  unfolding add_range
  add_range-Checked valid = elim (Bool-cases (size == 0)) [
    | inl z ↦ rw (z, add_range) (ground arith)
    | inr z ↦ elim (Bool-cases ((lo % 8) == 0)) [
      | inr a ↦ rw (z, a, add_range) (ground arith)
      | inl a ↦ elim (Bool-cases in_heap_test) [
        | inl o ↦ rw (z, a, o, add_range) (λ h. ground (arith, h.0, h.1))
        | inr o ↦ elim (Bool-cases (overlaps lo (lo + size - 1) ranges)) [
          | inl v ↦
              rw (z, a, o, v, add_range)
                (overlaps-Some lo (lo + size - 1) (not_reversed z) ranges v)
          | inr v ↦ elim (Bool-cases memory) [
            | inr m ↦ rw (z, a, o, v, m, add_range) refl
            | inl m ↦
                rw (z, a, o, v, m, add_range)
                  (
                    ground arith,
                    ground arith,
                    (ground arith, ground arith),
                    overlaps-Each lo (lo + size - 1) (not_reversed z) ranges valid v,
                    refl,
                  )
          ]
        ]
      ]
    ]
  ]

  -- With memory at hand, an aligned payload in the heap is added although every range lies
  -- inside it, as long as no range reaches one of its ends: it overlaps each of them.
  pub add_range-misses :
      0 < size
      → lo % 8 ≡ 0
      → InHeap
      → memory ≡ true
      → Each (λ p. p.lo ≤ p.hi) ranges
      → Each (λ p. Inside p (payload lo size)) ranges
      → add_range heap_lo heap_hi memory ranges lo size ≡ added (payload lo size ∷ ranges)
  unfolding add_range
  add_range-misses positive aligned within room valid inside =
      let z : (size == 0) ≡ false = ground arith in
      let a : ((lo % 8) == 0) ≡ true = ground arith in
      let o : in_heap_test ≡ false = ground (arith, within.0, within.1) in
      let v = Inside-overlaps lo (lo + size - 1) (not_reversed z) ranges valid inside in
      rw (z, a, o, v, room, add_range)

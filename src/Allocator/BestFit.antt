-- ===== src/Allocator/BestFit.antt =====
-- The search of `mm_malloc`: a block of the free list that fits, and the best one.
use c_course_projects.Common.{
  ℕ, zero, suc, ◌-◌, ◌%◌, ◌≤◌, ◌<◌, ◌≡◌, ◌≢◌, ◌==◌, true, false, ◌⊎◌, inl, inr, Option, none, some,
  List, [], ◌∷◌, ◌++◌, refl, ap, arith, All, All-imp, All-both, leb, length, if◌then◌else◌, ltb,
  Bool-cases,
}
use c_course_projects.Allocator.{Heap, sub_word}
use c_course_projects.Allocator.Access.{IsFree, next_free-ok, next_at}
use c_course_projects.Allocator.Block.{block_size, size_of}
use c_course_projects.Allocator.Operations.{smallest, Search, no_best, consider, find_best}
use c_course_projects.Allocator.Ring.{Seg}

abbrev pub int_max : ℕ
int_max = 2147483648

-- As it is called, `smallest` never halves.
pub smallest_self : (csize nsize d : ℕ) → d ≤ csize → smallest csize nsize d ≡ d
unfolding smallest
smallest_self csize nsize zero h = refl
smallest_self csize nsize (suc d) h = ground arith

pub consider_fits :
    (nsize current csize : ℕ) (s : Search)
    → nsize ≤ csize
    → csize < int_max
    → consider nsize current csize s ≡ (
        if ltb (csize - nsize) s.min
        then record { min = csize - nsize; best = some current }
        else s)
unfolding consider
consider_fits nsize current csize s h k =
    let e : sub_word csize nsize % 4294967296 ≡ csize - nsize = omega arith in
    let small : ltb (csize - nsize) int_max ≡ true = ground arith in
    rw (e, smallest_self csize nsize (csize - nsize) (omega arith), small)

pub consider_small :
    (nsize current csize : ℕ) (s : Search)
    → csize < nsize
    → nsize ≤ int_max
    → consider nsize current csize s ≡ s
unfolding consider
consider_small nsize current csize s h k =
    let big : ltb (sub_word csize nsize % 4294967296) int_max ≡ false = ground arith in rw big

-- The loop over the sizes of the blocks.
abbrev pub scan : (ℕ → ℕ) → ℕ → List ℕ → Search → Search
scan m nsize [] s = s
scan m nsize (b ∷ bs) s = scan m nsize bs (consider nsize b (size_of (m b)) s)

size-read : (h : Heap) (b : ℕ) → IsFree h b → block_size b h ≡ some (size_of (h.memory b), h)
unfolding block_size
size-read h b f = ground arith

-- The loop runs through the circular list and comes to the end, for as much fuel as there are blocks.
pub find_best-scan :
    (fuel nsize y : ℕ) (ys : List ℕ) (s : Search) (h : Heap)
    → length (y ∷ ys) ≤ fuel
    → Seg h.memory y ys h.flist_first
    → All (IsFree h) (y ∷ ys)
    → All (λ x. x ≢ h.flist_first) ys
    → find_best fuel nsize y s h ≡ some ((scan h.memory nsize (y ∷ ys) s).best, h)
unfolding find_best
find_best-scan zero nsize y ys s h le seg free ne = absurd (omega arith)
find_best-scan (suc fuel) nsize y [] s h le seg free ne =
    let last : (h.memory (next_at y) == h.flist_first) ≡ true = ground (arith, seg.0) in
    rw (size-read h y free.0, next_free-ok free.0, last)
find_best-scan (suc fuel) nsize y (x ∷ ys) s h le seg free ne =
    let more : (x == h.flist_first) ≡ false = ground arith in
    rw (size-read h y free.0, next_free-ok free.0, seg.0.0, more)
      (find_best-scan fuel nsize x ys (consider nsize y (size_of (h.memory y)) s) h (omega arith)
        seg.1 free.1 ne.1)

-- What is found: nothing if every block is too small, and else a block that fits, and none that fits
-- is smaller.
abbrev pub Chosen : (ℕ → ℕ) → ℕ → List ℕ → Option ℕ → Type 0
Chosen m nsize fl none = All (λ x. size_of (m x) < nsize) fl
Chosen m nsize fl (some b) =
    (us : List ℕ) × (zs : List ℕ) × (fl ≡ us ++ b ∷ zs)
    × (nsize ≤ size_of (m b))
    × All (λ x. nsize ≤ size_of (m x) → size_of (m b) ≤ size_of (m x)) fl

-- The search keeps what it has, and nothing is better, or it finds something better.
Kept : (ℕ → ℕ) → ℕ → List ℕ → Search → Search → Type 0
Kept m nsize bs s r = (r ≡ s) × All (λ x. nsize ≤ size_of (m x) → s.min ≤ size_of (m x) - nsize) bs

Better : (ℕ → ℕ) → ℕ → List ℕ → Search → Search → Type 0
Better m nsize bs s r =
    (b : ℕ) × (r ≡ record { min = size_of (m b) - nsize; best = some b })
    × (size_of (m b) - nsize < s.min)
    × Chosen m nsize bs (some b)

module _ (m : ℕ → ℕ) (nsize : ℕ) where
  -- A block that is not better.
  pass :
      (y : ℕ) (bs : List ℕ) (s r : Search)
      → (nsize ≤ size_of (m y) → s.min ≤ size_of (m y) - nsize)
      → Kept m nsize bs s r ⊎ Better m nsize bs s r
      → Kept m nsize (y ∷ bs) s r ⊎ Better m nsize (y ∷ bs) s r
  unfolding Kept Better
  pass y bs s r f (inl (e, all)) = inl (e, (f, all))
  pass y bs s r f (inr (b, e, lt, (us, zs, cut, fit, all))) =
      inr (b, e, lt, (y ∷ us, zs, ap (λ t. y ∷ t) cut, fit, (λ g. let k = f g in omega arith, all)))

  -- A block that is better than all before.
  improve :
      (y : ℕ) (bs : List ℕ) (s r : Search)
      → nsize ≤ size_of (m y)
      → size_of (m y) - nsize < s.min
      → (Kept m nsize bs (record { min = size_of (m y) - nsize; best = some y }) r
          ⊎ Better m nsize bs (record { min = size_of (m y) - nsize; best = some y }) r)
      → Kept m nsize (y ∷ bs) s r ⊎ Better m nsize (y ∷ bs) s r
  unfolding Kept Better
  improve y bs s r fit lt (inl (e, all)) = inr (
    y,
    e,
    lt,
    ([], bs, refl, fit, (λ g. omega arith, All-imp (λ x k g. let l = k g in omega arith) bs all)),
  )
  improve y bs s r fit lt (inr (b, e, lt', (us, zs, cut, fit', all))) =
      inr (b, e, omega arith, (y ∷ us, zs, ap (λ t. y ∷ t) cut, fit', (λ g. omega arith, all)))

module _ (m : ℕ → ℕ) (nsize : ℕ) (small : nsize ≤ int_max) where
  none_fits :
      (x : ℕ)
      → size_of (m x) < int_max
      → (nsize ≤ size_of (m x) → 4294967295 ≤ size_of (m x) - nsize)
      → size_of (m x) < nsize
  none_fits x lt f = elim (Bool-cases (leb nsize (size_of (m x)))) [
    | inl enough ↦
        let fit : nsize ≤ size_of (m x) = ground arith in let k = f fit in absurd (omega arith)
    | inr out ↦ ground arith
  ]

  scan-cases :
      (bs : List ℕ) (s : Search)
      → All (λ x. size_of (m x) < int_max) bs
      → Kept m nsize bs s (scan m nsize bs s) ⊎ Better m nsize bs s (scan m nsize bs s)
  unfolding Kept Better
  scan-cases [] s sizes = inl (refl, tt)
  scan-cases (y ∷ bs) s sizes = elim (Bool-cases (leb nsize (size_of (m y)))) [
    | inr too_small ↦
        let out : size_of (m y) < nsize = ground arith in
        rw (consider_small nsize y (size_of (m y)) s out small)
          (pass m nsize y bs s _ (λ f. absurd (omega arith)) (scan-cases bs s sizes.1))
    | inl enough ↦
        let fit : nsize ≤ size_of (m y) = ground arith in
        let s1 : Search = record { min = size_of (m y) - nsize; best = some y } in
        elim (Bool-cases (ltb (size_of (m y) - nsize) s.min)) [
          | inl lt ↦
              rw (consider_fits nsize y (size_of (m y)) s fit sizes.0, lt)
                (improve m nsize y bs s _ fit (ground arith) (scan-cases bs s1 sizes.1))
          | inr no_lt ↦
              rw (consider_fits nsize y (size_of (m y)) s fit sizes.0, no_lt)
                (pass m nsize y bs s _ (λ f. ground arith) (scan-cases bs s sizes.1))
        ]
  ]

  -- What `mm_malloc` finds from its start.
  pub scan-Chosen :
      (bs : List ℕ)
      → All (λ x. size_of (m x) < int_max) bs
      → Chosen m nsize bs (scan m nsize bs no_best).best
  unfolding Kept Better
  scan-Chosen bs sizes = elim (scan-cases bs no_best sizes) [
    | inl (e, all) ↦ rw e (All-imp (λ x p. none_fits x p.0 p.1) bs (All-both _ _ bs sizes all))
    | inr (b, e, lt, c) ↦ rw e c
  ]

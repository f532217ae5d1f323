-- ===== src/Allocator/Grow.antt =====
-- `extend_heap` where there is room: the new block stands where the epilogue stood, and a new epilogue
-- stands behind it.
use c_course_projects.Common.{
  ℕ, ◌+◌, ◌-◌, ◌%◌, ◌≤◌, ◌≡◌, ◌≢◌, inl, inr, false, some, List, [], ◌∷◌, ◌++◌, refl, ◌∙◌, arith,
  All, All-imp, All-both,
}
use c_course_projects.Allocator.{Heap}
use c_course_projects.Allocator.Access.{next_at, prev_at}
use c_course_projects.Allocator.Block.{payload}
use c_course_projects.Allocator.Operations.{extend_heap}
use c_course_projects.Allocator.Ring.{KeepsLinks}
use c_course_projects.Allocator.Tiles.{Tile, tile, IsTile, Clear, ClearOf, Tiles-split}
use c_course_projects.Allocator.Tags.{Fits, size-ok, set_size_and_allocated-TagsSet}
use c_course_projects.Allocator.State.{State}
use c_course_projects.Allocator.Heaps.{Placed, place}
use c_course_projects.Allocator.Release.{not_listed}
use c_course_projects.Allocator.Coalesce.{next-ok}
use c_course_projects.Allocator.Rebuild.{rebuild, with_break}
use c_course_projects.Allocator.Split.{cuts, split-whole}
use c_course_projects.Allocator.Extend.{
  epilogue_tile, IsAllocator, listed_below, moved_epilogue, extend_heap-run, sbrk-grows,
}

-- The heap after it has grown.
abbrev pub grown : Heap → (ℕ → ℕ) → ℕ → Heap
grown h m nsize = record h {
  memory = m;
  mem_brk = h.mem_brk + nsize;
  epilogue = h.epilogue + nsize;
}

module _ (h : Heap) (ts : List Tile) (fl : List ℕ) (nsize : ℕ) (is : IsAllocator h ts fl)
    (big : 32 ≤ nsize) (aligned : nsize % 8 ≡ 0) (small : nsize ≤ 2147483647)
    (room : h.mem_brk + nsize ≤ h.mem_max_addr) where
  at : Placed h h.epilogue epilogue_tile fl
  at = place h ts epilogue_tile [] fl h.epilogue is.heap.state is.epilogue

  ends : h.mem_brk ≡ h.epilogue + 32
  ends =
      let t =
        (Tiles-split h.memory h.prologue ts (epilogue_tile ∷ []) h.mem_brk
          is.heap.state.tiles).1.1 in
      omega (arith, is.epilogue)

  before : All (λ x. x + 32 ≤ h.epilogue) fl
  before =
      All-imp (λ x p. go x p.0 p.1.0 p.1.1) fl
        (All-both _ _ fl at.clear (
          All-both _ _ fl
            (not_listed h h.epilogue epilogue_tile fl at.is_tile refl is.heap.state.list.free)
            (listed_below h (ts ++ epilogue_tile ∷ []) fl is.heap)))
    where
      go :
          (x : ℕ)
          → Clear h.epilogue 32 x
          → x ≢ h.epilogue
          → x + 32 ≤ h.mem_brk
          → x + 32 ≤ h.epilogue
      go x c n b = ground (arith, ends)

  Fits-new : Fits h h.epilogue nsize
  Fits-new =
      let low = at.fits.low in
      record { big = big; aligned = aligned; low = low; high = omega (arith, ends) }

  Fits-last : Fits h (h.epilogue + nsize) 32
  Fits-last =
      let low = at.fits.low in
      record { big = omega arith; aligned = refl; low = omega arith; high = omega (arith, ends) }

  module _ (m1 m2 : ℕ → ℕ) (front1 : m1 h.epilogue ≡ nsize + 1)
      (back1 : m1 (h.epilogue + nsize - 8) ≡ nsize + 1)
      (same1 : (c : ℕ) → c ≢ h.epilogue → c ≢ h.epilogue + nsize - 8 → m1 c ≡ h.memory c)
      (front2 : m2 (h.epilogue + nsize) ≡ 33) (back2 : m2 (h.epilogue + nsize + 32 - 8) ≡ 33)
      (same2 : (c : ℕ)
        → c ≢ h.epilogue + nsize
        → c ≢ h.epilogue + nsize + 32 - 8
        → m2 c ≡ m1 c) where
    outside : (c : ℕ) → c + 8 ≤ h.epilogue → m2 c ≡ h.memory c
    outside c p =
        same2 c (λ e. absurd (omega arith)) (λ e. absurd (omega arith))
        ∙ same1 c (λ e. absurd (omega arith)) (λ e. absurd (omega arith))

    new_tile : IsTile m2 h.epilogue (tile nsize 1)
    new_tile = record {
      big = big;
      aligned = aligned;
      bit = omega arith;
      front = same2 h.epilogue (λ e. absurd (omega arith)) (λ e. absurd (omega arith)) ∙ front1;
      back =
          same2 (h.epilogue + nsize - 8) (λ e. absurd (omega arith)) (λ e. absurd (omega arith))
          ∙ back1;
    }

    last-IsTile : IsTile m2 (h.epilogue + nsize) epilogue_tile
    last-IsTile = record {
      big = omega arith;
      aligned = refl;
      bit = omega arith;
      front = front2;
      back = back2;
    }

    grown-State : State (grown h m2 nsize) (ts ++ tile nsize 1 ∷ epilogue_tile ∷ []) fl
    grown-State =
        moved_epilogue (with_break h m2 (h.mem_brk + nsize))
          (ts ++ tile nsize 1 ∷ epilogue_tile ∷ []) fl (h.epilogue + nsize)
          (rebuild h ts (epilogue_tile ∷ []) (tile nsize 1 ∷ epilogue_tile ∷ []) fl h.epilogue
            (h.mem_brk + nsize) m2 is.heap.state is.epilogue outside
            (new_tile, (last-IsTile, omega (arith, ends))) room (All-imp kept fl before)
            (All-imp clear fl before))
      where
        kept : (x : ℕ) → x + 32 ≤ h.epilogue → (m2 x ≡ h.memory x) × KeepsLinks h.memory m2 x
        kept x p = (
          outside x (omega arith),
          (outside (next_at x) (omega arith), outside (prev_at x) (omega arith)),
        )

        clear :
            (x : ℕ) → x + 32 ≤ h.epilogue → ClearOf h.epilogue (tile nsize 1 ∷ epilogue_tile ∷ []) x
        clear x p = (inr (inl p), (inr (inl (omega arith)), tt))

-- The run succeeds, and the heap has the new block.
pub extend_heap-grows :
    (h : Heap) (ts : List Tile) (fl : List ℕ) (nsize : ℕ)
    → IsAllocator h ts fl
    → 32 ≤ nsize
    → nsize % 8 ≡ 0
    → nsize ≤ 2147483647
    → h.mem_brk + nsize ≤ h.mem_max_addr
    → (m : ℕ → ℕ) × (extend_heap nsize h ≡ some (some (payload h.epilogue 0), grown h m nsize))
      × State (grown h m nsize) (ts ++ tile nsize 1 ∷ epilogue_tile ∷ []) fl
extend_heap-grows h ts fl nsize is big aligned small room =
    let e = h.epilogue in
    let h0 = record h { mem_brk = h.mem_brk + nsize } in
    let f = Fits-new h ts fl nsize is big aligned small room in
    let g = Fits-last h ts fl nsize is big aligned small room in
    let f0 : Fits h0 e nsize = record {
      big = f.big;
      aligned = f.aligned;
      low = f.low;
      high = f.high;
    } in
    let (m1, ran1, front1, back1, same1) =
      set_size_and_allocated-TagsSet h0 e nsize 1 f0 (omega arith) in
    let h1 = record h0 { memory = m1 } in
    let f1 : Fits h1 e nsize = record {
      big = f.big;
      aligned = f.aligned;
      low = f.low;
      high = f.high;
    } in
    let g1 : Fits h1 (e + nsize) 32 = record {
      big = g.big;
      aligned = g.aligned;
      low = g.low;
      high = g.high;
    } in
    let tile1 : IsTile m1 e (tile nsize 1) = record {
      big = big;
      aligned = aligned;
      bit = omega arith;
      front = front1;
      back = back1;
    } in
    let (m2, ran2, front2, back2, same2) =
      set_size_and_allocated-TagsSet h1 (e + nsize) 32 1 g1 (omega arith) in
    let h2 = record h0 { memory = m2 } in
    let f2 : Fits h2 e nsize = record {
      big = f.big;
      aligned = f.aligned;
      low = f.low;
      high = f.high;
    } in
    let tile2 =
      new_tile h ts fl nsize is big aligned small room m1 m2 front1 back1 same1 front2 back2
        same2 in
    let uncut : cuts nsize nsize ≡ false = ground arith in
    (
      m2,
      extend_heap-run h h0 h1 h2 e (e + nsize) nsize h.mem_brk (sbrk-grows h nsize small room) refl
          ran1 (next-ok h1 e (tile nsize 1) f1 tile1 is.heap.state.word) ran2
          (split-whole h2 e nsize nsize (size-ok h2 e nsize 1 f2 (omega arith) tile2.front)
            (omega arith) (omega arith) (omega arith) uncut),
      grown-State h ts fl nsize is big aligned small room m1 m2 front1 back1 same1 front2 back2
          same2,
    )

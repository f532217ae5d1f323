-- ===== src/Allocator/Keep.antt =====
-- `mm_free` leaves a heap that the allocator keeps.
use c_course_projects.Common.{
  ℕ, ◌+◌, ◌≡◌, ◌==◌, Bool, true, false, Option, some, List, [], ◌∷◌, ◌++◌, refl, ap, sym, ◌∙◌,
  subst, arith, append_assoc, append-nil,
}
use c_course_projects.Allocator.{Heap}
use c_course_projects.Allocator.Operations.{mm_free}
use c_course_projects.Allocator.Ring.{with_memory}
use c_course_projects.Allocator.Tiles.{Tile, tile, after}
use c_course_projects.Allocator.Heaps.{IsHeap, after-append}
use c_course_projects.Allocator.Coalesce.{joined}
use c_course_projects.Allocator.Join.{Leaves}
use c_course_projects.Allocator.Free.{mm_free-joins}
use c_course_projects.Allocator.Extend.{epilogue_tile, IsAllocator}

-- A freed block between `p` and the epilogue.
abbrev pub joined_last : Bool → Tile → ℕ → List Tile
joined_last true p size = p ∷ tile size 0 ∷ []
joined_last false p size = tile (size + p.size) 0 ∷ []

-- What stands for a freed block behind `p` and before `ys` and the epilogue.
abbrev pub freed : Tile → ℕ → List Tile → List Tile
freed p size [] = joined_last (p.flag == 1) p size
freed p size (n ∷ vs) = joined (p.flag == 1) (n.flag == 1) p size n ++ vs

after-joined :
    (b c : Bool) (q : ℕ) (p n : Tile) (size : ℕ)
    → after q (joined b c p size n) ≡ q + p.size + size + n.size
unfolding joined
after-joined true true q p n size = refl
after-joined true false q p n size = omega arith
after-joined false true q p n size = omega arith
after-joined false false q p n size = omega arith

after-joined_last :
    (b : Bool) (q : ℕ) (p : Tile) (size : ℕ) → after q (joined_last b p size) ≡ q + p.size + size
after-joined_last true q p size = refl
after-joined_last false q p size = omega arith

joined-epilogue :
    (b : Bool) (p : Tile) (size : ℕ)
    → joined b true p size epilogue_tile ≡ joined_last b p size ++ epilogue_tile ∷ []
unfolding joined
joined-epilogue true p size = refl
joined-epilogue false p size = refl

after-freed :
    (q : ℕ) (p : Tile) (size : ℕ) (ys : List Tile)
    → after q (freed p size ys) ≡ after (q + p.size + size) ys
after-freed q p size [] = after-joined_last (p.flag == 1) q p size
after-freed q p size (n ∷ vs) =
    after-append q (joined (p.flag == 1) (n.flag == 1) p size n) vs
    ∙ ap (λ b. after b vs) (after-joined (p.flag == 1) (n.flag == 1) q p n size)

freed-Leaves :
    (fuel : ℕ) (h : Heap) (us : List Tile) (p t : Tile) (ys : List Tile) (fl : List ℕ)
    → IsHeap h (us ++ p ∷ t ∷ ys ++ epilogue_tile ∷ []) fl
    → t.flag ≡ 1
    → Leaves h
        (us ++ (freed p t.size ys ++ epilogue_tile ∷ []))
        tt
        (mm_free fuel (after h.prologue us + p.size + 8) h)
freed-Leaves fuel h us p t [] fl is marked =
    subst (λ l. Leaves h (us ++ l) tt (mm_free fuel (after h.prologue us + p.size + 8) h))
      (append-nil _ ∙ joined-epilogue (p.flag == 1) p t.size)
      (mm_free-joins fuel h us p t epilogue_tile [] fl _
        (subst (λ l. IsHeap h l fl) (append_assoc us (p ∷ t ∷ []) (epilogue_tile ∷ [])) is) marked
        refl)
freed-Leaves fuel h us p t (n ∷ vs) fl is marked =
    subst (λ l. Leaves h (us ++ l) tt (mm_free fuel (after h.prologue us + p.size + 8) h))
      (sym (append_assoc (joined (p.flag == 1) (n.flag == 1) p t.size n) vs (epilogue_tile ∷ [])))
      (mm_free-joins fuel h us p t n (vs ++ epilogue_tile ∷ []) fl _
        (subst (λ l. IsHeap h l fl) (append_assoc us (p ∷ t ∷ n ∷ vs) (epilogue_tile ∷ [])) is)
        marked refl)

-- A run that leaves a heap that the allocator keeps, with the blocks, in the same area.
abbrev pub LeavesKept : Heap → List Tile → Option (Unit {0} × Heap) → Type 0
LeavesKept h ts r =
    (m : ℕ → ℕ) × (f : ℕ) × (fl : List ℕ) × (r ≡ some (tt, with_memory h m f))
    × IsAllocator (with_memory h m f) ts fl

-- Freeing any allocated block but the first one, the prologue, with any fuel: the run succeeds, and in
-- place of the block, of the free block before it and of the free block behind it, where there are
-- such, stands one free block of their sizes. The other blocks stay, and the free list holds exactly
-- the free blocks.
pub mm_free-Frees :
    (fuel : ℕ) (h : Heap) (us : List Tile) (p t : Tile) (ys : List Tile) (fl : List ℕ)
    → IsAllocator h (us ++ p ∷ t ∷ ys) fl
    → t.flag ≡ 1
    → LeavesKept h (us ++ freed p t.size ys) (mm_free fuel (after h.prologue us + p.size + 8) h)
mm_free-Frees fuel h us p t ys fl is marked =
    let (m, f, fl', ran, left) = freed-Leaves fuel h us p t ys fl is.heap marked in
    (
      m,
      f,
      fl',
      ran,
      record {
        heap =
            subst (λ l. IsHeap (with_memory h m f) l fl')
              (sym (append_assoc us (freed p t.size ys) (epilogue_tile ∷ []))) left;
        epilogue =
            after-append h.prologue us (freed p t.size ys)
            ∙ after-freed (after h.prologue us) p t.size ys
            ∙ sym (after-append h.prologue us (p ∷ t ∷ ys))
            ∙ is.epilogue;
        area = is.area;
      },
    )

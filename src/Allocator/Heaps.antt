-- ===== src/Allocator/Heaps.antt =====
-- The invariant of the allocator: its free list holds exactly the free blocks, each once.
use c_course_projects.Common.{
  count, ℕ, ◌+◌, ◌≤◌, ◌≡◌, List, [], ◌∷◌, ◌++◌, refl, arith, All, subst, All-imp,
}
use c_course_projects.Allocator.{Heap}
use c_course_projects.Allocator.Tiles.{
  Tile, IsTile, after, free_at, Clear, Tiles-split, Tiles-le, ClearOf-split,
}
use c_course_projects.Allocator.Tags.{Fits}
use c_course_projects.Allocator.State.{State}

pub count-free_at-append :
    (x a : ℕ) (xs ys : List Tile)
    → count x (free_at a (xs ++ ys)) ≡ count x (free_at a xs) + count x (free_at (after a xs) ys)
count-free_at-append x a [] ys = omega arith
count-free_at-append x a (t ∷ xs) ys = ground (arith, count-free_at-append x (a + t.size) xs ys)

pub record IsHeap (h : Heap) (ts : List Tile) (fl : List ℕ) : Type 0 where
  pub state : State h ts fl
  pub frees : (x : ℕ) → count x fl ≡ count x (free_at h.prologue ts)

-- What is known of a block in the heap.
pub record Placed (h : Heap) (a : ℕ) (t : Tile) (fl : List ℕ) : Type 0 where
  pub is_tile : IsTile h.memory a t
  pub fits : Fits h a t.size
  pub inside : h.prologue ≤ a
  pub below : a + t.size ≤ h.mem_brk
  pub clear : All (Clear a t.size) fl

pub place :
    (h : Heap) (xs : List Tile) (t : Tile) (ys : List Tile) (fl : List ℕ) (a : ℕ)
    → State h (xs ++ t ∷ ys) fl
    → after h.prologue xs ≡ a
    → Placed h a t fl
place h xs t ys fl a s e =
    let (front, rest) = Tiles-split h.memory h.prologue xs (t ∷ ys) h.mem_brk s.tiles in
    let is = subst (λ b. IsTile h.memory b t) e rest.0 in
    let le : h.prologue ≤ a = omega (arith, Tiles-le h.memory h.prologue xs _ front) in
    let le' : a + t.size ≤ h.mem_brk =
      omega (arith, Tiles-le h.memory (after h.prologue xs + t.size) ys h.mem_brk rest.1) in
    let low = s.low in
    let high = s.high in
    record {
      is_tile = is;
      fits = record { big = is.big; aligned = is.aligned; low = omega arith; high = omega arith };
      inside = le;
      below = le';
      clear =
          All-imp
            (λ x c. subst (λ b. Clear b t.size x) e (ClearOf-split h.prologue xs (t ∷ ys) x c).1.0)
            fl s.clear;
    }

pub after-append : (a : ℕ) (xs ys : List Tile) → after a (xs ++ ys) ≡ after (after a xs) ys
after-append a [] ys = refl
after-append a (t ∷ xs) ys = after-append (a + t.size) xs ys

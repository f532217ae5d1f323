-- ===== src/Allocator/Lend.antt =====
-- `mm_malloc` and then `mm_free` of what it returned.
use c_course_projects.Common.{
  ℕ, ◌+◌, ◌-◌, ◌≤◌, ◌<◌, ◌≡◌, ◌⊎◌, inl, inr, Option, none, some, List, [], ◌∷◌, ◌++◌, refl, ap, sym,
  ◌∙◌, subst, arith, Bool-cases, append_assoc, length,
}
use c_course_projects.Allocator.{Heap}
use c_course_projects.Allocator.Block.{payload}
use c_course_projects.Allocator.Operations.{padded, mm_malloc, mm_free}
use c_course_projects.Allocator.Ring.{with_memory}
use c_course_projects.Allocator.Tiles.{Tile, tile, after}
use c_course_projects.Allocator.Heaps.{after-append}
use c_course_projects.Allocator.Split.{cuts, split_tiles}
use c_course_projects.Allocator.Extend.{IsAllocator}
use c_course_projects.Allocator.Found.{Found}
use c_course_projects.Allocator.Grow.{grown}
use c_course_projects.Allocator.Keep.{freed, LeavesKept, mm_free-Frees}
use c_course_projects.Allocator.Malloc.{padded_bounds, mm_malloc-Served}

-- The blocks are `us`, `b`, an allocated block `t` with room for the size, whose payload is at the
-- pointer, and `ys`; and freeing the pointer succeeds.
pub record Lent (fuel size ptr : ℕ) (h : Heap) : Type 0 where
  pub us : List Tile
  pub b : Tile
  pub t : Tile
  pub ys : List Tile
  pub fl : List ℕ
  pub allocated : t.flag ≡ 1
  pub room : size + 16 ≤ t.size
  pub place : after h.prologue us + b.size + 8 ≡ ptr
  pub allocator : IsAllocator h (us ++ b ∷ t ∷ ys) fl
  pub leaves : LeavesKept h (us ++ freed b t.size ys) (mm_free fuel ptr h)

-- Some pointer is returned that is lent.
abbrev pub Lends : ℕ → ℕ → Option (Option ℕ × Heap) → Type 0
Lends fuel size r = (ptr : ℕ) × (h : Heap) × (r ≡ some (some ptr, h)) × Lent fuel size ptr h

-- The last block of a list.
snoc : (p : Tile) (xs : List Tile) → (us : List Tile) × (b : Tile) × (p ∷ xs ≡ us ++ b ∷ [])
snoc p [] = ([], p, refl)
snoc p (x ∷ xs) = let (us, b, e) = snoc x xs in (p ∷ us, b, ap (λ l. p ∷ l) e)

lend :
    (fuel size a : ℕ) (h : Heap) (x : Tile) (xs : List Tile) (t : Tile) (ys : List Tile)
    (fl : List ℕ)
    → IsAllocator h ((x ∷ xs) ++ t ∷ ys) fl
    → after h.prologue (x ∷ xs) ≡ a
    → t.flag ≡ 1
    → size + 16 ≤ t.size
    → Lent fuel size (payload a 0) h
lend fuel size a h x xs t ys fl is start marked room =
    let (us, b, e) = snoc x xs in
    let is' : IsAllocator h (us ++ b ∷ t ∷ ys) fl =
      subst (λ l. IsAllocator h l fl) (ap (λ l. l ++ t ∷ ys) e ∙ append_assoc us (b ∷ []) (t ∷ ys))
        is in
    let behind : after h.prologue us + b.size ≡ a =
      sym (after-append h.prologue us (b ∷ [])) ∙ ap (after h.prologue) (sym e) ∙ start in
    let there : after h.prologue us + b.size + 8 ≡ payload a 0 = omega (arith, behind) in
    record {
      us = us;
      b = b;
      t = t;
      ys = ys;
      fl = fl;
      allocated = marked;
      room = room;
      place = there;
      allocator = is';
      leaves =
          subst (λ q. LeavesKept h (us ++ freed b t.size ys) (mm_free fuel q h)) there
            (mm_free-Frees fuel h us b t ys fl is' marked);
    }

-- The block that is left at the place of the one that was found.
lend_split :
    (fuel size a nsize : ℕ) (h : Heap) (x : Tile) (xs : List Tile) (t : Tile) (ys : List Tile)
    (fl : List ℕ)
    → IsAllocator h ((x ∷ xs) ++ (split_tiles t.size nsize ++ ys)) fl
    → after h.prologue (x ∷ xs) ≡ a
    → nsize ≤ t.size
    → size + 16 ≤ nsize
    → Lent fuel size (payload a 0) h
lend_split fuel size a nsize h x xs t ys fl is start fits room =
    elim (Bool-cases (cuts t.size nsize)) [
      | inl c ↦
          let same : split_tiles t.size nsize ≡ tile nsize 1 ∷ tile (t.size - nsize) 0 ∷ [] =
            rw c in
          lend fuel size a h x xs (tile nsize 1) (tile (t.size - nsize) 0 ∷ ys) fl
            (subst (λ l. IsAllocator h ((x ∷ xs) ++ (l ++ ys)) fl) same is) start refl room
      | inr c ↦
          let same : split_tiles t.size nsize ≡ tile t.size 1 ∷ [] = rw c in
          lend fuel size a h x xs (tile t.size 1) ys fl
            (subst (λ l. IsAllocator h ((x ∷ xs) ++ (l ++ ys)) fl) same is) start refl (omega arith)
    ]

abbrev first_flag : List Tile → ℕ
first_flag [] = 0
first_flag (t ∷ ts) = t.flag

Found-Lends :
    (fuel size nsize : ℕ) (h : Heap) (p : Tile) (ts : List Tile) (fl : List ℕ)
    (r : Option (Option ℕ × Heap))
    → p.flag ≡ 1
    → size + 16 ≤ nsize
    → Found h (p ∷ ts) fl nsize r
    → Lends fuel size r
Found-Lends fuel size nsize h p ts fl r marked room f = go f.xs f.blocks f.place f.allocator
  where
    go :
        (xs : List Tile)
        → p ∷ ts ≡ xs ++ f.t ∷ f.ys
        → after h.prologue xs ≡ f.a
        → IsAllocator (with_memory h f.m f.f) (xs ++ (split_tiles f.t.size nsize ++ f.ys)) f.fl'
        → Lends fuel size r
    go [] e start is =
        let free = f.free in let same : p.flag ≡ f.t.flag = ap first_flag e in absurd (omega arith)
    go (x ∷ xs) e start is = (
      payload f.a 0,
      with_memory h f.m f.f,
      f.ran,
      lend_split fuel size f.a nsize (with_memory h f.m f.f) x xs f.t f.ys f.fl' is start f.enough
          room,
    )

-- A request of 1 to 2 ^ 30 bytes in a heap that the allocator keeps, whose first block is allocated,
-- with fuel for the free list, ends. Either NULL is returned and nothing changes, or a pointer to an
-- allocated block that has room for the request and both tags; then freeing that pointer, with any
-- fuel, succeeds and leaves a heap that the allocator keeps, where the block is free, joined with the
-- free blocks beside it.
pub mm_malloc-Lends :
    (fuel fuel' size : ℕ) (h : Heap) (p : Tile) (ts : List Tile) (fl : List ℕ)
    → IsAllocator h (p ∷ ts) fl
    → p.flag ≡ 1
    → 0 < size
    → size ≤ 1073741824
    → length fl ≤ fuel
    → (mm_malloc fuel size h ≡ some (none, h)) ⊎ Lends fuel' size (mm_malloc fuel size h)
mm_malloc-Lends fuel fuel' size h p ts fl is marked pos small enough =
    let room = (padded_bounds size (omega arith)).2 in
    elim (mm_malloc-Served fuel size h (p ∷ ts) fl is pos small enough) [
      | inl f ↦ inr (Found-Lends fuel' size (padded size) h p ts fl _ marked room f)
      | inr (inl g) ↦ inr (
        payload h.epilogue 0,
        grown h g.m (padded size),
        g.ran,
        lend fuel' size h.epilogue (grown h g.m (padded size)) p ts (tile (padded size) 1) [] fl
            g.allocator is.epilogue refl room,
      )
      | inr (inr n) ↦ inl n.ran
    ]

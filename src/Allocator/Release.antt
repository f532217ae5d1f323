-- ===== src/Allocator/Release.antt =====
-- The first half of `mm_free`: an allocated block is marked free and put at the front of the list.
use c_course_projects.Common.{
  ℕ, ◌+◌, ◌%◌, ◌≤◌, ◌≡◌, ◌≢◌, inl, some, List, ◌∷◌, ◌++◌, sym, subst, arith, All, All-imp, All-both,
}
use c_course_projects.Allocator.{Heap}
use c_course_projects.Allocator.Access.{IsFree}
use c_course_projects.Allocator.Block.{block_set_size_and_allocated, insert_free_block}
use c_course_projects.Allocator.Ring.{Apart, with_memory}
use c_course_projects.Allocator.Tiles.{
  Tile, tile, IsTile, Tiles, after, Clear, ClearOf, Tiles-split, ClearOf-above, ClearOf-below,
  ClearOf-append,
}
use c_course_projects.Allocator.State.{State, retag-Retiled, insert_free_block-Relisted}
use c_course_projects.Allocator.Heaps.{place}

-- A tag of an allocated block is odd, so the block is not in the free list.
pub not_listed :
    (h : Heap) (a : ℕ) (t : Tile) (fl : List ℕ)
    → IsTile h.memory a t
    → t.flag ≡ 1
    → All (IsFree h) fl
    → All (λ x. x ≢ a) fl
not_listed h a t fl is marked free = All-imp differs fl free
  where
    differs : (x : ℕ) → IsFree h x → x ≢ a
    differs x f e =
        let even : h.memory a % 2 ≡ 0 = subst (λ b. h.memory b % 2 ≡ 0) e f.free in
        let tag = is.front in let aligned = is.aligned in absurd (omega arith)

pub ClearOf-self :
    (m : ℕ → ℕ) (s : ℕ) (xs : List Tile) (t : Tile) (ys : List Tile) (a : ℕ)
    → Tiles m s xs (after s xs)
    → after s xs ≡ a
    → 32 ≤ t.size
    → ClearOf s (xs ++ t ∷ ys) a
ClearOf-self m s xs t ys a tl e big =
    ClearOf-append s xs (t ∷ ys) a (ClearOf-above m s xs (after s xs) a tl (omega arith))
      (inl (sym e), ClearOf-below (after s xs + t.size) ys a (omega arith))

pub Apart-of_Clear :
    (a size : ℕ) (fl : List ℕ)
    → 32 ≤ size
    → All (Clear a size) fl
    → All (λ x. x ≢ a) fl
    → All (Apart a) fl
Apart-of_Clear a size fl big clear ne = All-imp (λ x p. go x p.0 p.1) fl (All-both _ _ fl clear ne)
  where
    go : (x : ℕ) → Clear a size x → x ≢ a → Apart a x
    go x c n = ground arith

-- The two steps succeed.
pub record Released (h : Heap) (ts : List Tile) (fl : List ℕ) (a size : ℕ) : Type 0 where
  pub first_memory : ℕ → ℕ
  pub memory : ℕ → ℕ
  pub marked :
      block_set_size_and_allocated a size 0 h ≡ some (tt, record h { memory = first_memory })
  pub inserted :
      insert_free_block a (record h { memory = first_memory }) ≡ some (tt, with_memory h memory a)
  pub state : State (with_memory h memory a) ts (a ∷ fl)

-- The block may be one that is cut off: what matters is that the list is clear of it.
pub release-State :
    (h : Heap) (xs olds : List Tile) (ys : List Tile) (fl : List ℕ) (a size : ℕ)
    → State h (xs ++ (olds ++ ys)) fl
    → after h.prologue xs ≡ a
    → after a olds ≡ a + size
    → 32 ≤ size
    → size % 8 ≡ 0
    → All (Clear a size) fl
    → All (λ x. x ≢ a) fl
    → Released h (xs ++ tile size 0 ∷ ys) fl a size
release-State h xs olds ys fl a size s start sum big aligned clear ne =
    let ts = xs ++ tile size 0 ∷ ys in
    let (m, ran, s1) =
      retag-Retiled h xs olds ys fl a size 0 s start sum big aligned (omega arith) clear
        (All-imp (λ x n e. absurd (n e)) fl ne) in
    let h1 = record h { memory = m } in
    let at = place h1 xs (tile size 0) ys fl a s1 start in
    let low = s.low in
    let high = s.high in
    let positive = s.positive in
    let inside = at.inside in
    let below = at.below in
    let front = at.is_tile.front in
    let free : IsFree h1 a = record {
      not_null = omega arith;
      low = omega arith;
      high = omega arith;
      free = omega arith;
    } in
    let tl = (Tiles-split m h.prologue xs (tile size 0 ∷ ys) h.mem_brk s1.tiles).0 in
    let (m', ran', s2) =
      insert_free_block-Relisted h1 ts a fl s1 free (Apart-of_Clear a size fl big clear ne)
        (ClearOf-self m h.prologue xs (tile size 0) ys a tl start big) in
    record { first_memory = m; memory = m'; marked = ran; inserted = ran'; state = s2 }

-- ===== src/Allocator/Take.antt =====
-- `take_block` with a block of the free list, which is at a known place among the blocks.
use c_course_projects.Common.{
  count, ℕ, ◌+◌, ◌%◌, ◌≤◌, ◌≡◌, some, List, [], ◌∷◌, ◌++◌, refl, arith, All-imp, All-append,
  All-append_left, All-append_right,
}
use c_course_projects.Allocator.{Heap}
use c_course_projects.Allocator.Block.{
  payload, block_size, block_set_size_and_allocated, pull_free_block,
}
use c_course_projects.Allocator.Operations.{split, take_block}
use c_course_projects.Allocator.Ring.{with_memory, head_or_null}
use c_course_projects.Allocator.Tiles.{Tile, after, free_at}
use c_course_projects.Allocator.Tags.{size-ok}
use c_course_projects.Allocator.State.{State, retag-Retiled, pull_free_block-Relisted}
use c_course_projects.Allocator.Heaps.{place}
use c_course_projects.Allocator.Unlink.{Apart-of_Scattered}
use c_course_projects.Allocator.Join.{ne_of_Apart}
use c_course_projects.Allocator.Split.{split_tiles, split-Splits}

take_block-run :
    (h h1 h2 h3 : Heap) (nsize a size : ℕ)
    → pull_free_block a h ≡ some (tt, h1)
    → block_size a h1 ≡ some (size, h1)
    → block_set_size_and_allocated a size 1 h1 ≡ some (tt, h2)
    → split a nsize h2 ≡ some (a, h3)
    → take_block nsize (some a) h ≡ some (some (payload a 0), h3)
unfolding take_block
take_block-run h h1 h2 h3 nsize a size e1 e2 e3 e4 = rw (e1, e2, e3, e4)

pub take_block-State :
    (h : Heap) (xs : List Tile) (t : Tile) (ys : List Tile) (us : List ℕ) (a : ℕ) (zs : List ℕ)
    (nsize : ℕ)
    → State h (xs ++ t ∷ ys) (us ++ a ∷ zs)
    → after h.prologue xs ≡ a
    → 32 ≤ nsize
    → nsize % 8 ≡ 0
    → nsize ≤ 2147483647
    → nsize ≤ t.size
    → (m : ℕ → ℕ) × (f : ℕ) × (fl' : List ℕ) × (take_block nsize (some a) h
        ≡ some (some (payload a 0), with_memory h m f))
      × State (with_memory h m f) (xs ++ (split_tiles t.size nsize ++ ys)) fl'
      × ((x : ℕ)
          → count x fl' ≡ count x (us ++ zs) + count x (free_at a (split_tiles t.size nsize)))
take_block-State h xs t ys us a zs nsize s start big aligned small enough =
    let clear =
      All-append _ us zs (All-append_left _ us (a ∷ zs) s.clear)
        (All-append_right _ us (a ∷ zs) s.clear).1 in
    let (m1, ran1, s1) = pull_free_block-Relisted h (xs ++ t ∷ ys) us a zs s clear in
    let fl1 = us ++ zs in
    let h1 = with_memory h m1 (head_or_null fl1) in
    let at = place h1 xs t ys fl1 a s1 start in
    let ne = All-imp (ne_of_Apart a) fl1 (Apart-of_Scattered us a zs s.list.scattered) in
    let (m2, ran2, s2) =
      retag-Retiled h1 xs (t ∷ []) ys fl1 a t.size 1 s1 start refl at.is_tile.big at.is_tile.aligned
        (omega arith) at.clear (All-imp (λ x n e. absurd (n e)) fl1 ne) in
    let h2 = with_memory h m2 (head_or_null fl1) in
    let (m3, f3, fl3, ran3, s3, counts) =
      split-Splits h2 xs ys fl1 a t.size nsize s2 start big aligned enough (omega arith) ne in
    (
      m3,
      f3,
      fl3,
      take_block-run h h1 h2 (with_memory h m3 f3) nsize a t.size ran1
          (size-ok h1 a t.size t.flag at.fits at.is_tile.bit at.is_tile.front) ran2 ran3,
      s3,
      counts,
    )

-- ===== src/Allocator/Tests.antt =====
-- Concrete runs of the allocator.
use c_course_projects.Common.{
  ◌≡◌, refl, ℕ, none, some, Option, List, [], ◌∷◌, ◌++◌, ◌⊎◌, inl, inr, ◌+◌, ◌-◌, ◌%◌, ◌≤◌, ◌==◌,
  arith, if◌then◌else◌,
}
use c_course_projects.Common.Int.{ℤ, pos}
use c_course_projects.Allocator.{Heap, update, M, ◌>>=◌, ◌>>◌, pure}
use c_course_projects.Allocator.Sbrk.{mem_sbrk, to_int}
use c_course_projects.Allocator.Block.{
  block_allocated, block_size, block_set_size, block_set_allocated, block_set_size_and_allocated,
  block_prev_size, block_prev, block_next, block_next_size, assert_free, block_next_free,
  block_set_next_free, block_prev_free, block_set_prev_free, unlink_free, pull_first,
  pull_free_block, insert_only, insert_before, insert_free_block,
}
use c_course_projects.Allocator.Operations.{
  align, padded, sbrk_block, mm_init, in_free_list, coalesce_helper, join_blocks, join_free,
  coalesce, split_off, split, extend_heap, smallest, consider, find_best, take_block, mm_malloc,
  mm_free,
}
use c_course_projects.Allocator.Ring.{IsFreeList, Relinks}
use c_course_projects.Allocator.Insert.{insert_free_block-Relinks}
use c_course_projects.Allocator.Pull.{pull_free_block-Relinks}
use c_course_projects.Allocator.Tiles.{Tile, tile, IsTile}
use c_course_projects.Allocator.Extend.{IsAllocator}
use c_course_projects.Allocator.Malloc.{Served, padded_bounds, mm_malloc-Served}
use c_course_projects.Allocator.Keep.{freed, LeavesKept, mm_free-Frees}
use c_course_projects.Allocator.Init.{mm_init-IsAllocator}
use c_course_projects.Allocator.Check.{mm_check_heap}
use c_course_projects.Allocator.Passes.{lines, mm_check_heap-Passes, mm_check_heap-reads-null}
use c_course_projects.Allocator.Extend.{epilogue_tile}
use c_course_projects.Allocator.Lend.{Lends, mm_malloc-Lends}
use c_course_projects.Allocator.Resize.{mm_realloc}
use c_course_projects.Allocator.Realloc.{mm_realloc-reads-contents}

abbrev empty_heap : Heap
empty_heap = record {
  memory = λ _. 3;
  mem_start_brk = 1024;
  mem_brk = 1024;
  mem_max_addr = 3072;
  flist_first = 0;
  prologue = 0;
  epilogue = 0;
}

abbrev run {ℓ} : {A : Type ℓ} → Option (A × Heap) → Option A
run none = none
run (some (a, h)) = some a

session : M (ℤ × Option ℕ × Option ℕ × Option ℕ)
unfolding mem_sbrk to_int block_allocated block_size block_set_size block_set_allocated
    block_set_size_and_allocated block_prev_size block_prev block_next assert_free block_next_free
    block_set_next_free block_prev_free block_set_prev_free unlink_free pull_first pull_free_block
    insert_only insert_before insert_free_block padded sbrk_block mm_init in_free_list
    coalesce_helper join_blocks join_free coalesce split_off split extend_heap smallest consider
    find_best take_block mm_malloc mm_free align
session = do
  r ← mm_init
  a ← mm_malloc 5 16
  b ← mm_malloc 5 100
  mm_free 5 1064
  c ← mm_malloc 5 8
  pure (r, a, b, c)

run-session : run (session empty_heap) ≡ some (pos 0, some 1064, some 1096, some 1064)
unfolding session
run-session = refl

-- A heap with five blocks from address 1024 to 1208: the prologue, an allocated block at 1056, free
-- blocks at 1096 and 1160 and an allocated block between them; the epilogue is the sixth.
abbrev small_memory : ℕ → ℕ
small_memory a =
    if a == 1024
    then 33
    else if a == 1048
    then 33
    else if a == 1056
    then 41
    else if a == 1064
    then 4611686018427387904
    else if a == 1088
    then 41
    else if a == 1096
    then 32
    else if a == 1104
    then 1160
    else if a == 1112
    then 1160
    else if a == 1120
    then 32
    else if a == 1128
    then 33
    else if a == 1152
    then 33
    else if a == 1160
    then 48
    else if a == 1168
    then 1096
    else if a == 1176
    then 1096
    else if a == 1200
    then 48
    else if a == 1208
    then 33
    else if a == 1232
    then 33
    else 3

abbrev small_heap : Heap
small_heap = record {
  memory = small_memory;
  mem_start_brk = 1024;
  mem_brk = 1240;
  mem_max_addr = 20972544;
  flist_first = 1096;
  prologue = 1024;
  epilogue = 1208;
}

abbrev small_tiles : List Tile
small_tiles = tile 32 1 ∷ tile 40 1 ∷ tile 32 0 ∷ tile 32 1 ∷ tile 48 0 ∷ []

small_list : IsFreeList small_heap (1096 ∷ 1160 ∷ [])
small_list = record {
  first = refl;
  circular = ((refl, refl), (refl, refl));
  free = (
    record { not_null = omega arith; low = omega arith; high = omega arith; free = refl },
    (record { not_null = omega arith; low = omega arith; high = omega arith; free = refl }, tt),
  );
  scattered = ((inl (omega arith), tt), (tt, tt));
}

small_tile :
    (a size flag : ℕ)
    → 32 ≤ size
    → size % 8 ≡ 0
    → flag ≤ 1
    → small_memory a ≡ size + flag
    → small_memory (a + size - 8) ≡ size + flag
    → IsTile small_memory a (tile size flag)
small_tile a size flag big aligned bit front back = record {
  big = big;
  aligned = aligned;
  bit = bit;
  front = front;
  back = back;
}

small_heap-IsAllocator : IsAllocator small_heap small_tiles (1096 ∷ 1160 ∷ [])
small_heap-IsAllocator = record {
  heap = record {
    state = record {
      tiles = (
        small_tile 1024 32 1 (omega arith) refl (omega arith) refl refl,
        (
          small_tile 1056 40 1 (omega arith) refl (omega arith) refl refl,
          (
            small_tile 1096 32 0 (omega arith) refl (omega arith) refl refl,
            (
              small_tile 1128 32 1 (omega arith) refl (omega arith) refl refl,
              (
                small_tile 1160 48 0 (omega arith) refl (omega arith) refl refl,
                (small_tile 1208 32 1 (omega arith) refl (omega arith) refl refl, refl),
              ),
            ),
          ),
        ),
      );
      list = small_list;
      clear = (
        (
          inr (inr (omega arith)),
          (
            inr (inr (omega arith)),
            (
              inl refl,
              (inr (inl (omega arith)), (inr (inl (omega arith)), (inr (inl (omega arith)), tt))),
            ),
          ),
        ),
        (
          (
            inr (inr (omega arith)),
            (
              inr (inr (omega arith)),
              (
                inr (inr (omega arith)),
                (inr (inr (omega arith)), (inl refl, (inr (inl (omega arith)), tt))),
              ),
            ),
          ),
          tt,
        ),
      );
      low = omega arith;
      positive = omega arith;
      high = omega arith;
      word = omega arith;
    };
    frees = λ x. refl;
  };
  epilogue = refl;
  area = omega arith;
}

abbrev fresh_heap : Heap
fresh_heap = record {
  memory = λ _. 3;
  mem_start_brk = 1024;
  mem_brk = 1024;
  mem_max_addr = 20972544;
  flist_first = 0;
  prologue = 0;
  epilogue = 0;
}

mm_malloc-Served_example :
    Served small_heap small_tiles (1096 ∷ 1160 ∷ []) (padded 20) (mm_malloc 2 20 small_heap)
mm_malloc-Served_example =
    mm_malloc-Served 2 20 small_heap small_tiles (1096 ∷ 1160 ∷ []) small_heap-IsAllocator
      (omega arith) (omega arith) (omega arith)

mm_malloc-Lends_example :
    (mm_malloc 2 20 small_heap ≡ some (none, small_heap)) ⊎ Lends 1 20 (mm_malloc 2 20 small_heap)
mm_malloc-Lends_example =
    mm_malloc-Lends 2 1 20 small_heap (tile 32 1)
      (tile 40 1 ∷ tile 32 0 ∷ tile 32 1 ∷ tile 48 0 ∷ []) (1096 ∷ 1160 ∷ []) small_heap-IsAllocator
      refl (omega arith) (omega arith) (omega arith)

mm_free-Frees_example :
    LeavesKept small_heap
      ((tile 32 1 ∷ tile 40 1 ∷ []) ++ freed (tile 32 0) 32 (tile 48 0 ∷ []))
      (mm_free 2 1136 small_heap)
mm_free-Frees_example =
    mm_free-Frees 2 small_heap (tile 32 1 ∷ tile 40 1 ∷ []) (tile 32 0) (tile 32 1) (tile 48 0 ∷ [])
      (1096 ∷ 1160 ∷ []) small_heap-IsAllocator refl

mm_init-IsAllocator_example :
    (h' : Heap) × (mm_init fresh_heap ≡ some (pos 0, h'))
    × IsAllocator h' (tile 32 1 ∷ tile 32 0 ∷ []) (1056 ∷ [])
mm_init-IsAllocator_example =
    mm_init-IsAllocator fresh_heap
      (record { positive = omega arith; empty = refl; area = refl; word = omega arith })

pull_free_block-Relinks_example : Relinks small_heap (1096 ∷ []) (pull_free_block 1160 small_heap)
pull_free_block-Relinks_example = pull_free_block-Relinks small_heap (1096 ∷ []) 1160 [] small_list

-- The heap with a block at 1056 that is free, but not in the list.
abbrev unlisted_heap : Heap
unlisted_heap = record small_heap { memory = update (update small_memory 1056 40) 1088 40 }

insert_free_block-Relinks_example :
    Relinks unlisted_heap (1056 ∷ 1096 ∷ 1160 ∷ []) (insert_free_block 1056 unlisted_heap)
insert_free_block-Relinks_example =
    insert_free_block-Relinks unlisted_heap 1056 (1096 ∷ 1160 ∷ [])
      (record {
        first = refl;
        circular = ((refl, refl), (refl, refl));
        free = (
          record { not_null = omega arith; low = omega arith; high = omega arith; free = refl },
          (
            record { not_null = omega arith; low = omega arith; high = omega arith; free = refl },
            tt,
          ),
        );
        scattered = ((inl (omega arith), tt), (tt, tt));
      })
      (record { not_null = omega arith; low = omega arith; high = omega arith; free = refl })
      (inl (omega arith), (inl (omega arith), tt))

padded_bounds_example :
    (padded 20 % 8 ≡ 0) × (32 ≤ padded 20) × (20 + 16 ≤ padded 20) × (padded 20 ≤ 20 + 32)
padded_bounds_example = padded_bounds 20 (omega arith)

mm_realloc-reads-contents_example :
    (mm_realloc 2 1064 50 small_heap ≡ none)
    × (block_next_size 1056 small_heap ≡ some (32, small_heap))
unfolding padded align
mm_realloc-reads-contents_example =
    mm_realloc-reads-contents 2 50 small_heap (tile 32 1 ∷ []) (tile 40 1) (tile 32 0)
      (tile 32 1 ∷ tile 48 0 ∷ []) (1096 ∷ 1160 ∷ []) 1056 4611686018427387904
      small_heap-IsAllocator refl (omega arith) (omega arith) refl (omega arith) (omega arith)

mm_check_heap-Passes_example :
    mm_check_heap 5 2 small_heap
    ≡ some (
      (pos 0, lines 1056 (tile 40 1 ∷ tile 32 0 ∷ tile 32 1 ∷ tile 48 0 ∷ epilogue_tile ∷ [])),
      small_heap,
    )
mm_check_heap-Passes_example =
    mm_check_heap-Passes 5 2 small_heap (tile 32 1)
      (tile 40 1 ∷ tile 32 0 ∷ tile 32 1 ∷ tile 48 0 ∷ []) 1096 (1160 ∷ []) small_heap-IsAllocator
      (omega arith) (omega arith)

-- A heap with one block between the prologue and the epilogue, which is allocated.
abbrev full_heap : Heap
full_heap = record small_heap {
  memory = update (update small_memory 1096 33) 1120 33;
  mem_brk = 1128;
  epilogue = 1096;
  flist_first = 0;
}

full_heap-IsAllocator : IsAllocator full_heap (tile 32 1 ∷ tile 40 1 ∷ []) []
full_heap-IsAllocator = record {
  heap = record {
    state = record {
      tiles = (
        record { big = omega arith; aligned = refl; bit = omega arith; front = refl; back = refl },
        (
          record {
            big = omega arith;
            aligned = refl;
            bit = omega arith;
            front = refl;
            back = refl;
          },
          (
            record {
              big = omega arith;
              aligned = refl;
              bit = omega arith;
              front = refl;
              back = refl;
            },
            refl,
          ),
        ),
      );
      list = record { first = refl; circular = tt; free = tt; scattered = tt };
      clear = tt;
      low = omega arith;
      positive = omega arith;
      high = omega arith;
      word = omega arith;
    };
    frees = λ x. refl;
  };
  epilogue = refl;
  area = omega arith;
}

mm_check_heap-reads-null_example : mm_check_heap 2 0 full_heap ≡ none
mm_check_heap-reads-null_example =
    mm_check_heap-reads-null 2 0 full_heap (tile 32 1) (tile 40 1 ∷ []) full_heap-IsAllocator
      (omega arith) (omega arith)

-- ===== src/Allocator/Sbrk.antt =====
-- malloc/memlib.c: the simulated heap. `malloc` of the system gives the area; the message that
-- `mem_sbrk` prints and `errno` are left out, and freeing the area ends its use.
use c_course_projects.Common.{ℕ, ◌+◌, ◌-◌, ◌%◌, ◌*◌, Option, none, some, if◌then◌else◌, ltb}
use c_course_projects.Common.Int.{ℤ, pos, negsuc}
use c_course_projects.Allocator.{Heap, M}

-- `MAX_HEAP` of config.h
abbrev pub max_heap : ℕ
max_heap = 20 * 1048576

-- The value of an `int` that is given a `size_t`.
unfoldable pub to_int : ℕ → ℤ
to_int n =
    let low = n % 4294967296 in if ltb low 2147483648 then pos low else negsuc (4294967295 - low)

-- `none` where the program exits. The variables of mm.c are not touched.
unfoldable pub mem_init : Option ℕ → Heap → Option Heap
mem_init none h = none
mem_init (some area) h =
    some (record h { mem_start_brk = area; mem_max_addr = area + max_heap; mem_brk = area })

unfoldable pub mem_reset_brk : Heap → Heap
mem_reset_brk h = record h { mem_brk = h.mem_start_brk }

-- `none` as the result is `(void *) -1`.
unfoldable pub mem_sbrk : ℤ → M (Option ℕ)
mem_sbrk (pos incr) h =
    if ltb h.mem_max_addr (h.mem_brk + incr)
    then some (none, h)
    else some (some h.mem_brk, record h { mem_brk = h.mem_brk + incr })
mem_sbrk (negsuc n) h = some (none, h)

unfoldable pub mem_heap_lo : Heap → ℕ
mem_heap_lo h = h.mem_start_brk

unfoldable pub mem_heap_hi : Heap → ℕ
mem_heap_hi h = h.mem_brk - 1

unfoldable pub mem_heapsize : Heap → ℕ
mem_heapsize h = h.mem_brk - h.mem_start_brk

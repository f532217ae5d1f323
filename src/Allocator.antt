-- ===== src/Allocator.antt =====
-- malloc/mm.c, malloc/mminline.h and malloc/memlib.c: an allocator with boundary tags and a circular
-- list of the free blocks.
--
-- Memory is a word of 64 bits at each byte address that the code reads or writes; the code touches
-- whole words only. An access outside the area of the simulated heap and a failed assertion end a run
-- with `none`.
pub mod Sbrk
pub mod Block
pub mod Operations
pub mod Resize
pub mod Check
pub mod Access
pub mod Ring
pub mod Insert
pub mod Unlink
pub mod Pull
pub mod Tags
pub mod Tiles
pub mod State
pub mod Heaps
pub mod Release
pub mod Coalesce
pub mod Join
pub mod JoinNext
pub mod Free
pub mod BestFit
pub mod Rebuild
pub mod Cut
pub mod Split
pub mod Extend
pub mod Grow
pub mod Take
pub mod Found
pub mod Malloc
pub mod Keep
pub mod Init
pub mod Realloc
pub mod Passes
pub mod Lend
mod Tests
use c_course_projects.Common.{
  ℕ, ◌+◌, ◌-◌, ◌%◌, ◌/◌, ◌*◌, Bool, true, false, ◌&&◌, Option, none, some, if◌then◌else◌, ltb, leb,
  ◌==◌,
}

-- The variables of memlib.c, `flist_first` of mminline.h, and `prologue` and `epilogue` of mm.c.
pub record Heap : Type 0 where
  pub memory : ℕ → ℕ
  pub mem_start_brk : ℕ
  pub mem_brk : ℕ
  pub mem_max_addr : ℕ
  pub flist_first : ℕ
  pub prologue : ℕ
  pub epilogue : ℕ

abbrev pub null : ℕ
null = 0

-- A `size_t` has 64 bits.
abbrev pub word_mod : ℕ
word_mod = 18446744073709551616

abbrev pub add_word : ℕ → ℕ → ℕ
add_word a b = (a + b) % word_mod

abbrev pub sub_word : ℕ → ℕ → ℕ
sub_word a b = (a + word_mod - b) % word_mod

abbrev pub max : ℕ → ℕ → ℕ
max a b = if ltb b a then a else b

-- Code that reads and writes the heap.
abbrev pub M : Type 0 → Type 0
M A = Heap → Option (A × Heap)

abbrev pub pure : {A : Type 0} → A → M A
pure a h = some (a, h)

abbrev pub and_then : {A B : Type 0} → Option (A × Heap) → (A → M B) → Option (B × Heap)
and_then none f = none
and_then (some (a, h)) f = f a h

infixl 5 ◌>>=◌ ◌>>◌
abbrev pub ◌>>=◌ : {A B : Type 0} → M A → (A → M B) → M B
m >>= f = λ h. and_then (m h) f

abbrev pub ◌>>◌ : {B : Type 0} → M (Unit {0}) → M B → M B
m >> k = m >>= λ _. k

abbrev pub assert : Bool → M (Unit {0})
assert true h = some (tt, h)
assert false h = none

-- A word that lies in the area between `mem_start_brk` and `mem_max_addr`.
abbrev pub inside : Heap → ℕ → Bool
inside h a = leb h.mem_start_brk a && leb (a + 8) h.mem_max_addr

abbrev pub update : (ℕ → ℕ) → ℕ → ℕ → ℕ → ℕ
update m a v b = if b == a then v else m b

unfoldable pub load : ℕ → M ℕ
load a h = if inside h a then some (h.memory a, h) else none

unfoldable pub store : ℕ → ℕ → M (Unit {0})
store a v h = if inside h a then some (tt, record h { memory = update h.memory a v }) else none

abbrev pub get_first : M ℕ
get_first h = some (h.flist_first, h)

abbrev pub set_first : ℕ → M (Unit {0})
set_first b h = some (tt, record h { flist_first = b })

abbrev pub get_epilogue : M ℕ
get_epilogue h = some (h.epilogue, h)

abbrev pub set_epilogue : ℕ → M (Unit {0})
set_epilogue b h = some (tt, record h { epilogue = b })

abbrev pub get_prologue : M ℕ
get_prologue h = some (h.prologue, h)

abbrev pub set_prologue : ℕ → M (Unit {0})
set_prologue b h = some (tt, record h { prologue = b })

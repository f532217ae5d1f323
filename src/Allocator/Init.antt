-- ===== src/Allocator/Init.antt =====
-- `mm_init` on an empty area makes a heap that the allocator keeps.
use c_course_projects.Common.{
  ℕ, ◌+◌, ◌-◌, ◌≤◌, ◌<◌, ◌≡◌, ◌≢◌, inl, inr, some, false, [], ◌∷◌, refl, ◌∙◌, arith, ltb,
}
use c_course_projects.Common.Int.{pos}
use c_course_projects.Allocator.{Heap, null, word_mod}
use c_course_projects.Allocator.Access.{IsFree, next_at, prev_at}
use c_course_projects.Allocator.Sbrk.{max_heap, mem_sbrk}
use c_course_projects.Allocator.Block.{insert_free_block}
use c_course_projects.Allocator.Operations.{sbrk_block, mm_init}
use c_course_projects.Allocator.Ring.{Relinks, with_memory}
use c_course_projects.Allocator.Insert.{insert_free_block-Relinks}
use c_course_projects.Allocator.Tags.{Fits, set_size_and_allocated-TagsSet}
use c_course_projects.Allocator.Tiles.{tile, IsTile}
use c_course_projects.Allocator.Extend.{epilogue_tile, IsAllocator}

-- The area as `mem_init` leaves it.
pub record IsFresh (h : Heap) : Type 0 where
  pub positive : 0 < h.mem_start_brk
  pub empty : h.mem_brk ≡ h.mem_start_brk
  pub area : h.mem_max_addr ≡ h.mem_start_brk + max_heap
  pub word : h.mem_max_addr < word_mod

sbrk_block-ok :
    (h : Heap) (flag : ℕ)
    → h.mem_start_brk ≤ h.mem_brk
    → h.mem_brk + 32 ≤ h.mem_max_addr
    → flag ≤ 1
    → (m : ℕ → ℕ) × (sbrk_block flag h
        ≡ some (some h.mem_brk, record h { memory = m; mem_brk = h.mem_brk + 32 }))
      × (m h.mem_brk ≡ 32 + flag)
      × (m (h.mem_brk + 32 - 8) ≡ 32 + flag)
      × ((c : ℕ) → c ≢ h.mem_brk → c ≢ h.mem_brk + 32 - 8 → m c ≡ h.memory c)
unfolding sbrk_block mem_sbrk
sbrk_block-ok h flag low high bit =
    let h0 = record h { mem_brk = h.mem_brk + 32 } in
    let room : ltb h.mem_max_addr (h.mem_brk + 32) ≡ false = ground arith in
    let f : Fits h0 h.mem_brk 32 = record {
      big = omega arith;
      aligned = refl;
      low = low;
      high = high;
    } in
    let (m, ran, front, back, same) = set_size_and_allocated-TagsSet h0 h.mem_brk 32 flag f bit in
    (m, rw (room, ran), front, back, same)

mm_init-run :
    (h h1 h2 h3 h4 : Heap) (a b c : ℕ)
    → sbrk_block 1 (record h { flist_first = null }) ≡ some (some a, h1)
    → sbrk_block 0 (record h1 { prologue = a }) ≡ some (some b, h2)
    → insert_free_block b h2 ≡ some (tt, h3)
    → sbrk_block 1 h3 ≡ some (some c, h4)
    → mm_init h ≡ some (pos 0, record h4 { epilogue = c })
unfolding mm_init
mm_init-run h h1 h2 h3 h4 a b c e1 e2 e3 e4 = rw (e1, e2, e3, e4)

-- The heap that `mm_init` leaves: the prologue, a free block and the epilogue.
abbrev laid : Heap → (ℕ → ℕ) → Heap
laid h m =
    let s = h.mem_brk in
    record h {
      memory = m;
      mem_brk = s + 32 + 32 + 32;
      flist_first = s + 32;
      prologue = s;
      epilogue = s + 32 + 32;
    }

record IsLaid (m : ℕ → ℕ) (s : ℕ) : Type 0 where
  first : IsTile m s (tile 32 1)
  second : IsTile m (s + 32) (tile 32 0)
  third : IsTile m (s + 32 + 32) epilogue_tile
  next : m (next_at (s + 32)) ≡ s + 32
  prev : m (prev_at (s + 32)) ≡ s + 32

laid-IsAllocator :
    (h : Heap) (m : ℕ → ℕ)
    → IsFresh h
    → IsLaid m h.mem_brk
    → IsAllocator (laid h m) (tile 32 1 ∷ tile 32 0 ∷ []) ((h.mem_brk + 32) ∷ [])
laid-IsAllocator h m fresh l =
    let positive = fresh.positive in
    let empty = fresh.empty in
    let area = fresh.area in
    let tag = l.second.front in
    record {
      heap = record {
        state = record {
          tiles = (l.first, (l.second, (l.third, refl)));
          list = record {
            first = refl;
            circular = (l.next, l.prev);
            free = (
              record {
                not_null = omega arith;
                low = omega arith;
                high = omega arith;
                free = omega arith;
              },
              tt,
            );
            scattered = (tt, tt);
          };
          clear = ((inr (inr (omega arith)), (inl refl, (inr (inl (omega arith)), tt))), tt);
          low = omega arith;
          positive = omega arith;
          high = omega arith;
          word = fresh.word;
        };
        frees = λ x. refl;
      };
      epilogue = refl;
      area = omega arith;
    }

-- A block of the least size by its tags.
least_tile :
    (m : ℕ → ℕ) (a flag : ℕ)
    → flag ≤ 1
    → m a ≡ 32 + flag
    → m (a + 32 - 8) ≡ 32 + flag
    → IsTile m a (tile 32 flag)
least_tile m a flag bit front back = record {
  big = omega arith;
  aligned = refl;
  bit = bit;
  front = front;
  back = back;
}

-- The free list of the second block, where no other is free.
insert_first :
    (h : Heap) (b : ℕ)
    → h.flist_first ≡ null
    → IsFree h b
    → Relinks h (b ∷ []) (insert_free_block b h)
insert_first h b nothing free =
    insert_free_block-Relinks h b []
      (record { first = nothing; circular = tt; free = tt; scattered = tt }) free tt

-- The three blocks are made one after the other; what is written later leaves them alone.
mm_init-IsLaid :
    (h : Heap) → IsFresh h → (m : ℕ → ℕ) × (mm_init h ≡ some (pos 0, laid h m)) × IsLaid m h.mem_brk
mm_init-IsLaid h fresh =
    let s = h.mem_brk in
    let positive = fresh.positive in
    let empty = fresh.empty in
    let area = fresh.area in
    let ha = record h { flist_first = null } in
    let (m1, ran1, front1, back1, same1) =
      sbrk_block-ok ha 1 (omega arith) (omega arith) (omega arith) in
    let hb = record ha { memory = m1; mem_brk = s + 32; prologue = s } in
    let (m2, ran2, front2, back2, same2) =
      sbrk_block-ok hb 0 (omega arith) (omega arith) (omega arith) in
    let hc = record hb { memory = m2; mem_brk = s + 32 + 32 } in
    let free : IsFree hc (s + 32) = record {
      not_null = omega arith;
      low = omega arith;
      high = omega arith;
      free = omega arith;
    } in
    let (m3, ran3, list3, same3) = insert_first hc (s + 32) refl free in
    let hd = with_memory hc m3 (s + 32) in
    let (m4, ran4, front4, back4, same4) =
      sbrk_block-ok hd 1 (omega arith) (omega arith) (omega arith) in
    let last : (c : ℕ) → c + 8 ≤ s + 32 + 32 → m4 c ≡ m3 c =
      λ c p. same4 c (λ e. absurd (omega arith)) (λ e. absurd (omega arith)) in
    let keep : (c : ℕ)
        → c + 8 ≤ s + 32 + 32
        → c ≢ next_at (s + 32)
        → c ≢ prev_at (s + 32)
        → m4 c ≡ m2 c =
      λ c p q r. last c p ∙ same3 c ((q, r), tt) in
    let keep1 : (c : ℕ) → c + 8 ≤ s + 32 → m4 c ≡ m1 c = λ c p.
      keep c (omega arith) (λ e. absurd (omega arith)) (λ e. absurd (omega arith))
      ∙ same2 c (λ e. absurd (omega arith)) (λ e. absurd (omega arith)) in
    (
      m4,
      mm_init-run h (record ha { memory = m1; mem_brk = s + 32 }) hc hd
          (record hd { memory = m4; mem_brk = s + 32 + 32 + 32 }) s (s + 32) (s + 32 + 32) ran1 ran2
          ran3 ran4,
      record {
        first =
            least_tile m4 s 1 (omega arith) (keep1 s (omega arith) ∙ front1)
              (keep1 (s + 32 - 8) (omega arith) ∙ back1);
        second =
            least_tile m4 (s + 32) 0 (omega arith)
              (keep (s + 32) (omega arith) (λ e. absurd (omega arith)) (λ e. absurd (omega arith))
                ∙ front2)
              (keep (s + 32 + 32 - 8) (omega arith) (λ e. absurd (omega arith))
                  (λ e. absurd (omega arith))
                ∙ back2);
        third = least_tile m4 (s + 32 + 32) 1 (omega arith) front4 back4;
        next = last (next_at (s + 32)) (omega arith) ∙ list3.circular.0;
        prev = last (prev_at (s + 32)) (omega arith) ∙ list3.circular.1;
      },
    )

-- On an empty area of the full size, at an address above 0, whose end is a machine word, `mm_init`
-- returns 0. It leaves a heap that the allocator keeps: between the prologue and the epilogue stands
-- one free block of 32 bytes, which is the free list.
pub mm_init-IsAllocator :
    (h : Heap)
    → IsFresh h
    → (h' : Heap) × (mm_init h ≡ some (pos 0, h'))
      × IsAllocator h' (tile 32 1 ∷ tile 32 0 ∷ []) ((h.mem_brk + 32) ∷ [])
mm_init-IsAllocator h fresh =
    let (m, ran, l) = mm_init-IsLaid h fresh in (laid h m, ran, laid-IsAllocator h m fresh l)

-- ===== src/Allocator/Found.antt =====
-- `mm_malloc` where a free block is large enough: the block is taken out of the list and split.
use c_course_projects.Common.{
  count, count-append, ℕ, ◌+◌, ◌%◌, ◌≤◌, ◌<◌, ◌≡◌, ◌==◌, inl, inr, Option, some, List, [], ◌∷◌,
  ◌++◌, refl, ap, sym, ◌∙◌, subst, arith, All, All-imp, Bool-cases, append_assoc,
}
use native.Mathlib.Nat.{add-zero}
use c_course_projects.Allocator.{Heap}
use c_course_projects.Allocator.Block.{payload, size_of}
use c_course_projects.Allocator.Operations.{take_block}
use c_course_projects.Allocator.Ring.{with_memory}
use c_course_projects.Allocator.Tiles.{Tile, after, free_at}
use c_course_projects.Allocator.State.{State}
use c_course_projects.Allocator.Heaps.{place, count-free_at-append, after-append}
use c_course_projects.Allocator.Split.{cuts, split_tiles}
use c_course_projects.Allocator.Extend.{epilogue_tile, IsAllocator}
use c_course_projects.Allocator.Take.{take_block-State}

-- A free block among the blocks.
pub find_tile :
    (s : ℕ) (ts : List Tile) (a : ℕ)
    → 0 < count a (free_at s ts)
    → (xs : List Tile) × (t : Tile) × (ys : List Tile) × (ts ≡ xs ++ t ∷ ys)
      × (t.flag ≡ 0)
      × (after s xs ≡ a)
find_tile s [] a h = absurd (omega arith)
find_tile s (t ∷ ts) a h = elim (Bool-cases (t.flag == 0)) [
  | inl f ↦ elim (Bool-cases (s == a)) [
    | inl e ↦ ([], t, ts, refl, ground arith, ground arith)
    | inr n ↦ later s t ts a (find_tile (s + t.size) ts a (ground arith))
  ]
  | inr n ↦ later s t ts a (find_tile (s + t.size) ts a (ground arith))
]
  where
    later :
        (s : ℕ) (t : Tile) (ts : List Tile) (a : ℕ)
        → ((xs : List Tile) × (u : Tile) × (ys : List Tile) × (ts ≡ xs ++ u ∷ ys)
            × (u.flag ≡ 0)
            × (after (s + t.size) xs ≡ a))
        → (xs : List Tile) × (u : Tile) × (ys : List Tile) × (t ∷ ts ≡ xs ++ u ∷ ys)
          × (u.flag ≡ 0)
          × (after s xs ≡ a)
    later s t ts a (xs, u, ys, e, f, p) = (t ∷ xs, u, ys, ap (λ l. t ∷ l) e, f, p)

pub after-split_tiles :
    (a size nsize : ℕ) → nsize ≤ size → after a (split_tiles size nsize) ≡ a + size
after-split_tiles a size nsize le = elim (Bool-cases (cuts size nsize)) [
  | inl t ↦ rw t (omega arith)
  | inr t ↦ rw t
]

-- The blocks are `xs`, the block that is taken, and `ys`; the taken block is one that fits and than
-- which no free block that fits is smaller.
pub record Found (h : Heap) (ts : List Tile) (fl : List ℕ) (nsize : ℕ)
    (r : Option (Option ℕ × Heap)) : Type 0 where
  pub xs : List Tile
  pub t : Tile
  pub ys : List Tile
  pub a : ℕ
  pub m : ℕ → ℕ
  pub f : ℕ
  pub fl' : List ℕ
  pub blocks : ts ≡ xs ++ t ∷ ys
  pub free : t.flag ≡ 0
  pub place : after h.prologue xs ≡ a
  pub enough : nsize ≤ t.size
  pub best : All (λ x. nsize ≤ size_of (h.memory x) → t.size ≤ size_of (h.memory x)) fl
  pub ran : r ≡ some (some (payload a 0), with_memory h m f)
  pub allocator : IsAllocator (with_memory h m f) (xs ++ (split_tiles t.size nsize ++ ys)) fl'

module _ (h : Heap) (xs : List Tile) (t : Tile) (ys : List Tile) (us : List ℕ) (a : ℕ) (zs : List ℕ)
    (nsize : ℕ) (is : IsAllocator h (xs ++ t ∷ ys) (us ++ a ∷ zs)) (start : after h.prologue xs ≡ a)
    (free : t.flag ≡ 0) where
  regrouped : State h (xs ++ t ∷ (ys ++ epilogue_tile ∷ [])) (us ++ a ∷ zs)
  regrouped =
      subst (λ l. State h l (us ++ a ∷ zs)) (append_assoc xs (t ∷ ys) (epilogue_tile ∷ []))
        is.heap.state

  read_size : size_of (h.memory a) ≡ t.size
  read_size =
      let at = place h xs t (ys ++ epilogue_tile ∷ []) (us ++ a ∷ zs) a regrouped start in
      let front = at.is_tile.front in let aligned = at.is_tile.aligned in omega arith

  -- The blocks after the cut end with the epilogue.
  cut_epilogue :
      nsize ≤ t.size → after h.prologue (xs ++ (split_tiles t.size nsize ++ ys)) ≡ h.epilogue
  cut_epilogue le =
      after-append h.prologue xs (split_tiles t.size nsize ++ ys)
      ∙ after-append (after h.prologue xs) (split_tiles t.size nsize) ys
      ∙ ap (λ b. after b ys) (after-split_tiles (after h.prologue xs) t.size nsize le)
      ∙ sym (after-append h.prologue xs (t ∷ ys))
      ∙ is.epilogue

  cut_frees :
      (fl' : List ℕ)
      → nsize ≤ t.size
      → ((x : ℕ)
          → count x fl' ≡ count x (us ++ zs) + count x (free_at a (split_tiles t.size nsize)))
      → (x : ℕ)
      → count x fl'
        ≡ count x
            (free_at h.prologue (xs ++ (split_tiles t.size nsize ++ ys) ++ epilogue_tile ∷ []))
  cut_frees fl' le counts x =
      omega (arith, counts x, before, frees_around x (split_tiles t.size nsize ++ ys), cut)
    where
      -- The blocks from `a` on.
      frees_around :
          (x : ℕ) (rest : List Tile)
          → count x (free_at h.prologue (xs ++ rest ++ epilogue_tile ∷ []))
            ≡ count x (free_at h.prologue xs) + count x (free_at a rest)
      frees_around x rest =
          count-free_at-append x h.prologue (xs ++ rest) (epilogue_tile ∷ [])
          ∙ add-zero _
          ∙ count-free_at-append x h.prologue xs rest
          ∙ ap (λ b. count x (free_at h.prologue xs) + count x (free_at b rest)) start

      cut :
          count x (free_at a (split_tiles t.size nsize ++ ys))
          ≡ count x (free_at a (split_tiles t.size nsize)) + count x (free_at (a + t.size) ys)
      cut =
          count-free_at-append x a (split_tiles t.size nsize) ys
          ∙ ap (λ b. count x (free_at a (split_tiles t.size nsize)) + count x (free_at b ys))
              (after-split_tiles a t.size nsize le)

      before :
          count x (us ++ zs) ≡ count x (free_at h.prologue xs) + count x (free_at (a + t.size) ys)
      before = ground (
        arith,
        is.heap.frees x,
        frees_around x (t ∷ ys),
        count-append x us (a ∷ zs),
        count-append x us zs,
      )

regroup_cut :
    (xs us ys : List Tile)
    → xs ++ (us ++ (ys ++ epilogue_tile ∷ [])) ≡ xs ++ (us ++ ys) ++ epilogue_tile ∷ []
regroup_cut xs us ys =
    ap (λ l. xs ++ l) (sym (append_assoc us ys (epilogue_tile ∷ [])))
    ∙ sym (append_assoc xs (us ++ ys) (epilogue_tile ∷ []))

found_there :
    (h : Heap) (ts : List Tile) (us : List ℕ) (a : ℕ) (zs : List ℕ) (nsize : ℕ) (xs : List Tile)
    (t : Tile) (ys : List Tile)
    → ts ≡ xs ++ t ∷ ys
    → t.flag ≡ 0
    → after h.prologue xs ≡ a
    → IsAllocator h ts (us ++ a ∷ zs)
    → 32 ≤ nsize
    → nsize % 8 ≡ 0
    → nsize ≤ 2147483647
    → nsize ≤ size_of (h.memory a)
    → All
        (λ x. nsize ≤ size_of (h.memory x) → size_of (h.memory a) ≤ size_of (h.memory x))
        (us ++ a ∷ zs)
    → Found h ts (us ++ a ∷ zs) nsize (take_block nsize (some a) h)
found_there h ts us a zs nsize xs t ys e free start is big aligned small enough best =
    let is' = subst (λ l. IsAllocator h l (us ++ a ∷ zs)) e is in
    let size = read_size h xs t ys us a zs nsize is' start free in
    let le : nsize ≤ t.size = omega arith in
    let (m, f, fl', ran, s, counts) =
      take_block-State h xs t (ys ++ epilogue_tile ∷ []) us a zs nsize
        (regrouped h xs t ys us a zs nsize is' start free) start big aligned small le in
    let h' = with_memory h m f in
    record {
      xs = xs;
      t = t;
      ys = ys;
      a = a;
      m = m;
      f = f;
      fl' = fl';
      blocks = e;
      free = free;
      place = start;
      enough = le;
      best = All-imp (λ x p k. let q = p k in omega arith) (us ++ a ∷ zs) best;
      ran = ran;
      allocator = record {
        heap = record {
          state = subst (λ l. State h' l fl') (regroup_cut xs (split_tiles t.size nsize) ys) s;
          frees = cut_frees h xs t ys us a zs nsize is' start free fl' le counts;
        };
        epilogue = cut_epilogue h xs t ys us a zs nsize is' start free le;
        area = is.area;
      };
    }

-- Taking the block that the search has chosen.
pub take_block-Found :
    (h : Heap) (ts : List Tile) (us : List ℕ) (a : ℕ) (zs : List ℕ) (nsize : ℕ)
    → IsAllocator h ts (us ++ a ∷ zs)
    → 32 ≤ nsize
    → nsize % 8 ≡ 0
    → nsize ≤ 2147483647
    → nsize ≤ size_of (h.memory a)
    → All
        (λ x. nsize ≤ size_of (h.memory x) → size_of (h.memory a) ≤ size_of (h.memory x))
        (us ++ a ∷ zs)
    → Found h ts (us ++ a ∷ zs) nsize (take_block nsize (some a) h)
take_block-Found h ts us a zs nsize is big aligned small enough best =
    let counted : 0 < count a (free_at h.prologue ts) = ground (
      arith,
      is.heap.frees a,
      count-append a us (a ∷ zs),
      count-free_at-append a h.prologue ts (epilogue_tile ∷ []),
    ) in
    let (xs, t, ys, e, free, start) = find_tile h.prologue ts a counted in
    found_there h ts us a zs nsize xs t ys e free start is big aligned small enough best

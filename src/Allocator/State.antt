-- ===== src/Allocator/State.antt =====
-- A heap with its blocks and its free list, and the changes that the operations are made of.
use c_course_projects.Common.{
  ℕ, ◌+◌, ◌-◌, ◌%◌, ◌≤◌, ◌<◌, ◌≡◌, ◌≢◌, Option, some, List, ◌∷◌, ◌++◌, sym, ◌∙◌, subst, arith, All,
  All-imp, All-both, ap,
}
use native.Mathlib.Decide.{ℕ_discrete}
use c_course_projects.Allocator.{Heap, word_mod}
use c_course_projects.Allocator.Access.{IsFree, next_at, prev_at}
use c_course_projects.Allocator.Block.{
  block_set_size_and_allocated, pull_free_block, insert_free_block,
}
use c_course_projects.Allocator.Ring.{
  Apart, IsFreeList, with_memory, head_or_null, KeepsLinks, Circular-frame,
}
use c_course_projects.Allocator.Insert.{insert_free_block-Relinks}
use c_course_projects.Allocator.Pull.{pull_free_block-Relinks}
use c_course_projects.Allocator.Tags.{Fits, set_size_and_allocated-TagsSet}
use c_course_projects.Allocator.Tiles.{
  Tile, tile, Tiles, after, Clear, ClearOf, Tiles-split, Tiles-join, Tiles-le, Tiles-frame,
  Tiles-links, ClearOf-append, ClearOf-split,
}

-- The blocks fill the heap from the prologue to its end, and the list holds blocks among them.
pub record State (h : Heap) (ts : List Tile) (fl : List ℕ) : Type 0 where
  pub tiles : Tiles h.memory h.prologue ts h.mem_brk
  pub list : IsFreeList h fl
  pub clear : All (ClearOf h.prologue ts) fl
  pub low : h.mem_start_brk ≤ h.prologue
  pub positive : 0 < h.prologue
  pub high : h.mem_brk ≤ h.mem_max_addr
  pub word : h.mem_max_addr < word_mod

-- A run that succeeds and leaves the blocks as they are, with another free list.
abbrev pub Relisted : Heap → List Tile → List ℕ → Option (Unit {0} × Heap) → Type 0
Relisted h ts fl r =
    (m : ℕ → ℕ) × (r ≡ some (tt, with_memory h m (head_or_null fl)))
    × State (with_memory h m (head_or_null fl)) ts fl

pub pull_free_block-Relisted :
    (h : Heap) (ts : List Tile) (us : List ℕ) (b : ℕ) (zs : List ℕ)
    → State h ts (us ++ b ∷ zs)
    → All (ClearOf h.prologue ts) (us ++ zs)
    → Relisted h ts (us ++ zs) (pull_free_block b h)
pull_free_block-Relisted h ts us b zs s clear =
    let (m, ran, list, same) = pull_free_block-Relinks h us b zs s.list in
    (
      m,
      ran,
      record {
        tiles = Tiles-links h.memory m (us ++ zs) h.prologue ts h.mem_brk s.tiles clear same;
        list = list;
        clear = clear;
        low = s.low;
        positive = s.positive;
        high = s.high;
        word = s.word;
      },
    )

pub insert_free_block-Relisted :
    (h : Heap) (ts : List Tile) (b : ℕ) (fl : List ℕ)
    → State h ts fl
    → IsFree h b
    → All (Apart b) fl
    → ClearOf h.prologue ts b
    → Relisted h ts (b ∷ fl) (insert_free_block b h)
insert_free_block-Relisted h ts b fl s f off c =
    let (m, ran, list, same) = insert_free_block-Relinks h b fl s.list f off in
    (
      m,
      ran,
      record {
        tiles = Tiles-links h.memory m (b ∷ fl) h.prologue ts h.mem_brk s.tiles (c, s.clear) same;
        list = list;
        clear = (c, s.clear);
        low = s.low;
        positive = s.positive;
        high = s.high;
        word = s.word;
      },
    )

module _ (m m' : ℕ → ℕ) (a size : ℕ) (big : 32 ≤ size)
    (same : (c : ℕ) → c ≢ a → c ≢ a + size - 8 → m' c ≡ m c) where
  keeps_links : (x : ℕ) → Clear a size x → KeepsLinks m m' x
  keeps_links x c = (
    same (next_at x) (λ e. absurd (ground arith)) (λ e. absurd (ground arith)),
    same (prev_at x) (λ e. absurd (ground arith)) (λ e. absurd (ground arith)),
  )

  keeps_tag : (x : ℕ) → Clear a size x → x ≢ a → m' x ≡ m x
  keeps_tag x c n = same x n (λ e. absurd (ground arith))

-- A run that succeeds and leaves the free list as it is, with other blocks.
abbrev pub Retiled : Heap → List Tile → List ℕ → Option (Unit {0} × Heap) → Type 0
Retiled h ts fl r =
    (m : ℕ → ℕ) × (r ≡ some (tt, record h { memory = m })) × State (record h { memory = m }) ts fl

-- The blocks `olds` from address `a` on become one block, by its tags.
module _ (h : Heap) (xs olds ys : List Tile) (fl : List ℕ) (a size flag : ℕ)
    (s : State h (xs ++ (olds ++ ys)) fl) (start : after h.prologue xs ≡ a)
    (sum : after a olds ≡ a + size) (big : 32 ≤ size) (aligned : size % 8 ≡ 0) (bit : flag ≤ 1)
    (clear : All (Clear a size) fl) (marked : All (λ x. x ≡ a → flag ≡ 0) fl) where
  parts :
      Tiles h.memory h.prologue xs a
      × Tiles h.memory a olds (a + size)
      × Tiles h.memory (a + size) ys h.mem_brk
  parts =
      let (front, rest) = Tiles-split h.memory h.prologue xs (olds ++ ys) h.mem_brk s.tiles in
      let (middle, back) =
        Tiles-split h.memory a olds ys h.mem_brk
          (subst (λ b. Tiles h.memory b (olds ++ ys) h.mem_brk) start rest) in
      (
        subst (Tiles h.memory h.prologue xs) start front,
        subst (Tiles h.memory a olds) sum middle,
        subst (λ b. Tiles h.memory b ys h.mem_brk) sum back,
      )

  pub fits : Fits h a size
  fits =
      let le = Tiles-le h.memory h.prologue xs a parts.0 in
      let le' = Tiles-le h.memory (a + size) ys h.mem_brk parts.2 in
      let low = s.low in
      let high = s.high in
      record { big = big; aligned = aligned; low = omega arith; high = omega arith }

  module _ (m : ℕ → ℕ) (front : m a ≡ size + flag) (back : m (a + size - 8) ≡ size + flag)
      (same : (c : ℕ) → c ≢ a → c ≢ a + size - 8 → m c ≡ h.memory c) where
    new-Tiles : Tiles m h.prologue (xs ++ tile size flag ∷ ys) h.mem_brk
    new-Tiles =
        Tiles-join m h.prologue xs (tile size flag ∷ ys) h.mem_brk
          (subst (Tiles m h.prologue xs) (sym start) (
            Tiles-frame h.memory m h.prologue xs a parts.0
              (λ c p q. same c (λ e. absurd (omega arith)) (λ e. absurd (omega arith)))))
          (subst (λ b. Tiles m b (tile size flag ∷ ys) h.mem_brk) (sym start)
            (
              record { big = big; aligned = aligned; bit = bit; front = front; back = back },
              Tiles-frame h.memory m (a + size) ys h.mem_brk parts.2
                  (λ c p q. same c (λ e. absurd (omega arith)) (λ e. absurd (omega arith))),
            ))

    still-IsFree :
        (x : ℕ)
        → IsFree h x
        → Clear a size x
        → (x ≡ a → flag ≡ 0)
        → IsFree (record h { memory = m }) x
    still-IsFree x f c k = elim (ℕ_discrete x a) [
      | yes e ↦ record {
        not_null = f.not_null;
        low = f.low;
        high = f.high;
        free = ap (λ (t : ℕ). m t % 2) e ∙ omega (arith, k e);
      }
      | no n ↦ record {
        not_null = f.not_null;
        low = f.low;
        high = f.high;
        free = ap (λ (t : ℕ). t % 2) (keeps_tag h.memory m a size big same x c n) ∙ f.free;
      }
    ]

    new-Clear :
        (x : ℕ)
        → ClearOf h.prologue (xs ++ (olds ++ ys)) x
        → Clear a size x
        → ClearOf h.prologue (xs ++ tile size flag ∷ ys) x
    new-Clear x c d =
        let (p, q) = ClearOf-split h.prologue xs (olds ++ ys) x c in
        let (r, t) = ClearOf-split (after h.prologue xs) olds ys x q in
        ClearOf-append h.prologue xs (tile size flag ∷ ys) x p (
          subst (λ b. ClearOf b (tile size flag ∷ ys) x) (sym start)
            (d, subst (λ b. ClearOf b ys x) (ap (λ b. after b olds) start ∙ sum) t))

    new-State : State (record h { memory = m }) (xs ++ tile size flag ∷ ys) fl
    new-State = record {
      tiles = new-Tiles;
      list = record {
        first = s.list.first;
        circular =
            Circular-frame h.memory m fl
              (All-imp (λ x c. keeps_links h.memory m a size big same x c) fl clear)
              s.list.circular;
        free =
            All-imp (λ x p. still-IsFree x p.0 p.1.0 p.1.1) fl
              (All-both _ _ fl s.list.free (All-both _ _ fl clear marked));
        scattered = s.list.scattered;
      };
      clear = All-imp (λ x p. new-Clear x p.0 p.1) fl (All-both _ _ fl s.clear clear);
      low = s.low;
      positive = s.positive;
      high = s.high;
      word = s.word;
    }

  pub retag-Retiled :
      Retiled h (xs ++ tile size flag ∷ ys) fl (block_set_size_and_allocated a size flag h)
  retag-Retiled =
      let (m, ran, front, back, same) = set_size_and_allocated-TagsSet h a size flag fits bit in
      (m, ran, new-State m front back same)

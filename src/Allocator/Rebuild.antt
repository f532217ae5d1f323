-- ===== src/Allocator/Rebuild.antt =====
-- A heap whose blocks from an address on are laid out anew.
use c_course_projects.Common.{
  ℕ, ◌+◌, ◌≤◌, ◌%◌, ◌≡◌, List, ◌++◌, ap, sym, ◌∙◌, subst, arith, All, All-imp, All-both,
}
use c_course_projects.Allocator.{Heap}
use c_course_projects.Allocator.Access.{IsFree}
use c_course_projects.Allocator.Ring.{KeepsLinks, Circular-frame}
use c_course_projects.Allocator.Tiles.{
  Tile, Tiles, after, ClearOf, Tiles-split, Tiles-join, Tiles-frame, ClearOf-append, ClearOf-split,
}
use c_course_projects.Allocator.State.{State}

abbrev pub with_break : Heap → (ℕ → ℕ) → ℕ → Heap
with_break h m brk = record h { memory = m; mem_brk = brk }

pub rebuild :
    (h : Heap) (xs olds rest : List Tile) (fl : List ℕ) (a brk : ℕ) (m : ℕ → ℕ)
    → State h (xs ++ olds) fl
    → after h.prologue xs ≡ a
    → ((c : ℕ) → c + 8 ≤ a → m c ≡ h.memory c)
    → Tiles m a rest brk
    → brk ≤ h.mem_max_addr
    → All (λ x. (m x ≡ h.memory x) × KeepsLinks h.memory m x) fl
    → All (ClearOf a rest) fl
    → State (with_break h m brk) (xs ++ rest) fl
rebuild h xs olds rest fl a brk m s start front tiles high kept clear = record {
  tiles =
      Tiles-join m h.prologue xs rest brk
        (Tiles-frame h.memory m h.prologue xs (after h.prologue xs)
          (Tiles-split h.memory h.prologue xs olds h.mem_brk s.tiles).0
          (λ c p q. front c (omega arith)))
        (subst (λ b. Tiles m b rest brk) (sym start) tiles);
  list = record {
    first = s.list.first;
    circular = Circular-frame h.memory m fl (All-imp (λ x k. k.1) fl kept) s.list.circular;
    free = All-imp (λ x p. free x p.0 p.1.0) fl (All-both _ _ fl s.list.free kept);
    scattered = s.list.scattered;
  };
  clear = All-imp (λ x p. whole x p.0 p.1) fl (All-both _ _ fl s.clear clear);
  low = s.low;
  positive = s.positive;
  high = high;
  word = s.word;
}
  where
    free : (x : ℕ) → IsFree h x → m x ≡ h.memory x → IsFree (with_break h m brk) x
    free x f e = record {
      not_null = f.not_null;
      low = f.low;
      high = f.high;
      free = ap (λ (t : ℕ). t % 2) e ∙ f.free;
    }

    whole :
        (x : ℕ)
        → ClearOf h.prologue (xs ++ olds) x
        → ClearOf a rest x
        → ClearOf h.prologue (xs ++ rest) x
    whole x c d =
        ClearOf-append h.prologue xs rest x (ClearOf-split h.prologue xs olds x c).0
          (subst (λ b. ClearOf b rest x) (sym start) d)

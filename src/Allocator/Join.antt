-- ===== src/Allocator/Join.antt =====
-- `coalesce` where the next block is allocated.
use c_course_projects.Common.{
  count, take_out, ℕ, ◌+◌, ◌≡◌, ◌≢◌, true, false, Option, some, List, [], ◌∷◌, ◌++◌, refl, ap, ◌∙◌,
  subst, arith, All, All-imp, All-both,
}
use c_course_projects.Allocator.{Heap, add_word}
use c_course_projects.Allocator.Block.{pull_free_block, block_size, block_set_size_and_allocated}
use c_course_projects.Allocator.Operations.{join_blocks}
use c_course_projects.Allocator.Ring.{Apart, with_memory, head_or_null}
use c_course_projects.Allocator.Tiles.{Tile, tile, free_at, Clear}
use c_course_projects.Allocator.State.{Relisted, retag-Retiled, pull_free_block-Relisted}
use c_course_projects.Allocator.Heaps.{count-free_at-append, IsHeap}
use c_course_projects.Allocator.Coalesce.{
  Around, at_p, at_t, p-size-ok, sums_fit, relist, Clear-join,
}

-- A run that returns the pointer and leaves the heap with the blocks.
abbrev pub Leaves {ℓ} : {A : Type ℓ} → Heap → List Tile → A → Option (A × Heap) → Type ℓ
Leaves h ts o r =
    (m : ℕ → ℕ) × (f : ℕ) × (fl : List ℕ) × (r ≡ some (o, with_memory h m f))
    × IsHeap (with_memory h m f) ts fl

pub ne_of_Apart : (b x : ℕ) → Apart b x → x ≢ b
ne_of_Apart b x p e = absurd (ground arith)

-- The runs of the three cases that join.
join_prev-run :
    (h h1 h2 : Heap) (a q z size ps sum : ℕ)
    → pull_free_block a h ≡ some (tt, h1)
    → block_size q h1 ≡ some (ps, h1)
    → add_word size ps ≡ sum
    → block_set_size_and_allocated q sum 0 h1 ≡ some (tt, h2)
    → join_blocks false true a q z size h ≡ some (some q, h2)
unfolding join_blocks
join_prev-run h h1 h2 a q z size ps sum e1 e2 e3 e4 = rw (e1, e2, e3, e4)

module _ {h : Heap} {us : List Tile} {p t n : Tile} {vs : List Tile} {fl : List ℕ} {q a z : ℕ}
    (w : Around h us p t n vs fl q a z) where
  pub count_around :
      (x : ℕ) (ts : List Tile)
      → count x (free_at h.prologue (us ++ ts))
        ≡ count x (free_at h.prologue us) + count x (free_at q ts)
  count_around x ts =
      count-free_at-append x h.prologue us ts
      ∙ ap (λ b. count x (free_at h.prologue us) + count x (free_at b ts)) w.q_is

module _ {h : Heap} {us : List Tile} {p n : Tile} {vs : List Tile} {fl : List ℕ} {q a z size : ℕ}
    (w : Around h us p (tile size 0) n vs (a ∷ fl) q a z)
    (frees : (x : ℕ)
      → count x (a ∷ fl) ≡ count x (free_at h.prologue (us ++ p ∷ tile size 0 ∷ n ∷ vs))) where
  pub join_none :
      Leaves h (us ++ p ∷ tile size 0 ∷ n ∷ vs) (some a) (join_blocks true true a q z size h)
  unfolding join_blocks
  join_none = (h.memory, h.flist_first, a ∷ fl, refl, record { state = w.state; frees = frees })

  not_a : All (λ x. x ≢ a) fl
  not_a = All-imp (ne_of_Apart a) fl w.state.list.scattered.0

  abbrev blocks : List Tile
  blocks = us ++ p ∷ tile size 0 ∷ n ∷ vs

  -- The block is pulled.
  pulled : Relisted h blocks fl (pull_free_block a h)
  pulled = pull_free_block-Relisted h blocks [] a fl w.state w.state.clear.1

  pub join_prev :
      p.flag ≡ 0
      → Leaves h
          (us ++ tile (size + p.size) 0 ∷ n ∷ vs)
          (some q)
          (join_blocks false true a q z size h)
  join_prev free =
      let (m, ran, s) = pulled in
      let h1 = with_memory h m (head_or_null fl) in
      let w1 = relist fl m (head_or_null fl) w s in
      let fit = sums_fit w in
      let total : add_word size p.size ≡ size + p.size = omega arith in
      let big = (at_p w).is_tile.big in
      let t_aligned = (at_t w).is_tile.aligned in
      let p_aligned = (at_p w).is_tile.aligned in
      let a_is = w.a_is in
      let z_is = w.z_is in
      let clear : All (Clear q (size + p.size)) fl =
        All-imp
          (λ x c.
            subst (λ b. Clear q b x) (omega arith)
              (Clear-join q p.size size a x big a_is c.0.0 c.0.1 c.1))
          fl (All-both _ _ fl (All-both _ _ fl (at_p w1).clear (at_t w1).clear) not_a) in
      let (m', ran', s') =
        retag-Retiled h1 us (p ∷ tile size 0 ∷ []) (n ∷ vs) fl q (size + p.size) 0 s w.q_is
          (omega arith) (omega arith) (omega arith) (omega arith) clear
          (All-imp (λ x _ _. refl) fl clear) in
      (
        m',
        head_or_null fl,
        fl,
        join_prev-run h h1 (with_memory h m' (head_or_null fl)) a q z size p.size (size + p.size)
            ran (p-size-ok w1) total ran',
        record {
          state = s';
          frees = λ x. ground (
            arith,
            frees x,
            count_around w x (p ∷ tile size 0 ∷ n ∷ vs),
            count_around w x (tile (size + p.size) 0 ∷ n ∷ vs),
          );
        },
      )

  -- A free block behind is in the list.
  pub found_z : n.flag ≡ 0 → (f1 : List ℕ) × (f2 : List ℕ) × (fl ≡ f1 ++ z ∷ f2)
  found_z free =
      let big = (at_t w).is_tile.big in
      let z_is = w.z_is in
      let a_is = w.a_is in
      take_out z fl (ground (arith, frees z, count_around w z (p ∷ tile size 0 ∷ n ∷ vs)))

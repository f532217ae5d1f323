-- ===== src/Allocator/Free.antt =====
-- `mm_free` on an allocated block with a block before it and one behind it.
use c_course_projects.Common.{
  count, ℕ, zero, suc, ◌+◌, ◌-◌, ◌≤◌, ◌≡◌, ◌==◌, Bool, true, false, ◌⊎◌, inl, inr, Option, some,
  List, ◌∷◌, ◌++◌, refl, ap, subst, sym, ◌∙◌, arith, [], append_assoc,
}
use c_course_projects.Allocator.{Heap, null}
use c_course_projects.Allocator.Block.{block_size, block_set_size_and_allocated, insert_free_block}
use c_course_projects.Allocator.Ring.{with_memory}
use c_course_projects.Allocator.Operations.{
  join_blocks, join_free, coalesce, coalesce_helper, mm_free,
}
use c_course_projects.Allocator.Tiles.{Tile, tile, after, free_at}
use c_course_projects.Allocator.Tags.{size-ok}
use c_course_projects.Allocator.State.{State}
use c_course_projects.Allocator.Heaps.{IsHeap}
use c_course_projects.Allocator.Release.{release-State, not_listed}
use c_course_projects.Allocator.Coalesce.{
  joined, Around, at_p, at_t, at_n, to_a, State-a, join_free-ok,
}
use c_course_projects.Allocator.Join.{Leaves, count_around, join_none, join_prev, found_z}
use c_course_projects.Allocator.JoinNext.{join_next, join_both}

-- The pointer that `coalesce` returns.
abbrev pub joined_at : Bool → ℕ → ℕ → ℕ
joined_at true q a = a
joined_at false q a = q

flag-cases : (f : ℕ) → f ≤ 1 → ((f ≡ 0) × ((f == 1) ≡ false)) ⊎ ((f ≡ 1) × ((f == 1) ≡ true))
flag-cases zero h = inl (refl, refl)
flag-cases (suc f) h = inr (omega arith, ground arith)

module _ {h : Heap} {us : List Tile} {p n : Tile} {vs : List Tile} {fl : List ℕ} {q a z size : ℕ}
    (w : Around h us p (tile size 0) n vs (a ∷ fl) q a z)
    (frees : (x : ℕ)
      → count x (a ∷ fl) ≡ count x (free_at h.prologue (us ++ p ∷ tile size 0 ∷ n ∷ vs))) where
  listed : {fl' : List ℕ} → fl ≡ fl' → Around h us p (tile size 0) n vs (a ∷ fl') q a z
  listed e = subst (λ l. Around h us p (tile size 0) n vs (a ∷ l) q a z) e w

  listed_frees :
      {fl' : List ℕ}
      → fl ≡ fl'
      → (x : ℕ) → count x (a ∷ fl') ≡ count x (free_at h.prologue (us ++ p ∷ tile size 0 ∷ n ∷ vs))
  listed_frees e x = ap (λ l. count x (a ∷ l)) (sym e) ∙ frees x

  join-Leaves :
      Leaves h
        (us ++ (joined (p.flag == 1) (n.flag == 1) p size n ++ vs))
        (some (joined_at (p.flag == 1) q a))
        (join_blocks (p.flag == 1) (n.flag == 1) a q z size h)
  unfolding joined
  join-Leaves = elim (flag-cases p.flag (at_p w).is_tile.bit) [
    | inl (p0, pf) ↦ elim (flag-cases n.flag (at_n w).is_tile.bit) [
      | inl (n0, nf) ↦
          let (f1, f2, e) = found_z w frees n0 in
          let there = join_both f1 f2 (listed e) (listed_frees e) p0 n0 in rw (pf, nf) there
      | inr (n1, nt) ↦ rw (pf, nt) (join_prev w frees p0)
    ]
    | inr (p1, pt) ↦ elim (flag-cases n.flag (at_n w).is_tile.bit) [
      | inl (n0, nf) ↦
          let (f1, f2, e) = found_z w frees n0 in
          let there = join_next f1 f2 (listed e) (listed_frees e) n0 in rw (pt, nf) there
      | inr (n1, nt) ↦ rw (pt, nt) (join_none w frees)
    ]
  ]

-- The block is the first of the list.
coalesce-run : (fuel a : ℕ) (h : Heap) → h.flist_first ≡ a → coalesce fuel a h ≡ join_free a h
unfolding coalesce coalesce_helper
coalesce-run fuel a h e = let first : (h.flist_first == a) ≡ true = ground arith in rw first

mm_free-run :
    (fuel a size : ℕ) (h h1 h2 h3 : Heap) (o : Option ℕ)
    → block_size a h ≡ some (size, h)
    → block_set_size_and_allocated a size 0 h ≡ some (tt, h1)
    → insert_free_block a h1 ≡ some (tt, h2)
    → coalesce fuel a h2 ≡ some (o, h3)
    → mm_free fuel (a + 8) h ≡ some (tt, h3)
unfolding mm_free
mm_free-run fuel a size h h1 h2 h3 o e1 e2 e3 e4 =
    let there : (a + 8 == null) ≡ false = ground arith in
    let back : a + 8 - 8 ≡ a = omega arith in rw (there, back, e1, e2, e3, e4)

-- Freeing an allocated block that has a block on each side: the run succeeds for any fuel, and leaves
-- a heap in which the block is free and is one with the free blocks beside it.
pub mm_free-joins :
    (fuel : ℕ) (h : Heap) (us : List Tile) (p t n : Tile) (vs : List Tile) (fl : List ℕ) (q : ℕ)
    → IsHeap h (us ++ p ∷ t ∷ n ∷ vs) fl
    → t.flag ≡ 1
    → after h.prologue us ≡ q
    → Leaves h
        (us ++ (joined (p.flag == 1) (n.flag == 1) p t.size n ++ vs))
        tt
        (mm_free fuel (q + p.size + 8) h)
mm_free-joins fuel h us p t n vs fl q is marked q_is =
    let a = q + p.size in
    let z = a + t.size in
    let w : Around h us p t n vs fl q a z = record {
      state = is.state;
      q_is = q_is;
      a_is = refl;
      z_is = refl;
    } in
    let at = at_t w in
    let ne = not_listed h a t fl at.is_tile marked is.state.list.free in
    let r =
      release-State h (us ++ p ∷ []) (t ∷ []) (n ∷ vs) fl a t.size (State-a w) (to_a w) refl
        at.is_tile.big at.is_tile.aligned at.clear ne in
    let h2 = with_memory h r.memory a in
    let w2 : Around h2 us p (tile t.size 0) n vs (a ∷ fl) q a z = record {
      state =
          subst (λ l. State h2 l (a ∷ fl)) (append_assoc us (p ∷ []) (tile t.size 0 ∷ n ∷ vs))
            r.state;
      q_is = q_is;
      a_is = refl;
      z_is = refl;
    } in
    let frees : (x : ℕ)
        → count x (a ∷ fl) ≡ count x (free_at h.prologue (us ++ p ∷ tile t.size 0 ∷ n ∷ vs)) =
      λ x. ground (
        arith,
        is.frees x,
        count_around w x (p ∷ t ∷ n ∷ vs),
        count_around w x (p ∷ tile t.size 0 ∷ n ∷ vs),
      ) in
    let (m, f, fl', ran, is') = join-Leaves w2 frees in
    (
      m,
      f,
      fl',
      mm_free-run fuel a t.size h (record h { memory = r.first_memory }) h2 (with_memory h m f)
          (some (joined_at (p.flag == 1) q a))
          (size-ok h a t.size t.flag at.fits at.is_tile.bit at.is_tile.front) r.marked r.inserted
          (coalesce-run fuel a h2 refl ∙ join_free-ok w2 ∙ ran),
      is',
    )

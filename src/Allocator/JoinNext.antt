-- ===== src/Allocator/JoinNext.antt =====
-- The cases of `coalesce` where the next block is free.
use c_course_projects.Common.{
  count, count-append, ℕ, ◌+◌, ◌≡◌, ◌≢◌, true, false, some, List, [], ◌∷◌, ◌++◌, refl, subst, arith,
  All, All-imp, All-both, append_assoc, All-append_left, All-append, All-append_right,
}
use c_course_projects.Allocator.{Heap, add_word}
use c_course_projects.Allocator.Block.{pull_free_block, block_size, block_set_size_and_allocated}
use c_course_projects.Allocator.Operations.{join_blocks}
use c_course_projects.Allocator.Ring.{with_memory, head_or_null}
use c_course_projects.Allocator.Tiles.{Tile, tile, free_at, Clear, ClearOf}
use c_course_projects.Allocator.State.{State, retag-Retiled, pull_free_block-Relisted}
use c_course_projects.Allocator.Unlink.{Apart-of_Scattered}
use c_course_projects.Allocator.Coalesce.{
  Around, at_p, at_t, at_n, to_a, State-a, p-size-ok, n-size-ok, sums_fit, relist, Clear-join,
}
use c_course_projects.Allocator.Join.{Leaves, ne_of_Apart, count_around}

join_next-run :
    (h h1 h2 : Heap) (a q z size ns sum : ℕ)
    → pull_free_block z h ≡ some (tt, h1)
    → block_size z h1 ≡ some (ns, h1)
    → add_word size ns ≡ sum
    → block_set_size_and_allocated a sum 0 h1 ≡ some (tt, h2)
    → join_blocks true false a q z size h ≡ some (some a, h2)
unfolding join_blocks
join_next-run h h1 h2 a q z size ns sum e1 e2 e3 e4 = rw (e1, e2, e3, e4)

join_both-run :
    (h h1 h2 h3 : Heap) (a q z size ps ns sum : ℕ)
    → pull_free_block a h ≡ some (tt, h1)
    → pull_free_block z h1 ≡ some (tt, h2)
    → block_size q h2 ≡ some (ps, h2)
    → block_size z h2 ≡ some (ns, h2)
    → add_word (add_word size ps) ns ≡ sum
    → block_set_size_and_allocated q sum 0 h2 ≡ some (tt, h3)
    → join_blocks false false a q z size h ≡ some (some q, h3)
unfolding join_blocks
join_both-run h h1 h2 h3 a q z size ps ns sum e1 e2 e3 e4 e5 e6 = rw (e1, e2, e3, e4, e5, e6)

module _ {h : Heap} {us : List Tile} {p n : Tile} {vs : List Tile} {q a z size : ℕ} (f1 f2 : List ℕ)
    (w : Around h us p (tile size 0) n vs (a ∷ f1 ++ z ∷ f2) q a z)
    (frees : (x : ℕ)
      → count x (a ∷ f1 ++ z ∷ f2)
        ≡ count x (free_at h.prologue (us ++ p ∷ tile size 0 ∷ n ∷ vs))) where
  clear_rest : All (ClearOf h.prologue (us ++ p ∷ tile size 0 ∷ n ∷ vs)) (a ∷ f1 ++ f2)
  clear_rest =
      All-append _ (a ∷ f1) f2 (All-append_left _ (a ∷ f1) (z ∷ f2) w.state.clear)
        (All-append_right _ (a ∷ f1) (z ∷ f2) w.state.clear).1

  not_z : All (λ x. x ≢ z) (a ∷ f1 ++ f2)
  not_z =
      All-imp (ne_of_Apart z) (a ∷ f1 ++ f2)
        (Apart-of_Scattered (a ∷ f1) z f2 w.state.list.scattered)

  pub join_next :
      n.flag ≡ 0
      → Leaves h
          (us ++ p ∷ tile (size + n.size) 0 ∷ vs)
          (some a)
          (join_blocks true false a q z size h)
  join_next free =
      let rest = a ∷ f1 ++ f2 in
      let (m, ran, s) =
        pull_free_block-Relisted h (us ++ p ∷ tile size 0 ∷ n ∷ vs) (a ∷ f1) z f2 w.state
          clear_rest in
      let h1 = with_memory h m a in
      let w1 = relist rest m a w s in
      let fit = sums_fit w in
      let total : add_word size n.size ≡ size + n.size = omega arith in
      let big = (at_t w).is_tile.big in
      let t_aligned = (at_t w).is_tile.aligned in
      let n_aligned = (at_n w).is_tile.aligned in
      let a_is = w.a_is in
      let z_is = w.z_is in
      let clear : All (Clear a (size + n.size)) rest =
        All-imp (λ x c. Clear-join a size n.size z x big z_is c.0.0 c.0.1 c.1) rest
          (All-both _ _ rest (All-both _ _ rest (at_t w1).clear (at_n w1).clear) not_z) in
      let (m', ran', s') =
        retag-Retiled h1 (us ++ p ∷ []) (tile size 0 ∷ n ∷ []) vs rest a (size + n.size) 0
          (State-a w1) (to_a w1) (omega arith) (omega arith) (omega arith) (omega arith) clear
          (All-imp (λ x _ _. refl) rest clear) in
      let h2 = with_memory h m' a in
      (
        m',
        a,
        rest,
        join_next-run h h1 h2 a q z size n.size (size + n.size) ran (n-size-ok w1) total ran',
        record {
          state =
              subst (λ l. State h2 l rest) (append_assoc us (p ∷ []) (tile (size + n.size) 0 ∷ vs))
                s';
          frees = λ x. ground (
            arith,
            frees x,
            count_around w x (p ∷ tile size 0 ∷ n ∷ vs),
            count_around w x (p ∷ tile (size + n.size) 0 ∷ vs),
            count-append x f1 (z ∷ f2),
            count-append x f1 f2,
          );
        },
      )

  pub join_both :
      p.flag ≡ 0
      → n.flag ≡ 0
      → Leaves h
          (us ++ tile (size + p.size + n.size) 0 ∷ vs)
          (some q)
          (join_blocks false false a q z size h)
  join_both p_free n_free =
      let blocks = us ++ p ∷ tile size 0 ∷ n ∷ vs in
      let rest = f1 ++ f2 in
      let (m, ran, s) =
        pull_free_block-Relisted h blocks [] a (f1 ++ z ∷ f2) w.state w.state.clear.1 in
      let h1 = with_memory h m (head_or_null (f1 ++ z ∷ f2)) in
      let (m', ran', s') = pull_free_block-Relisted h1 blocks f1 z f2 s clear_rest.1 in
      let h2 = with_memory h m' (head_or_null rest) in
      let w2 = relist rest m' (head_or_null rest) w s' in
      let fit = sums_fit w in
      let total : add_word (add_word size p.size) n.size ≡ size + p.size + n.size = omega arith in
      let p_big = (at_p w).is_tile.big in
      let t_big = (at_t w).is_tile.big in
      let p_aligned = (at_p w).is_tile.aligned in
      let t_aligned = (at_t w).is_tile.aligned in
      let n_aligned = (at_n w).is_tile.aligned in
      let a_is = w.a_is in
      let z_is = w.z_is in
      let off : All (λ x. x ≢ a) rest = All-imp (ne_of_Apart a) rest (
        All-append _ f1 f2 (All-append_left _ f1 (z ∷ f2) w.state.list.scattered.0)
          (All-append_right _ f1 (z ∷ f2) w.state.list.scattered.0).1) in
      let front : All (Clear q (p.size + size)) rest =
        All-imp (λ x c. Clear-join q p.size size a x p_big a_is c.0.0 c.0.1 c.1) rest
          (All-both _ _ rest (All-both _ _ rest (at_p w2).clear (at_t w2).clear) off) in
      let clear : All (Clear q (size + p.size + n.size)) rest =
        All-imp
          (λ x c.
            subst (λ b. Clear q b x) (omega arith)
              (Clear-join q (p.size + size) n.size z x (omega arith) (omega arith) c.0.0 c.0.1 c.1))
          rest (All-both _ _ rest (All-both _ _ rest front (at_n w2).clear) not_z.1) in
      let (m3, ran3, s3) =
        retag-Retiled h2 us (p ∷ tile size 0 ∷ n ∷ []) vs rest q (size + p.size + n.size) 0 s'
          w.q_is (omega arith) (omega arith) (omega arith) (omega arith) clear
          (All-imp (λ x _ _. refl) rest clear) in
      (
        m3,
        head_or_null rest,
        rest,
        join_both-run h h1 h2 (with_memory h m3 (head_or_null rest)) a q z size p.size n.size
            (size + p.size + n.size) ran ran' (p-size-ok w2) (n-size-ok w2) total ran3,
        record {
          state = s3;
          frees = λ x. ground (
            arith,
            frees x,
            count_around w x (p ∷ tile size 0 ∷ n ∷ vs),
            count_around w x (tile (size + p.size + n.size) 0 ∷ vs),
            count-append x f1 (z ∷ f2),
            count-append x f1 f2,
          );
        },
      )

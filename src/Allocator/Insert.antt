-- ===== src/Allocator/Insert.antt =====
-- `insert_free_block` puts a block at the front of the circular list.
use c_course_projects.Common.{
  false, ◌==◌, ℕ, ◌≡◌, ◌≢◌, inl, inr, List, [], ◌∷◌, refl, arith, All, some, subst,
}
use c_course_projects.Allocator.{Heap, null, update}
use c_course_projects.Allocator.Access.{
  IsFree, write, next_at, prev_at, assert_free-ok, prev_free-ok, set_next_free-ok, set_prev_free-ok,
}
use c_course_projects.Allocator.Block.{insert_free_block, insert_only, insert_before}
use c_course_projects.Allocator.Ring.{
  last, Apart, Scattered, Inner, Seg-change, Seg-last, All-last, Near, Near-last, Apart-symm,
  IsFreeList, SameButLinks, with_memory, Relinks, IsFree-kept,
}

-- The memory after the four writes of `insert_before`, where the last block is `l`.
abbrev inserted : ℕ → ℕ → ℕ → (ℕ → ℕ) → ℕ → ℕ
inserted fb x l m =
    update (update (update (update m (next_at fb) x) (prev_at fb) l) (next_at l) fb) (prev_at x) fb

Inner-inserted :
    (m : ℕ → ℕ) (fb x l a : ℕ) (ys : List ℕ)
    → Near a x
    → Apart fb a
    → All (Apart fb) ys
    → All (Apart x) ys
    → Scattered (a ∷ ys)
    → last a ys ≡ l
    → Inner m (inserted fb x l m) a ys
Inner-inserted m fb x l a [] near off fs xs sc e = tt
Inner-inserted m fb x l a (y ∷ ys) near off fs xs sc e =
    let far : Apart a l = subst (Apart a) e (All-last (Apart a) y ys sc.0.0 sc.0.1) in
    let close : Near y l = subst (Near y) e (Near-last y ys sc.1.0) in
    (
      ground arith,
      ground arith,
      Inner-inserted m fb x l y ys (inr (Apart-symm x y xs.0)) fs.0 fs.1 xs.1 sc.1 e,
    )

module _ (h : Heap) (fb x l : ℕ) where
  insert_before-inserted :
      IsFree h fb
      → IsFree h x
      → IsFree h l
      → h.memory (prev_at x) ≡ l
      → Apart fb x
      → Apart fb l
      → Near x l
      → insert_before x fb h ≡ some (tt, record h { memory = inserted fb x l h.memory })
  unfolding insert_before
  insert_before-inserted f g k e p q r =
      let h1 = write (next_at fb) x h in
      let h2 = write (prev_at fb) l h1 in
      let h3 = write (next_at l) fb h2 in
      let fb1 : IsFree h1 fb = ground arith in
      let l1 : IsFree h1 l = ground arith in
      let fb2 : IsFree h2 fb = ground arith in
      let l2 : IsFree h2 l = ground arith in
      let x3 : IsFree h3 x = ground arith in
      let fb3 : IsFree h3 fb = ground arith in
      rw (prev_free-ok g, e, set_next_free-ok f g, set_prev_free-ok fb1 l1, set_next_free-ok l2 fb2)
        (set_prev_free-ok x3 fb3)

insert_only-written :
    (h : Heap) (fb : ℕ)
    → IsFree h fb
    → insert_only fb h ≡ some (tt, write (prev_at fb) fb (write (next_at fb) fb h))
unfolding insert_only
insert_only-written h fb f =
    let f1 : IsFree (write (next_at fb) fb h) fb = ground arith in
    rw (set_next_free-ok f f) (set_prev_free-ok f1 f1)

insert_only-Relinks :
    (h : Heap) (fb : ℕ)
    → IsFreeList h []
    → IsFree h fb
    → Relinks h (fb ∷ []) (insert_free_block fb h)
unfolding insert_free_block
insert_only-Relinks h fb is f = (
  update (update h.memory (next_at fb) fb) (prev_at fb) fb,
  simp (assert_free-ok f, is.first, insert_only-written h fb f),
  record {
    first = refl;
    circular = (ground arith, ground arith);
    free = (ground arith, tt);
    scattered = (tt, tt);
  },
  λ a p. ground arith,
)

insert_before-Relinks :
    (h : Heap) (fb x : ℕ) (xs : List ℕ)
    → IsFreeList h (x ∷ xs)
    → IsFree h fb
    → All (Apart fb) (x ∷ xs)
    → Relinks h (fb ∷ x ∷ xs) (insert_free_block fb h)
unfolding insert_free_block
insert_before-Relinks h fb x xs is f off =
    let l = last x xs in
    let h' = with_memory h (inserted fb x l h.memory) fb in
    let fl : IsFree h l = All-last (IsFree h) x xs is.free.0 is.free.1 in
    let off_l : Apart fb l = All-last (Apart fb) x xs off.0 off.1 in
    let near : Near x l = Near-last x xs is.scattered.0 in
    let before = Seg-last h.memory x xs x is.circular in
    let some_first : (x == null) ≡ false = ground (arith, is.free.0.not_null) in
    let same : SameButLinks (fb ∷ x ∷ xs) h.memory h'.memory = λ a p.
      let q = All-last (λ b. (a ≢ next_at b) × (a ≢ prev_at b)) x xs p.1.0 p.1.1 in ground arith in
    let sc : Scattered (fb ∷ x ∷ xs) = (off, is.scattered) in
    (
      h'.memory,
      simp (
        assert_free-ok f,
        is.first,
        some_first,
        insert_before-inserted h fb x l f is.free.0 fl before.1 off.0 off_l near,
      ),
      record {
        first = refl;
        circular = (
          (ground arith, ground arith),
          Seg-change h.memory h'.memory x xs x fb is.circular
              (Inner-inserted h.memory fb x l x xs (inl refl) off.0 off.1 is.scattered.0
                is.scattered refl)
              (ground arith, ground arith),
        );
        free = IsFree-kept h h' (fb ∷ x ∷ xs) sc (f, is.free) same refl refl;
        scattered = sc;
      },
      same,
    )

-- Inserting a free block that shares no tag and no link with the blocks of a free list succeeds. The
-- list is then the block and the former list, in order, linked in a circle both ways, and no word
-- changes but the links of its blocks.
pub insert_free_block-Relinks :
    (h : Heap) (fb : ℕ) (bs : List ℕ)
    → IsFreeList h bs
    → IsFree h fb
    → All (Apart fb) bs
    → Relinks h (fb ∷ bs) (insert_free_block fb h)
insert_free_block-Relinks h fb [] is f off = insert_only-Relinks h fb is f
insert_free_block-Relinks h fb (x ∷ xs) is f off = insert_before-Relinks h fb x xs is f off

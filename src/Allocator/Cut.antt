-- ===== src/Allocator/Cut.antt =====
-- The two blocks that `split` makes of one, by their tags.
use c_course_projects.Common.{
  ℕ, ◌+◌, ◌-◌, ◌%◌, ◌≤◌, ◌≡◌, ◌≢◌, ◌⊎◌, inl, inr, some, List, ◌∷◌, ◌++◌, sym, ◌∙◌, subst, arith,
  All, All-imp, All-both,
}
use c_course_projects.Allocator.{Heap}
use c_course_projects.Allocator.Access.{next_at, prev_at}
use c_course_projects.Allocator.Block.{block_next, block_set_size_and_allocated}
use c_course_projects.Allocator.Ring.{KeepsLinks}
use c_course_projects.Allocator.Tiles.{
  Tile, tile, IsTile, Tiles, after, Clear, ClearOf, Tiles-split, Tiles-frame, ClearOf-split,
}
use c_course_projects.Allocator.Tags.{Fits, set_size_and_allocated-TagsSet}
use c_course_projects.Allocator.State.{State}
use c_course_projects.Allocator.Heaps.{Placed, place}
use c_course_projects.Allocator.Coalesce.{next-ok}
use c_course_projects.Allocator.Rebuild.{rebuild}

-- Both blocks have their tags; the second one is free, but in no list.
pub record Tagged (h : Heap) (xs ys : List Tile) (fl : List ℕ) (a size nsize : ℕ) : Type 0 where
  pub m1 : ℕ → ℕ
  pub m2 : ℕ → ℕ
  pub front : block_set_size_and_allocated a nsize 1 h ≡ some (tt, record h { memory = m1 })
  pub next : block_next a (record h { memory = m1 }) ≡ some (a + nsize, record h { memory = m1 })
  pub rest :
      block_set_size_and_allocated (a + nsize) (size - nsize) 0 (record h { memory = m1 })
      ≡ some (tt, record h { memory = m2 })
  pub next' : block_next a (record h { memory = m2 }) ≡ some (a + nsize, record h { memory = m2 })
  pub state : State (record h { memory = m2 }) (xs ++ tile nsize 1 ∷ tile (size - nsize) 0 ∷ ys) fl

module _ (h : Heap) (xs ys : List Tile) (fl : List ℕ) (a size nsize : ℕ)
    (s : State h (xs ++ tile size 1 ∷ ys) fl) (start : after h.prologue xs ≡ a) (big : 32 ≤ nsize)
    (aligned : nsize % 8 ≡ 0) (le : nsize + 32 ≤ size) (ne : All (λ x. x ≢ a) fl) where
  pub at : Placed h a (tile size 1) fl
  at = place h xs (tile size 1) ys fl a s start

  -- The blocks of the list lie on either side.
  pub far : All (λ x. (x + 32 ≤ a) ⊎ (a + size ≤ x)) fl
  far = All-imp (λ x p. go x p.0 p.1) fl (All-both _ _ fl at.clear ne)
    where
      go : (x : ℕ) → Clear a size x → x ≢ a → (x + 32 ≤ a) ⊎ (a + size ≤ x)
      go x c n = ground arith

  Fits-front : Fits h a nsize
  Fits-front =
      let high = at.fits.high in
      record { big = big; aligned = aligned; low = at.fits.low; high = omega arith }

  -- The two blocks by their tags, where the rest of the memory is as it was.
  module _ (m1 m2 : ℕ → ℕ) (front1 : m1 a ≡ nsize + 1) (back1 : m1 (a + nsize - 8) ≡ nsize + 1)
      (same1 : (c : ℕ) → c ≢ a → c ≢ a + nsize - 8 → m1 c ≡ h.memory c)
      (front2 : m2 (a + nsize) ≡ size - nsize)
      (back2 : m2 (a + nsize + (size - nsize) - 8) ≡ size - nsize)
      (same2 : (c : ℕ) → c ≢ a + nsize → c ≢ a + nsize + (size - nsize) - 8 → m2 c ≡ m1 c) where
    outside : (c : ℕ) → (c + 8 ≤ a) ⊎ (a + size ≤ c) → m2 c ≡ h.memory c
    outside c p =
        same2 c (λ e. absurd (ground arith)) (λ e. absurd (ground arith))
        ∙ same1 c (λ e. absurd (ground arith)) (λ e. absurd (ground arith))

    front_tile : IsTile m2 a (tile nsize 1)
    front_tile = record {
      big = big;
      aligned = aligned;
      bit = omega arith;
      front = same2 a (λ e. absurd (omega arith)) (λ e. absurd (omega arith)) ∙ front1;
      back = same2 (a + nsize - 8) (λ e. absurd (omega arith)) (λ e. absurd (omega arith)) ∙ back1;
    }

    rest_tile : IsTile m2 (a + nsize) (tile (size - nsize) 0)
    rest_tile =
        let whole = at.is_tile.aligned in
        record {
          big = omega arith;
          aligned = omega arith;
          bit = omega arith;
          front = omega arith;
          back = omega arith;
        }

    cut-State :
        State (record h { memory = m2 }) (xs ++ tile nsize 1 ∷ tile (size - nsize) 0 ∷ ys) fl
    cut-State =
        let e : a + nsize + (size - nsize) ≡ a + size = omega arith in
        let tail =
          subst (λ b. Tiles h.memory (b + size) ys h.mem_brk) start
            (Tiles-split h.memory h.prologue xs (tile size 1 ∷ ys) h.mem_brk s.tiles).1.1 in
        rebuild h xs (tile size 1 ∷ ys) (tile nsize 1 ∷ tile (size - nsize) 0 ∷ ys) fl a h.mem_brk
          m2 s start (λ c p. outside c (inl p))
          (
            front_tile,
            (
              rest_tile,
              subst (λ b. Tiles m2 b ys h.mem_brk) (sym e)
                  (Tiles-frame h.memory m2 (a + size) ys h.mem_brk tail
                    (λ c p q. outside c (inr p))),
            ),
          )
          s.high (All-imp kept fl far)
          (All-imp (λ x p. clear x p.0 p.1) fl (All-both _ _ fl far s.clear))
      where
        kept :
            (x : ℕ) → (x + 32 ≤ a) ⊎ (a + size ≤ x) → (m2 x ≡ h.memory x) × KeepsLinks h.memory m2 x
        kept x p = (
          outside x (ground arith),
          (outside (next_at x) (ground arith), outside (prev_at x) (ground arith)),
        )

        clear :
            (x : ℕ)
            → (x + 32 ≤ a) ⊎ (a + size ≤ x)
            → ClearOf h.prologue (xs ++ tile size 1 ∷ ys) x
            → ClearOf a (tile nsize 1 ∷ tile (size - nsize) 0 ∷ ys) x
        clear x p c =
            let tail = (ClearOf-split h.prologue xs (tile size 1 ∷ ys) x c).1.1 in
            (ground arith, (ground arith, subst (λ b. ClearOf b ys x) (omega arith) tail))

  Fits-front_in : (m : ℕ → ℕ) → Fits (record h { memory = m }) a nsize
  Fits-front_in m = record {
    big = big;
    aligned = aligned;
    low = Fits-front.low;
    high = Fits-front.high;
  }

  Fits-rest : (m : ℕ → ℕ) → Fits (record h { memory = m }) (a + nsize) (size - nsize)
  Fits-rest m =
      let whole_aligned = at.fits.aligned in
      let whole_high = at.fits.high in
      let low = Fits-front.low in
      record { big = omega arith; aligned = omega arith; low = omega arith; high = omega arith }

  pub cut-Tagged : Tagged h xs ys fl a size nsize
  cut-Tagged =
      let diff = size - nsize in
      let (m1, ran1, front1, back1, same1) =
        set_size_and_allocated-TagsSet h a nsize 1 Fits-front (omega arith) in
      let (m2, ran2, front2', back2', same2) =
        set_size_and_allocated-TagsSet (record h { memory = m1 }) (a + nsize) diff 0 (Fits-rest m1)
          (omega arith) in
      let front2 : m2 (a + nsize) ≡ diff = omega arith in
      let back2 : m2 (a + nsize + diff - 8) ≡ diff = omega arith in
      let tile1 : IsTile m1 a (tile nsize 1) = record {
        big = big;
        aligned = aligned;
        bit = omega arith;
        front = front1;
        back = back1;
      } in
      record {
        m1 = m1;
        m2 = m2;
        front = ran1;
        next = next-ok (record h { memory = m1 }) a (tile nsize 1) (Fits-front_in m1) tile1 s.word;
        rest = ran2;
        next' =
            next-ok (record h { memory = m2 }) a (tile nsize 1) (Fits-front_in m2)
              (front_tile m1 m2 front1 back1 same1 front2 back2 same2) s.word;
        state = cut-State m1 m2 front1 back1 same1 front2 back2 same2;
      }

-- ===== src/Allocator/Split.antt =====
-- `split` on a block that is allocated and large enough: its rest becomes a free block if it is large.
use c_course_projects.Common.{
  count, ℕ, ◌+◌, ◌-◌, ◌*◌, ◌%◌, ◌≤◌, ◌<◌, ◌≡◌, ◌≢◌, ◌&&◌, ◌⊎◌, inl, inr, Bool, true, false, some,
  List, [], ◌∷◌, ◌++◌, ap, sym, ◌∙◌, subst, arith, All, All-imp, leb, if◌then◌else◌, append_assoc,
  Bool-cases,
}
use c_course_projects.Allocator.{Heap, word_mod, sub_word}
use c_course_projects.Allocator.Access.{IsFree}
use c_course_projects.Allocator.Block.{
  block_size, block_next, block_set_size_and_allocated, insert_free_block,
}
use c_course_projects.Allocator.Operations.{min_block_size, split, split_off}
use c_course_projects.Allocator.Ring.{with_memory}
use c_course_projects.Allocator.Tiles.{Tile, tile, IsTile, after, free_at, Tiles-split}
use c_course_projects.Allocator.Tags.{size-ok}
use c_course_projects.Allocator.State.{State, Relisted, insert_free_block-Relisted}
use c_course_projects.Allocator.Heaps.{place, after-append}
use c_course_projects.Allocator.Release.{ClearOf-self, Apart-of_Clear}
use c_course_projects.Allocator.Cut.{Tagged, at, far, cut-Tagged}

-- Whether a rest is cut off, and the blocks that are left.
abbrev pub cuts : ℕ → ℕ → Bool
cuts size nsize = leb (2 * nsize) (size - nsize) && leb min_block_size (size - nsize)

abbrev pub split_tiles : ℕ → ℕ → List Tile
split_tiles size nsize =
    if cuts size nsize then tile nsize 1 ∷ tile (size - nsize) 0 ∷ [] else tile size 1 ∷ []

split_tiles-cut :
    (size nsize : ℕ)
    → cuts size nsize ≡ true
    → split_tiles size nsize ≡ tile nsize 1 ∷ tile (size - nsize) 0 ∷ []
split_tiles-cut size nsize t = rw t

-- What `split` does: it succeeds, and the blocks and the list are those after the cut.
abbrev pub Splits : Heap → List Tile → List Tile → List ℕ → ℕ → ℕ → ℕ → Type 0
Splits h xs ys fl a size nsize =
    (m : ℕ → ℕ) × (f : ℕ) × (fl' : List ℕ) × (split a nsize h ≡ some (a, with_memory h m f))
    × State (with_memory h m f) (xs ++ (split_tiles size nsize ++ ys)) fl'
    × ((x : ℕ) → count x fl' ≡ count x fl + count x (free_at a (split_tiles size nsize)))

split_off-run :
    (h h1 h2 h3 : Heap) (a nsize diff b : ℕ)
    → block_set_size_and_allocated a nsize 1 h ≡ some (tt, h1)
    → block_next a h1 ≡ some (b, h1)
    → block_set_size_and_allocated b diff 0 h1 ≡ some (tt, h2)
    → block_next a h2 ≡ some (b, h2)
    → insert_free_block b h2 ≡ some (tt, h3)
    → split_off a nsize diff h ≡ some (a, h3)
unfolding split_off
split_off-run h h1 h2 h3 a nsize diff b e1 e2 e3 e4 e5 = rw (e1, e2, e3, e4, e5)

module _ (h : Heap) (a size nsize : ℕ) (e : block_size a h ≡ some (size, h)) (le : nsize ≤ size)
    (lt : size < word_mod) (small : nsize ≤ 2147483648) where
  diff : sub_word size nsize ≡ size - nsize
  diff = omega arith

  twice : (2 * nsize) % word_mod ≡ 2 * nsize
  twice = omega arith

  split-cut : cuts size nsize ≡ true → split a nsize h ≡ split_off a nsize (size - nsize) h
  unfolding split
  split-cut t = rw (e, diff, twice, t)

  pub split-whole : cuts size nsize ≡ false → split a nsize h ≡ some (a, h)
  unfolding split
  split-whole t = rw (e, diff, twice, t)

module _ (h : Heap) (xs ys : List Tile) (fl : List ℕ) (a size nsize : ℕ)
    (s : State h (xs ++ tile size 1 ∷ ys) fl) (start : after h.prologue xs ≡ a) (big : 32 ≤ nsize)
    (aligned : nsize % 8 ≡ 0) (le : nsize + 32 ≤ size) (ne : All (λ x. x ≢ a) fl) where
  -- The rest is put at the front of the list.
  rest-Relisted :
      (c : Tagged h xs ys fl a size nsize)
      → Relisted
          (record h { memory = c.m2 })
          (xs ++ tile nsize 1 ∷ tile (size - nsize) 0 ∷ ys)
          ((a + nsize) ∷ fl)
          (insert_free_block (a + nsize) (record h { memory = c.m2 }))
  rest-Relisted c =
      let diff = size - nsize in
      let b = a + nsize in
      let h2 = record h { memory = c.m2 } in
      let xs' = xs ++ tile nsize 1 ∷ [] in
      let regroup = append_assoc xs (tile nsize 1 ∷ []) (tile diff 0 ∷ ys) in
      let there : after h.prologue xs' ≡ b =
        after-append h.prologue xs (tile nsize 1 ∷ []) ∙ ap (λ c. c + nsize) start in
      let s2 : State h2 (xs' ++ tile diff 0 ∷ ys) fl =
        subst (λ l. State h2 l fl) (sym regroup) c.state in
      let at_b = place h2 xs' (tile diff 0) ys fl b s2 there in
      let positive = s.positive in
      let word = at_b.is_tile.front in
      let inside = at_b.inside in
      let low = at_b.fits.low in
      let high = at_b.fits.high in
      let free : IsFree h2 b = record {
        not_null = omega arith;
        low = omega arith;
        high = omega arith;
        free = at_b-even c.m2 at_b.is_tile;
      } in
      let tl = (Tiles-split c.m2 h.prologue xs' (tile diff 0 ∷ ys) h.mem_brk s2.tiles).0 in
      subst (λ l. Relisted h2 l (b ∷ fl) (insert_free_block b h2)) regroup
        (insert_free_block-Relisted h2 (xs' ++ tile diff 0 ∷ ys) b fl s2 free
          (Apart-of_Clear b diff fl (omega arith) at_b.clear
            (All-imp not_b fl (far h xs ys fl a size nsize s start big aligned le ne)))
          (ClearOf-self c.m2 h.prologue xs' (tile diff 0) ys b tl there (omega arith)))
    where
      not_b : (x : ℕ) → (x + 32 ≤ a) ⊎ (a + size ≤ x) → x ≢ a + nsize
      not_b x p e = absurd (ground arith)

      at_b-even : (m : ℕ → ℕ) → IsTile m (a + nsize) (tile (size - nsize) 0) → m (a + nsize) % 2 ≡ 0
      at_b-even m t = let front = t.front in let aligned = t.aligned in omega arith

  cut-Splits : cuts size nsize ≡ true → nsize ≤ 2147483648 → Splits h xs ys fl a size nsize
  cut-Splits t small =
      let b = a + nsize in
      let c = cut-Tagged h xs ys fl a size nsize s start big aligned le ne in
      let (m3, ran3, s3) = rest-Relisted c in
      let h3 = with_memory h m3 b in
      let whole = at h xs ys fl a size nsize s start big aligned le ne in
      let high = s.high in
      let word = s.word in
      let below = whole.below in
      (
        m3,
        b,
        b ∷ fl,
        split-cut h a size nsize
              (size-ok h a size 1 whole.fits whole.is_tile.bit whole.is_tile.front) (omega arith)
              (omega arith) small t
            ∙ split_off-run h (record h { memory = c.m1 }) (record h { memory = c.m2 }) h3 a nsize
                (size - nsize) b c.front c.next c.rest c.next' ran3,
        subst (λ l. State h3 (xs ++ (l ++ ys)) (b ∷ fl)) (sym (split_tiles-cut size nsize t)) s3,
        λ x.
            counted x
            ∙ ap (λ l. count x fl + count x (free_at a l)) (sym (split_tiles-cut size nsize t)),
      )
    where
      counted :
          (x : ℕ)
          → count x ((a + nsize) ∷ fl)
            ≡ count x fl + count x (free_at a (tile nsize 1 ∷ tile (size - nsize) 0 ∷ []))
      counted x = omega arith

-- A block that is kept whole or cut.
pub split-Splits :
    (h : Heap) (xs ys : List Tile) (fl : List ℕ) (a size nsize : ℕ)
    → State h (xs ++ tile size 1 ∷ ys) fl
    → after h.prologue xs ≡ a
    → 32 ≤ nsize
    → nsize % 8 ≡ 0
    → nsize ≤ size
    → nsize ≤ 2147483648
    → All (λ x. x ≢ a) fl
    → Splits h xs ys fl a size nsize
split-Splits h xs ys fl a size nsize s start big aligned le small ne =
    elim (Bool-cases (cuts size nsize)) [
      | inl t ↦ cut-Splits h xs ys fl a size nsize s start big aligned (ground arith) ne t small
      | inr t ↦
          let at = place h xs (tile size 1) ys fl a s start in
          let high = s.high in
          let word = s.word in
          let below = at.below in
          (
            h.memory,
            h.flist_first,
            fl,
            split-whole h a size nsize (size-ok h a size 1 at.fits at.is_tile.bit at.is_tile.front)
                le (omega arith) small t,
            rw t s,
            λ x. rw t (omega arith),
          )
    ]

-- ===== src/Allocator/Coalesce.antt =====
-- `coalesce` on the block at the front of the free list: it is joined with the free blocks beside it.
use c_course_projects.Common.{
  ℕ, ◌+◌, ◌-◌, ◌≤◌, ◌<◌, ◌≡◌, ◌≢◌, ◌==◌, Bool, true, false, some, List, [], ◌∷◌, ◌++◌, ap, sym, ◌∙◌,
  subst, arith, append_assoc,
}
use c_course_projects.Allocator.{Heap, word_mod, add_word}
use c_course_projects.Allocator.Block.{block_size, block_prev, block_prev_size, block_next}
use c_course_projects.Allocator.Operations.{join_blocks, join_free}
use c_course_projects.Allocator.Ring.{with_memory}
use c_course_projects.Allocator.Tiles.{Tile, tile, IsTile, after, Clear}
use c_course_projects.Allocator.Tags.{Fits, size-ok, allocated-ok}
use c_course_projects.Allocator.State.{State}
use c_course_projects.Allocator.Heaps.{Placed, place, after-append}

-- The blocks that stand for a freed block of a size between `p` and `n`, by whether these are
-- allocated.
unfoldable pub joined : Bool → Bool → Tile → ℕ → Tile → List Tile
joined true true p size n = p ∷ tile size 0 ∷ n ∷ []
joined false true p size n = tile (size + p.size) 0 ∷ n ∷ []
joined true false p size n = p ∷ tile (size + n.size) 0 ∷ []
joined false false p size n = tile (size + p.size + n.size) 0 ∷ []

-- The size that is read behind the block before.
prev-ok :
    (h : Heap) (q a : ℕ) (p : Tile)
    → Fits h q p.size
    → IsTile h.memory q p
    → q + p.size ≡ a
    → block_prev a h ≡ some (q, h)
unfolding block_prev block_prev_size
prev-ok h q a p f is e =
    let tag = is.back in
    let bit = is.bit in
    let word : h.memory (a - 8) ≡ p.size + p.flag =
      ap (λ (t : ℕ). h.memory (t - 8)) (sym e) ∙ tag in
    ground arith

pub next-ok :
    (h : Heap) (a : ℕ) (t : Tile)
    → Fits h a t.size
    → IsTile h.memory a t
    → h.mem_max_addr < word_mod
    → block_next a h ≡ some (a + t.size, h)
unfolding block_next
next-ok h a t f is word =
    let high = f.high in
    let fits : add_word a t.size ≡ a + t.size = omega arith in
    rw (size-ok h a t.size t.flag f is.bit is.front, fits)

-- A block with its neighbors: `p` at `q`, `t` at `a` and `n` at `z`.
pub record Around (h : Heap) (us : List Tile) (p t n : Tile) (vs : List Tile) (fl : List ℕ)
    (q a z : ℕ) : Type 0 where
  pub state : State h (us ++ p ∷ t ∷ n ∷ vs) fl
  pub q_is : after h.prologue us ≡ q
  pub a_is : q + p.size ≡ a
  pub z_is : a + t.size ≡ z

module _ {h : Heap} {us : List Tile} {p t n : Tile} {vs : List Tile} {fl : List ℕ} {q a z : ℕ}
    (w : Around h us p t n vs fl q a z) where
  pub at_p : Placed h q p fl
  at_p = place h us p (t ∷ n ∷ vs) fl q w.state w.q_is

  pub to_a : after h.prologue (us ++ p ∷ []) ≡ a
  to_a = after-append h.prologue us (p ∷ []) ∙ ap (λ b. b + p.size) w.q_is ∙ w.a_is

  pub to_z : after h.prologue (us ++ p ∷ t ∷ []) ≡ z
  to_z =
      after-append h.prologue us (p ∷ t ∷ [])
      ∙ ap (λ b. b + p.size + t.size) w.q_is
      ∙ ap (λ b. b + t.size) w.a_is
      ∙ w.z_is

  pub State-a : State h ((us ++ p ∷ []) ++ (t ∷ n ∷ vs)) fl
  State-a = subst (λ l. State h l fl) (sym (append_assoc us (p ∷ []) (t ∷ n ∷ vs))) w.state

  pub at_t : Placed h a t fl
  at_t = place h (us ++ p ∷ []) t (n ∷ vs) fl a State-a to_a

  pub at_n : Placed h z n fl
  at_n =
      place h (us ++ p ∷ t ∷ []) n vs fl z
        (subst (λ l. State h l fl) (sym (append_assoc us (p ∷ t ∷ []) (n ∷ vs))) w.state) to_z

  pub join_free-ok : join_free a h ≡ join_blocks (p.flag == 1) (n.flag == 1) a q z t.size h
  unfolding join_free
  join_free-ok = rw (
    prev-ok h q a p at_p.fits at_p.is_tile w.a_is,
    next-ok h a t at_t.fits at_t.is_tile w.state.word,
    size-ok h a t.size t.flag at_t.fits at_t.is_tile.bit at_t.is_tile.front,
    allocated-ok h q p.size p.flag at_p.fits at_p.is_tile.bit at_p.is_tile.front,
    w.z_is,
    allocated-ok h z n.size n.flag at_n.fits at_n.is_tile.bit at_n.is_tile.front,
  )

  pub p-size-ok : block_size q h ≡ some (p.size, h)
  p-size-ok = size-ok h q p.size p.flag at_p.fits at_p.is_tile.bit at_p.is_tile.front

  pub n-size-ok : block_size z h ≡ some (n.size, h)
  n-size-ok = size-ok h z n.size n.flag at_n.fits at_n.is_tile.bit at_n.is_tile.front

  -- The sizes of the blocks are added without overflow.
  pub sums_fit : p.size + t.size + n.size < word_mod
  sums_fit =
      let high = w.state.high in
      let word = w.state.word in
      let below = at_n.below in let a_is = w.a_is in let z_is = w.z_is in omega arith

-- Another free list.
pub relist :
    {h : Heap} {us : List Tile} {p t n : Tile} {vs : List Tile} {fl : List ℕ} {q a z : ℕ}
    (fl' : List ℕ) (m : ℕ → ℕ) (f : ℕ)
    → Around h us p t n vs fl q a z
    → State (with_memory h m f) (us ++ p ∷ t ∷ n ∷ vs) fl'
    → Around (with_memory h m f) us p t n vs fl' q a z
relist fl' m f w s = record { state = s; q_is = w.q_is; a_is = w.a_is; z_is = w.z_is }

pub Clear-join :
    (a s1 s2 b x : ℕ)
    → 32 ≤ s1
    → a + s1 ≡ b
    → Clear a s1 x
    → Clear b s2 x
    → x ≢ b
    → Clear a (s1 + s2) x
Clear-join a s1 s2 b x big e c d n = ground arith
